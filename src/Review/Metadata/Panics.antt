-- ===== src/Review/Metadata/Panics.antt =====
-- crates/ar-review/src/pipeline.rs, `has_clearly_acceptable_pr_metadata`: when it panics.
use auto_review.Prelude.{
  ◌≡◌, refl, Bool, false, not, ◌&&◌, ◌||◌, List, [], ◌∷◌, leb, length, is_some, arith,
}
use auto_review.Prelude.Text.{Text, codes}
use auto_review.Prelude.Boundary.{is_char_boundary, len_utf8}
use auto_review.Prelude.Search.{contains, split_whitespace}
use auto_review.Review.Metadata.{
  has_clearly_acceptable_release_pr_metadata, is_release_pr_title,
  has_clearly_acceptable_pr_metadata, split_first, first_word_capitalized,
}

-- Whether the first word begins with a character of more than one byte.
abbrev pub begins_wide : List Text → Bool
begins_wide [] = false
begins_wide ([] ∷ ws) = false
begins_wide ((c ∷ s) ∷ ws) = leb 0x80 c

first_word-panics : (ws : List Text) → is_some (first_word_capitalized ws) ≡ not (begins_wide ws)
unfolding first_word_capitalized split_first is_char_boundary len_utf8
first_word-panics [] = refl
first_word-panics ([] ∷ ws) = refl
first_word-panics ((c ∷ s) ∷ ws) = ground arith

-- The check of a title and a body panics exactly when the title is that of no release, has at
-- most 72 characters and no colon, and its first word begins with a character outside ASCII.
pub has_clearly_acceptable_pr_metadata-panics :
    (title body : Text)
    → is_some (has_clearly_acceptable_pr_metadata title body)
      ≡ not (
          not (has_clearly_acceptable_release_pr_metadata title body || is_release_pr_title title)
          && (leb (length title) 72 && not (contains (codes ":") title))
          && begins_wide (split_whitespace title))
unfolding has_clearly_acceptable_pr_metadata
has_clearly_acceptable_pr_metadata-panics title body =
    let wide = first_word-panics (split_whitespace title) in ground (arith, wide)
