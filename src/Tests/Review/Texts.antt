-- ===== src/Tests/Review/Texts.antt =====
-- crates/ar-review: its theorems on texts, at concrete inputs.
use auto_review.Prelude.{◌≢◌, [], ◌≤◌, ◌<◌, ◌≡◌, ◌⊎◌, not, ◌&&◌, ◌||◌, [], length, is_some, leb}
use auto_review.Prelude.Text.{codes}
use auto_review.Prelude.Boundary.{byte_len}
use auto_review.Prelude.Search.{contains, split_whitespace}
use auto_review.Review.Diff.{split_files, cap_diff}
use auto_review.Review.Diff.Cap.{IsFlat, IsGreedy, cap_diff_lem}
use auto_review.Review.Metadata.{
  has_clearly_acceptable_release_pr_metadata, is_release_pr_title,
  has_clearly_acceptable_pr_metadata,
}
use auto_review.Review.Metadata.Panics.{begins_wide, has_clearly_acceptable_pr_metadata-panics}
use auto_review.Tests.Fixtures.{diff}

cap_diff_lem_example :
    ((byte_len diff ≤ 10) × (cap_diff diff 10 ≡ diff))
    ⊎ ((10 < byte_len diff)
        × (((split_files diff ≡ []) × IsFlat diff 10 (cap_diff diff 10))
            ⊎ ((split_files diff ≢ []) × IsGreedy diff 10 (cap_diff diff 10))))
cap_diff_lem_example = cap_diff_lem diff 10

has_clearly_acceptable_pr_metadata-panics_example :
    is_some (has_clearly_acceptable_pr_metadata (codes "🐛 fix") [])
    ≡ not (
        not (
          has_clearly_acceptable_release_pr_metadata (codes "🐛 fix") []
          || is_release_pr_title (codes "🐛 fix"))
        && (leb (length (codes "🐛 fix")) 72 && not (contains (codes ":") (codes "🐛 fix")))
        && begins_wide (split_whitespace (codes "🐛 fix")))
has_clearly_acceptable_pr_metadata-panics_example =
    has_clearly_acceptable_pr_metadata-panics (codes "🐛 fix") []
