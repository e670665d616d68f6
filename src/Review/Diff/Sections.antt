-- ===== src/Review/Diff/Sections.antt =====
-- crates/ar-review/src/diff.rs, `split_files`: the sections are the diff from its first marker on.
use auto_review.Prelude.{
  ℕ, zero, suc, ◌≡◌, refl, ◌⊎◌, inl, inr, Bool, true, ◌&&◌, List, [], ◌∷◌, ◌++◌, ◌==◌,
  if◌then◌else◌, Bool-cases, concat,
}
use auto_review.Prelude.Text.{Text, starts_with}
use auto_review.Review.Diff.{marker, push_char, scan_sections, split_files}

concat-push_char : (c : ℕ) (ss : List Text) → concat (push_char c ss) ≡ c ∷ concat ss
unfolding push_char
concat-push_char c [] = refl
concat-push_char c (s ∷ ss) = refl

concat-scan_sections : (k : ℕ) (b : Bool) (s : Text) → concat (scan_sections k b s) ≡ s
unfolding scan_sections
concat-scan_sections k b [] = refl
concat-scan_sections (suc k) b (c ∷ s) =
    rw (concat-push_char c (scan_sections k (c == 10) s), concat-scan_sections k (c == 10) s) refl
concat-scan_sections zero b (c ∷ s) =
    let k' = if starts_with marker (c ∷ s) then 10 else 0 in
    let rest = concat-push_char c (scan_sections k' (c == 10) s) in
    let ih = concat-scan_sections k' (c == 10) s in
    elim (Bool-cases (starts_with marker (c ∷ s) && b)) [
      | inl cut ↦ rw (cut, rest, ih) refl
      | inr go ↦ rw (go, rest, ih) refl
    ]

List-cases : (l : List Text) → (l ≡ []) ⊎ ((x : Text) × (xs : List Text) × (l ≡ x ∷ xs))
List-cases [] = inl refl
List-cases (x ∷ xs) = inr (x, xs, refl)

-- Every section of a diff, read in order, and a text before them give the diff back: no byte of
-- it is lost or read twice.
concat-split_files : (diff : Text) → (before : Text) × (before ++ concat (split_files diff) ≡ diff)
unfolding split_files
concat-split_files diff =
    let whole = concat-scan_sections 0 true diff in
    elim (List-cases (scan_sections 0 true diff)) [
      | inl e ↦ ([], rw e (rw e at whole))
      | inr (s, ss, e) ↦ (s, rw e (rw e at whole))
    ]
