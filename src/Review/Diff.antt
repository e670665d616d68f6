-- ===== src/Review/Diff.antt =====
-- crates/ar-review/src/diff.rs: how much of a diff is sent to a model.
pub mod Sections
pub mod Cap
use auto_review.Prelude.{
  ℕ, zero, suc, ◌+◌, ◌-◌, ◌/◌, ◌≤◌, ◌<◌, ◌≡◌, refl, sym, ap, inl, inr, Bool, true, false, not, ◌&&◌,
  ◌||◌, List, [], ◌∷◌, ◌++◌, leb, ltb, ◌==◌, if◌then◌else◌, arith, Bool-cases, is_empty, drop,
  length, concat, all,
}
use auto_review.Prelude.Text.{Text, codes, starts_with, ends_with}
use auto_review.Prelude.Boundary.{byte_len, truncate_at}
use auto_review.Prelude.Search.{show_nat}

abbrev pub default_max_diff_bytes : ℕ
default_max_diff_bytes = 100000

abbrev pub cheap_tier_diff_cap : ℕ
cheap_tier_diff_cap = 40960

unfoldable pub cap_for_prompt : Text → ℕ → Text → Text
cap_for_prompt body max_bytes marker =
    if leb (byte_len body) max_bytes
    then body
    else let out = truncate_at body max_bytes in
      (if ends_with (codes "\n") out then out else out ++ codes "\n") ++ marker ++ codes "\n"

unfoldable pub cap_for_embed : Text → ℕ → Text
cap_for_embed body max_bytes =
    if leb (byte_len body) max_bytes then body else truncate_at body max_bytes

abbrev pub marker : Text
marker = codes "diff --git "

-- One more character of the section that is being read.
unfoldable pub push_char : ℕ → List Text → List Text
push_char c [] = (c ∷ []) ∷ []
push_char c (s ∷ ss) = (c ∷ s) ∷ ss

-- The loop over the matches of the marker. The number counts the characters left of a match, in
-- which the next search does not start; the Boolean says that a line starts here. The first
-- text of the result is what stands before the first section.
unfoldable pub scan_sections : ℕ → Bool → Text → List Text
scan_sections k line_start [] = [] ∷ []
scan_sections (suc k) line_start (c ∷ s) = push_char c (scan_sections k (c == 10) s)
scan_sections zero line_start (c ∷ s) =
    let hit = starts_with marker (c ∷ s) in
    let rest = push_char c (scan_sections (if hit then 10 else 0) (c == 10) s) in
    if hit && line_start then [] ∷ rest else rest

unfoldable pub split_files : Text → List Text
split_files diff = drop 1 (scan_sections 0 true diff)

unfoldable pub truncate_flat : Text → ℕ → Text
truncate_flat diff max_bytes =
    truncate_at diff max_bytes ++ codes "\n\n[auto_review: diff truncated to fit byte cap]\n"

pub record Capped : Type 0 where
  pub out : Text
  pub included : ℕ
  pub omitted : ℕ

-- The body of the loop over the files.
unfoldable pub add_file : ℕ → Capped → Text → Capped
add_file max_bytes a f =
    if leb (byte_len a.out + byte_len f) max_bytes
    then record a { out = a.out ++ f; included = suc a.included }
    else record a { omitted = suc a.omitted }

unfoldable pub add_files : ℕ → Capped → List Text → Capped
add_files max_bytes a [] = a
add_files max_bytes a (f ∷ fs) = add_files max_bytes (add_file max_bytes a f) fs

unfoldable pub omission_note : Capped → ℕ → Text
omission_note a max_bytes =
    codes "\n\n[auto_review: omitted "
    ++ show_nat a.omitted
    ++ codes " file(s) to fit a "
    ++ show_nat (max_bytes / 1024)
    ++ codes " KiB diff cap; included "
    ++ show_nat a.included
    ++ codes " file(s)]\n"

unfoldable pub cap_diff : Text → ℕ → Text
cap_diff diff max_bytes =
    if leb (byte_len diff) max_bytes
    then diff
    else let files = split_files diff in
      if is_empty files
      then truncate_flat diff max_bytes
      else let a = add_files max_bytes (record { out = []; included = 0; omitted = 0 }) files in
        if ltb 0 a.omitted then a.out ++ omission_note a max_bytes else a.out
