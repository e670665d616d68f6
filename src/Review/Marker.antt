-- ===== src/Review/Marker.antt =====
-- crates/ar-review/src/override_marker.rs: the mark of a human override on a pull request.
use auto_review.Prelude.{
  ℕ, ◌≡◌, refl, sym, ◌∙◌, inl, inr, Bool, true, ◌&&◌, ◌||◌, none, some, ◌++◌, ltb, ◌==◌,
  if◌then◌else◌, arith, is_empty, drop, length, Bool-cases,
}
use auto_review.Prelude.Text.{
  Text, codes, starts_with, strip_prefix, trim, trim_end, trim_start_matches, trim_end_matches,
  starts_with-append, strip_prefix-append, strip_prefix-eq-none,
}
use auto_review.Prelude.Search.{find, contains}

abbrev pub title_marker : Text
title_marker = codes "[override-approved] "

abbrev pub body_start : Text
body_start = codes "<!-- auto-review:override:start -->"

abbrev pub body_end : Text
body_end = codes "<!-- auto-review:override:end -->"

unfoldable pub title_has_marker : Text → Bool
title_has_marker title = starts_with title_marker title

unfoldable pub apply_title_marker : Text → Text
apply_title_marker title = if title_has_marker title then title else title_marker ++ title

unfoldable pub strip_title_marker : Text → Text
strip_title_marker title = elim (strip_prefix title_marker title) [
  | some rest ↦ rest
  | none ↦ title
]

unfoldable pub body_has_section : Text → Bool
body_has_section body = contains body_start body && contains body_end body

unfoldable pub build_block : Text → Text
build_block inner = body_start ++ codes "\n" ++ trim inner ++ codes "\n" ++ body_end

unfoldable pub is_blank : ℕ → Bool
is_blank c = c == 10 || c == 13 || c == 32 || c == 9

unfoldable pub join_around : Text → Text → Text
join_around before after =
    if is_empty before
    then after
    else if is_empty after
    then before
    else before ++ codes "\n\n" ++ after

-- The indices that the source compares are compared here by the lengths of what stands before
-- them, in characters instead of bytes.
unfoldable pub strip_body_section : Text → Text
strip_body_section body = elim (find body_start body) [
  | none ↦ body
  | some (before, from_start) ↦ elim (find body_end body) [
    | none ↦ body
    | some (before_end, from_end) ↦
        if ltb (length before_end) (length before)
        then body
        else join_around (trim_end_matches is_blank before)
            (trim_start_matches is_blank (drop (length body_end) from_end))
  ]
]

unfoldable pub apply_body_section : Text → Text → Text
apply_body_section body inner =
    let block = build_block inner in
    let base = strip_body_section body in
    if is_empty (trim base) then block else trim_end base ++ codes "\n\n" ++ block

abbrev mark : Text → Text → Text
mark m t = if starts_with m t then t else m ++ t

starts_with-mark : (m t : Text) → starts_with m (mark m t) ≡ true
starts_with-mark m t = ground (arith, starts_with-append m t)

abbrev unmark : Text → Text → Text
unmark m t = elim (strip_prefix m t) [ some rest ↦ rest | none ↦ t ]

unmark-mark : (m t : Text) → unmark m (mark m t) ≡ unmark m t
unmark-mark m t = elim (Bool-cases (starts_with m t)) [
  | inl marked ↦ rw marked refl
  | inr plain ↦
      let added : unmark m (m ++ t) ≡ t = rw (strip_prefix-append m t, unmark) refl in
      let same : unmark m t ≡ t = rw (strip_prefix-eq-none m t plain, unmark) refl in
      rw plain (added ∙ sym same)
]

mark_idem : (m t : Text) → mark m (mark m t) ≡ mark m t
mark_idem m t = rw (starts_with-mark m t) refl

-- A title that was marked carries the mark, marking it again changes nothing, and stripping it
-- gives what stripping gives of the title before.
strip_title_marker-apply_title_marker :
    (title : Text)
    → (title_has_marker (apply_title_marker title) ≡ true)
      × (apply_title_marker (apply_title_marker title) ≡ apply_title_marker title)
      × (strip_title_marker (apply_title_marker title) ≡ strip_title_marker title)
unfolding apply_title_marker title_has_marker strip_title_marker
strip_title_marker-apply_title_marker title = (
  starts_with-mark title_marker title,
  mark_idem title_marker title,
  unmark-mark title_marker title,
)
