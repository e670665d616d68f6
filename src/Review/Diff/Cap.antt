-- ===== src/Review/Diff/Cap.antt =====
-- crates/ar-review/src/diff.rs: the bounds that the caps keep.
use auto_review.Prelude.{
  ℕ, ◌+◌, ◌≤◌, ◌<◌, ◌/◌, suc, ◌==◌, ◌≡◌, ◌≢◌, false, true, if◌then◌else◌, ap, refl, sym, ◌⊎◌, inl,
  inr, List, [], ◌∷◌, ◌++◌, leb, ltb, arith, Bool-cases, is_empty, append-nil,
}
use auto_review.Prelude.Text.{Text, codes}
use auto_review.Prelude.Search.{show_nat}
use auto_review.Prelude.Boundary.{
  byte_len, byte_len-append, truncate_at, byte_len-truncate_at, truncate_at_near,
  truncate_at-IsPrefix,
}
use auto_review.Review.Diff.{
  cap_for_embed, Capped, add_file, add_files, split_files, truncate_flat, omission_note, cap_diff,
}

-- What is embedded is a prefix of the text, at most `max_bytes` long; it is the whole text when
-- that fits, and otherwise it falls short of `max_bytes` by three bytes at most.
cap_for_embed_lem :
    (body : Text) (max_bytes : ℕ)
    → ((rest : Text) × (body ≡ cap_for_embed body max_bytes ++ rest))
      × (byte_len (cap_for_embed body max_bytes) ≤ max_bytes)
      × (((byte_len body ≤ max_bytes) × (cap_for_embed body max_bytes ≡ body))
          ⊎ ((max_bytes < byte_len body)
              × (max_bytes < byte_len (cap_for_embed body max_bytes) + 4)))
unfolding cap_for_embed
cap_for_embed_lem body max_bytes = elim (Bool-cases (leb (byte_len body) max_bytes)) [
  | inl fits ↦
      rw (fits, cap_for_embed) (([], sym (append-nil body)), ground arith, inl (ground arith, refl))
  | inr over ↦
      rw (over, cap_for_embed)
        (
          truncate_at-IsPrefix body max_bytes,
          byte_len-truncate_at body max_bytes,
          (let long : max_bytes < byte_len body = ground arith in
              inr (long, truncate_at_near body max_bytes (omega arith))),
        )
]

-- What is taken of the files from a text on: in their order, each file that still fits into the cap,
-- with the counts of the files that are taken and left out.
pub data Takes (max_bytes : ℕ) : Text → List Text → Text → ℕ → ℕ → Type 0 where
  no_more : (out : Text) → Takes max_bytes out [] out 0 0
  takes :
      (out f kept : Text) (fs : List Text) (included omitted : ℕ)
      → byte_len out + byte_len f ≤ max_bytes
      → Takes max_bytes (out ++ f) fs kept included omitted
      → Takes max_bytes out (f ∷ fs) kept (included + 1) omitted
  omits :
      (out f kept : Text) (fs : List Text) (included omitted : ℕ)
      → max_bytes < byte_len out + byte_len f
      → Takes max_bytes out fs kept included omitted
      → Takes max_bytes out (f ∷ fs) kept included (omitted + 1)

Takes-le :
    (m : ℕ) (out kept : Text) (fs : List Text) (i o : ℕ)
    → byte_len out ≤ m
    → Takes m out fs kept i o
    → byte_len kept ≤ m
Takes-le m out kept fs i o h (no_more _) = h
Takes-le m out kept fs i o h (takes _ f _ gs i' _ fits more) =
    Takes-le m (out ++ f) kept gs i' o (omega (arith, fits, byte_len-append out f)) more
Takes-le m out kept fs i o h (omits _ f _ gs _ o' long more) = Takes-le m out kept gs i o' h more

-- What the loop adds to its counters.
add_files-Takes :
    (m : ℕ) (fs : List Text) (a : Capped)
    → (i o : ℕ) × Takes m a.out fs (add_files m a fs).out i o
      × ((add_files m a fs).included ≡ a.included + i)
      × ((add_files m a fs).omitted ≡ a.omitted + o)
unfolding add_files add_file
add_files-Takes m [] a = (0, 0, no_more a.out, omega arith, omega arith)
add_files-Takes m (f ∷ fs) a = elim (Bool-cases (leb (byte_len a.out + byte_len f) m)) [
  | inl fits ↦
      let b : Capped = record a { out = a.out ++ f; included = suc a.included } in
      let (i, o, more, taken, left) = add_files-Takes m fs b in
      rw (fits, add_files, add_file)
        (
          i + 1,
          o,
          takes a.out f (add_files m b fs).out fs i o (ground arith) more,
          omega (arith, taken),
          omega (arith, left),
        )
  | inr long ↦
      let b : Capped = record a { omitted = suc a.omitted } in
      let (i, o, more, taken, left) = add_files-Takes m fs b in
      rw (long, add_files, add_file)
        (
          i,
          o + 1,
          omits a.out f (add_files m b fs).out fs i o (ground arith) more,
          omega (arith, taken),
          omega (arith, left),
        )
]

nil-le : {m : ℕ} → byte_len [] ≤ m
unfolding byte_len
nil-le = omega arith

-- The note is there if a file is left out, and gives both counts.
abbrev pub note_of : ℕ → ℕ → ℕ → Text
note_of max_bytes included omitted =
    if omitted == 0
    then []
    else codes "\n\n[auto_review: omitted "
      ++ show_nat omitted
      ++ codes " file(s) to fit a "
      ++ show_nat (max_bytes / 1024)
      ++ codes " KiB diff cap; included "
      ++ show_nat included
      ++ codes " file(s)]\n"

-- What an oversized diff without file markers becomes: a beginning of it, at most three bytes
-- short of the cap, and a note.
abbrev pub IsFlat : Text → ℕ → Text → Type 0
IsFlat diff m capped =
    (kept rest : Text) × (diff ≡ kept ++ rest)
    × (byte_len kept ≤ m)
    × (m < byte_len kept + 4)
    × (capped ≡ kept ++ codes "\n\n[auto_review: diff truncated to fit byte cap]\n")

-- What one with files becomes: those that fit one after the other, and the note that counts the
-- files.
abbrev pub IsGreedy : Text → ℕ → Text → Type 0
IsGreedy diff m capped =
    (kept : Text) × (included omitted : ℕ) × Takes m [] (split_files diff) kept included omitted
    × (byte_len kept ≤ m)
    × (capped ≡ kept ++ note_of m included omitted)

capped-note :
    (m : ℕ) (a : Capped) (i o : ℕ)
    → a.included ≡ i
    → a.omitted ≡ o
    → (if ltb 0 a.omitted then a.out ++ omission_note a m else a.out) ≡ a.out ++ note_of m i o
unfolding omission_note
capped-note m a i o included omitted =
    rw (← included, ← omitted)
      (elim (Bool-cases (ltb 0 a.omitted)) [
        | inl left ↦
            let some_left : (a.omitted == 0) ≡ false = ground arith in rw (left, some_left) refl
        | inr whole ↦
            let none_left : (a.omitted == 0) ≡ true = ground arith in
            rw (whole, none_left) (sym (append-nil a.out))
      ])

-- A diff that fits is kept as it is. Of any other, without file markers, a beginning is kept that
-- fits the cap and is at most three bytes short of it, with a note behind it; and with them, the
-- files are kept that fit one after the other, and if one is left out a note counts those that are
-- included and omitted.
pub cap_diff_lem :
    (diff : Text) (max_bytes : ℕ)
    → ((byte_len diff ≤ max_bytes) × (cap_diff diff max_bytes ≡ diff))
      ⊎ ((max_bytes < byte_len diff)
          × (((split_files diff ≡ []) × IsFlat diff max_bytes (cap_diff diff max_bytes))
              ⊎ ((split_files diff ≢ []) × IsGreedy diff max_bytes (cap_diff diff max_bytes))))
unfolding cap_diff
cap_diff_lem diff m = elim (Bool-cases (leb (byte_len diff) m)) [
  | inl fits ↦ rw (fits, cap_diff) (inl (ground arith, refl))
  | inr over ↦
      let long : m < byte_len diff = ground arith in
      elim (Bool-cases (is_empty (split_files diff))) [
        | inl flat ↦
            let (rest, split) = truncate_at-IsPrefix diff m in
            rw (over, flat, cap_diff)
              (inr (
                long,
                inl (
                  none_of (split_files diff) flat,
                  (
                    truncate_at diff m,
                    rest,
                    split,
                    byte_len-truncate_at diff m,
                    truncate_at_near diff m (omega arith),
                    unfold truncate_flat in refl,
                  ),
                ),
              ))
        | inr files ↦
            let start : Capped = record { out = []; included = 0; omitted = 0 } in
            let (i, o, taken, included, omitted) = add_files-Takes m (split_files diff) start in
            let a = add_files m start (split_files diff) in
            rw (over, files, cap_diff)
              (inr (
                long,
                inr (
                  λ e. cc (files, ap (λ (l : List Text). is_empty l) e),
                  (
                    a.out,
                    i,
                    o,
                    taken,
                    Takes-le m [] a.out (split_files diff) i o nil-le taken,
                    capped-note m a i o (omega (arith, included)) (omega (arith, omitted)),
                  ),
                ),
              ))
      ]
]
  where
    none_of : (l : List Text) → is_empty l ≡ true → l ≡ []
    none_of [] h = refl
    none_of (x ∷ xs) h = cc
