-- ===== src/Prelude/Replace.antt =====
-- `str::replace`, and what is still contained in a text after something in it is replaced.
use Prim.Native.Nat.{ℕ, zero, suc, ◌<◌, ◌≤◌}
use mathlib.Core.Path.{◌≡◌, refl, ap}
use mathlib.Core.Logic.{inl, inr}
use mathlib.Core.Bool.{Bool, true, false, not, ◌||◌}
use mathlib.Core.List.{[], ◌∷◌, ◌++◌}
use mathlib.Core.Option.{none, some}
use native.Mathlib.Omega.{arith}
use auto_review.Prelude.Tests.{◌==◌, Bool-cases, Option-cases}
use auto_review.Prelude.Lists.{length, drop, is_empty, all, length-append}
use auto_review.Prelude.Text.{Text, codes, starts_with}
use auto_review.Prelude.Search.{find, contains, append-find}

-- Each match gives way to `to`, and what `skip` leaves out behind it goes too. On fuel above the
-- length; `pat` is not empty.
unfoldable pub replace_from : ℕ → (Text → Text) → Text → Text → Text → Text
replace_from zero skip pat to s = s
replace_from (suc f) skip pat to s = elim (find pat s) [
  | none ↦ s
  | some m ↦ m.0 ++ (to ++ replace_from f skip pat to (skip (drop (length pat) m.1)))
]

unfoldable pub replace : Text → Text → Text → Text
replace pat to s = replace_from (suc (length s)) (λ rest. rest) pat to s

abbrev pub lacks : ℕ → Text → Bool
lacks c = all (λ d. not (d == c))

starts_with-append : (pat s t : Text) → starts_with pat s ≡ true → starts_with pat (s ++ t) ≡ true
unfolding starts_with
starts_with-append [] s t h = refl
starts_with-append (p ∷ pat) [] t h = cc
starts_with-append (p ∷ pat) (c ∷ s) t h = ground (arith, starts_with-append pat s t)

starts_with-nil : (pat : Text) → is_empty pat ≡ false → starts_with pat [] ≡ false
unfolding starts_with
starts_with-nil [] e = cc
starts_with-nil (p ∷ pat) e = refl

starts_with-cut :
    (pat s t : Text) (c : ℕ) → lacks c pat ≡ true → starts_with pat (s ++ c ∷ t) ≡ starts_with pat s
unfolding starts_with
starts_with-cut [] s t c h = refl
starts_with-cut (p ∷ pat) [] t c h = ground arith
starts_with-cut (p ∷ pat) (d ∷ s) t c h = ground (arith, starts_with-cut pat s t c)

contains-cons :
    (pat : Text) (c : ℕ) (s : Text)
    → contains pat (c ∷ s) ≡ (starts_with pat (c ∷ s) || contains pat s)
unfolding contains find
contains-cons pat c s = elim (Bool-cases (starts_with pat (c ∷ s))) [
  | inl hit ↦ ground arith
  | inr miss ↦ elim (Option-cases (find pat s)) [ inl e ↦ ground arith | inr (m, e) ↦ ground arith ]
]

contains-nil : (pat : Text) → is_empty pat ≡ false → contains pat [] ≡ false
unfolding contains find
contains-nil [] e = cc
contains-nil (p ∷ pat) e = refl

-- A character that is not in the pattern cuts a text into two that are searched each for itself.
pub contains-cut :
    (pat s t : Text) (c : ℕ)
    → lacks c pat ≡ true
    → is_empty pat ≡ false
    → contains pat (s ++ c ∷ t) ≡ (contains pat s || contains pat t)
contains-cut pat [] t c h e =
    let here = contains-cons pat c t in
    let start = starts_with-cut pat [] t c h in
    let nothing = contains-nil pat e in
    let none_left = starts_with-nil pat e in ground (arith, here, start, nothing, none_left)
contains-cut pat (d ∷ s) t c h e =
    let here = contains-cons pat d (s ++ c ∷ t) in
    let there = contains-cons pat d s in
    let start = starts_with-cut pat (d ∷ s) t c h in
    let rest = contains-cut pat s t c h e in ground (arith, here, there, start, rest)

contains-before :
    (pat s t : Text) → is_empty pat ≡ false → contains pat s ≡ true → contains pat (s ++ t) ≡ true
contains-before pat [] t e h = let nothing = contains-nil pat e in absurd (ground arith)
contains-before pat (c ∷ s) t e h =
    let here = contains-cons pat c (s ++ t) in
    let there = contains-cons pat c s in
    let start = starts_with-append pat (c ∷ s) t in
    let rest = contains-before pat s t e in ground (arith, here, there, start, rest)

pub contains-drop :
    (pat : Text) (n : ℕ) (s : Text) → contains pat s ≡ false → contains pat (drop n s) ≡ false
contains-drop pat zero s h = h
contains-drop pat (suc n) [] h = h
contains-drop pat (suc n) (c ∷ s) h =
    let here = contains-cons pat c s in contains-drop pat n s (ground (arith, here))

contains-behind : (pat s t : Text) → contains pat (s ++ t) ≡ false → contains pat t ≡ false
contains-behind pat [] t h = h
contains-behind pat (c ∷ s) t h =
    let here = contains-cons pat c (s ++ t) in contains-behind pat s t (ground (arith, here))

-- What stands before the first match has no match in it.
find-before :
    (pat s before from : Text)
    → is_empty pat ≡ false
    → find pat s ≡ some (before, from)
    → contains pat before ≡ false
unfolding find
find-before [] [] b f n h = cc
find-before (p ∷ pat) [] b f n h = cc
find-before pat (c ∷ s) b f n h = elim (Bool-cases (starts_with pat (c ∷ s))) [
  | inl hit ↦
      let none_left = contains-nil pat n in
      let first : [] ≡ b = ground arith in rw (← first) none_left
  | inr miss ↦ elim (Option-cases (find pat s)) [
    | inl e ↦ absurd (ground arith)
    | inr ((x, y), e) ↦
        let ih = find-before pat s x y n e in
        let (split, matched) = append-find pat s x y e in
        let first : c ∷ x ≡ b = ground arith in
        let here = contains-cons pat c x in
        let start = starts_with-append pat (c ∷ x) y in
        let whole : c ∷ s ≡ c ∷ x ++ y = ap (λ z. c ∷ z) split in
        let missed : starts_with pat (c ∷ x ++ y) ≡ false = rw (← whole) miss in
        rw (← first) (ground (arith, here, start, ih, missed))
  ]
]

length-drop : (n : ℕ) (s : Text) → length (drop n s) ≤ length s
length-drop zero s = omega arith
length-drop (suc n) [] = omega arith
length-drop (suc n) (c ∷ s) = omega (arith, length-drop n s)

pub length-behind :
    (pat s : Text)
    → is_empty pat ≡ false
    → starts_with pat s ≡ true
    → length (drop (length pat) s) < length s
unfolding starts_with
length-behind [] s e h = cc
length-behind (p ∷ pat) [] e h = cc
length-behind (p ∷ pat) (c ∷ s) e h = omega (arith, length-drop (length pat) s)

-- What is skipped is a beginning of the text.
pub record Skips (skip : Text → Text) : Type 0 where
  pub shorter : (s : Text) → length (skip s) ≤ length s
  pub absent : (pat s : Text) → contains pat s ≡ false → contains pat (skip s) ≡ false

pub skip_nothing : Skips (λ s. s)
skip_nothing = record { shorter = λ s. omega arith; absent = λ pat s h. h }

-- No match can reach over the text that is put in.
abbrev pub IsWall : Text → Text → Type 0
IsWall pat to =
    (s t : Text)
    → contains pat s ≡ false
    → contains pat t ≡ false
    → contains pat (s ++ (to ++ t)) ≡ false

module _ (skip : Text → Text) (skips : Skips skip) (pat to : Text) where
  -- A replaced pattern is gone.
  pub replace_from-absent :
      (f : ℕ) (s : Text)
      → is_empty pat ≡ false
      → IsWall pat to
      → length s < f
      → contains pat (replace_from f skip pat to s) ≡ false
  unfolding replace_from
  replace_from-absent zero s full wall h = absurd (omega (arith, h))
  replace_from-absent (suc f) s full wall h = elim (Option-cases (find pat s)) [
    | inl e ↦
        let same : replace_from (suc f) skip pat to s ≡ s = rw (e, replace_from) refl in
        rw same (unfold contains in rw e refl)
    | inr ((x, y), e) ↦
        let (split, matched) = append-find pat s x y e in
        let shorter : length (skip (drop (length pat) y)) < f = omega (
          arith,
          skips.shorter (drop (length pat) y),
          length-behind pat y full matched,
          ap length split,
          length-append x y,
          h,
        ) in
        rw (e, replace_from)
          (wall x _ (find-before pat s x y full e)
            (replace_from-absent f (skip (drop (length pat) y)) full wall shorter))
  ]

  -- A replacement makes no other pattern.
  pub replace_from-keeps :
      (other : Text) (f : ℕ) (s : Text)
      → is_empty other ≡ false
      → IsWall other to
      → contains other s ≡ false
      → contains other (replace_from f skip pat to s) ≡ false
  unfolding replace_from
  replace_from-keeps other zero s e wall h = h
  replace_from-keeps other (suc f) s n wall h = elim (Option-cases (find pat s)) [
    | inl e ↦ rw (e, replace_from) h
    | inr ((x, y), e) ↦
        let (split, matched) = append-find pat s x y e in
        let before : contains other x ≡ false =
          ground (arith, contains-before other x y n, rw split at h) in
        let behind : contains other y ≡ false = contains-behind other x y (rw split at h) in
        rw (e, replace_from)
          (wall x _ before (
            replace_from-keeps other f (skip (drop (length pat) y)) n wall
              (skips.absent other _ (contains-drop other (length pat) y behind))))
  ]

pub redacted-IsWall :
    (pat : Text)
    → lacks b'[' pat ≡ true
    → lacks b']' pat ≡ true
    → is_empty pat ≡ false
    → contains pat (codes "redacted") ≡ false
    → IsWall pat (codes "[redacted]")
redacted-IsWall pat opening closing full absent s t before behind =
    let first = contains-cut pat s (codes "redacted" ++ b']' ∷ t) b'[' opening full in
    let second = contains-cut pat (codes "redacted") t b']' closing full in
    ground (arith, first, second)
