-- ===== src/Prelude/Search.antt =====
-- `str::find`, `contains`, `split_once`, `lines`, `split_whitespace`, `join` and `format!("{n}")`.
use Prim.Native.Nat.{ℕ, zero, suc, ◌+◌, ◌/◌, ◌%◌}
use mathlib.Core.Path.{◌≡◌}
use mathlib.Core.Logic.{inl, inr}
use mathlib.Core.Bool.{Bool, true, false}
use mathlib.Core.List.{List, [], ◌∷◌, ◌++◌, map}
use mathlib.Core.Option
use mathlib.Core.Option.{Option, none, some}
use native.Mathlib.Omega.{arith}
use auto_review.Prelude.Tests.{ltb, ◌==◌, if◌then◌else◌, Bool-cases, Option-cases, is_some}
use auto_review.Prelude.Lists.{length, drop, is_empty}
use auto_review.Prelude.Text.{Text, starts_with, is_whitespace}

-- The text before the first match of `pat`, and the text from the match on: `s.find(pat)`, with
-- the two slices that the index gives.
unfoldable pub find : Text → Text → Option (Text × Text)
find pat [] = if is_empty pat then some ([], []) else none
find pat (c ∷ s) =
    if starts_with pat (c ∷ s)
    then some ([], c ∷ s)
    else Option.map (λ m. (c ∷ m.0, m.1)) (find pat s)

unfoldable pub contains : Text → Text → Bool
unfolding find
contains pat s = is_some (find pat s)

-- `s.split_once(pat)`
unfoldable pub split_once : Text → Text → Option (Text × Text)
unfolding find
split_once pat s = Option.map (λ m. (m.0, drop (length pat) m.1)) (find pat s)

pub append-find :
    (pat s before from : Text)
    → find pat s ≡ some (before, from)
    → (s ≡ before ++ from) × (starts_with pat from ≡ true)
unfolding find starts_with
append-find [] [] b f h = ground arith
append-find (p ∷ pat) [] b f h = cc
append-find pat (c ∷ s) b f h = elim (Bool-cases (starts_with pat (c ∷ s))) [
  | inl hit ↦ ground arith
  | inr miss ↦ elim (Option-cases (find pat s)) [
    | inl e ↦ ground arith
    | inr ((x, y), e) ↦ let ih = append-find pat s x y e in ground arith
  ]
]

push_char : ℕ → List (Text × Bool) → List (Text × Bool)
push_char c [] = (c ∷ [], false) ∷ []
push_char c ((l, ended) ∷ ls) = (c ∷ l, ended) ∷ ls

-- The lines with whether a newline ended them.
raw_lines : Text → List (Text × Bool)
unfolding push_char
raw_lines [] = []
raw_lines (c ∷ s) = if c == 10 then ([], true) ∷ raw_lines s else push_char c (raw_lines s)

strip_cr : Text → Text
strip_cr [] = []
strip_cr (c ∷ []) = if c == 13 then [] else c ∷ []
strip_cr (c ∷ d ∷ s) = c ∷ strip_cr (d ∷ s)

-- Only a line that ends in a newline loses its carriage return.
unfoldable pub lines : Text → List Text
unfolding raw_lines strip_cr
lines s = map (λ l. if l.1 then strip_cr l.0 else l.0) (raw_lines s)

push_word : ℕ → List Text → List Text
push_word c [] = (c ∷ []) ∷ []
push_word c (w ∷ ws) = (c ∷ w) ∷ ws

-- The words, behind an empty first word if the text begins with whitespace.
words_from : Text → List Text
unfolding push_word is_whitespace
words_from [] = [] ∷ []
words_from (c ∷ s) = if is_whitespace c then [] ∷ words_from s else push_word c (words_from s)

unfoldable pub split_whitespace : Text → List Text
unfolding words_from
split_whitespace s = drop_empty (words_from s)
  where
    drop_empty : List Text → List Text
    drop_empty [] = []
    drop_empty (w ∷ ws) = if is_empty w then drop_empty ws else w ∷ drop_empty ws

-- `parts.join(sep)`
unfoldable pub join : Text → List Text → Text
join sep [] = []
join sep (p ∷ []) = p
join sep (p ∷ q ∷ ps) = p ++ sep ++ join sep (q ∷ ps)

-- `format!("{n}")`: decimal digits, on fuel above the number.
unfoldable pub digits_from : ℕ → ℕ → Text → Text
digits_from zero n acc = acc
digits_from (suc f) n acc =
    let rest = digits_from f (n / 10) ((b'0' + n % 10) ∷ acc) in
    if ltb n 10 then (b'0' + n) ∷ acc else rest

unfoldable pub show_nat : ℕ → Text
show_nat n = digits_from (suc n) n []
