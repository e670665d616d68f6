-- ===== src/Prelude/Boundary.antt =====
-- Byte lengths, character boundaries and the truncation loop that the program repeats:
-- `while cut > 0 && !s.is_char_boundary(cut) { cut -= 1; }` and then `&s[..cut]`.
use Prim.Native.Nat.{ℕ, zero, suc, ◌+◌, ◌-◌, ◌≤◌, ◌<◌}
use mathlib.Core.Path.{◌≡◌, refl, sym, ap}
use mathlib.Core.Logic.{inl, inr}
use mathlib.Core.Bool.{Bool, true, false, ◌&&◌}
use mathlib.Core.List.{[], ◌∷◌, ◌++◌}
use native.Mathlib.Omega.{arith}
use auto_review.Prelude.Tests.{ltb, leb, if◌then◌else◌, Bool-cases}
use auto_review.Prelude.Text.{Text}

-- `char::len_utf8`
unfoldable pub len_utf8 : ℕ → ℕ
len_utf8 c = if ltb c 0x80 then 1 else if ltb c 0x800 then 2 else if ltb c 0x10000 then 3 else 4

pub len_utf8_bounds : (c : ℕ) → (1 ≤ len_utf8 c) × (len_utf8 c ≤ 4)
unfolding len_utf8
len_utf8_bounds c = ground arith

-- `str::len`
unfoldable pub byte_len : Text → ℕ
byte_len [] = 0
byte_len (c ∷ s) = len_utf8 c + byte_len s

pub byte_len-append : (s t : Text) → byte_len (s ++ t) ≡ byte_len s + byte_len t
unfolding byte_len
byte_len-append [] t = omega arith
byte_len-append (c ∷ s) t = omega (arith, byte_len-append s t)

-- `str::is_char_boundary`
unfoldable pub is_char_boundary : Text → ℕ → Bool
is_char_boundary s zero = true
is_char_boundary [] (suc n) = false
is_char_boundary (c ∷ s) (suc n) =
    leb (len_utf8 c) (suc n) && is_char_boundary s (suc n - len_utf8 c)

-- The loop, from `cut` downwards.
unfoldable pub floor_boundary : Text → ℕ → ℕ
floor_boundary s zero = 0
floor_boundary s (suc n) = if is_char_boundary s (suc n) then suc n else floor_boundary s n

-- `&s[..n]` at a boundary `n`, where Rust does not panic.
unfoldable pub slice_to : Text → ℕ → Text
slice_to [] n = []
slice_to (c ∷ s) n = if leb (len_utf8 c) n then c ∷ slice_to s (n - len_utf8 c) else []

-- `&s[n..]` at a boundary `n`.
unfoldable pub slice_from : Text → ℕ → Text
slice_from [] n = []
slice_from (c ∷ s) n = if leb (len_utf8 c) n then slice_from s (n - len_utf8 c) else c ∷ s

pub floor_boundary-le : (s : Text) (n : ℕ) → floor_boundary s n ≤ n
unfolding floor_boundary
floor_boundary-le s zero = omega arith
floor_boundary-le s (suc n) = ground (arith, floor_boundary-le s n)

pub floor_boundary-IsBoundary : (s : Text) (n : ℕ) → is_char_boundary s (floor_boundary s n) ≡ true
unfolding floor_boundary
floor_boundary-IsBoundary s zero = boundary_zero s
  where
    boundary_zero : (t : Text) → is_char_boundary t 0 ≡ true
    boundary_zero t = unfold is_char_boundary in refl
floor_boundary-IsBoundary s (suc n) = elim (Bool-cases (is_char_boundary s (suc n))) [
  | inl here ↦ rw here here
  | inr below ↦ rw below (floor_boundary-IsBoundary s n)
]

-- No larger boundary is passed over.
pub floor_boundary_max :
    (s : Text) (n m : ℕ) → m ≤ n → is_char_boundary s m ≡ true → m ≤ floor_boundary s n
unfolding floor_boundary
floor_boundary_max s zero m h b = omega arith
floor_boundary_max s (suc n) m h b =
    grind (arith, floor_boundary_max s n m, λ (e : m ≡ suc n). ap (is_char_boundary s) e)

boundary_shift :
    (c : ℕ) (s : Text) (m k : ℕ)
    → len_utf8 c + m ≡ suc k
    → is_char_boundary s m ≡ true
    → is_char_boundary (c ∷ s) (suc k) ≡ true
unfolding is_char_boundary
boundary_shift c s m k e b = let e' : suc k - len_utf8 c ≡ m = omega arith in rw e' (ground arith)

boundary_add :
    (c : ℕ) (s : Text) (m : ℕ)
    → is_char_boundary s m ≡ true
    → is_char_boundary (c ∷ s) (len_utf8 c + m) ≡ true
boundary_add c s m b =
    let k = len_utf8 c + m - 1 in
    let e : len_utf8 c + m ≡ suc k = omega (arith, len_utf8_bounds c) in
    rw e (boundary_shift c s m k e b)

-- Below the end of the text a boundary is never more than three bytes away.
near_boundary :
    (s : Text) (n : ℕ)
    → n ≤ byte_len s
    → (m : ℕ) × (is_char_boundary s m ≡ true) × (m ≤ n) × (n < m + 4)
unfolding byte_len is_char_boundary
near_boundary [] n h = (0, refl, omega arith, omega arith)
near_boundary (c ∷ s) n h = elim (Bool-cases (leb (len_utf8 c) n)) [
  | inl fits ↦
      let (m, b, lo, hi) = near_boundary s (n - len_utf8 c) (ground arith) in
      (len_utf8 c + m, boundary_add c s m b, ground arith, ground (arith, len_utf8_bounds c))
  | inr over ↦ (0, refl, omega arith, ground (arith, len_utf8_bounds c))
]

-- The loop loses at most three bytes.
pub floor_boundary_near : (s : Text) (n : ℕ) → n ≤ byte_len s → n < floor_boundary s n + 4
floor_boundary_near s n h =
    let (m, b, lo, hi) = near_boundary s n h in omega (arith, floor_boundary_max s n m lo b)

-- At a boundary the slice has exactly the bytes that were asked for.
pub byte_len-slice_to :
    (s : Text) (n : ℕ) → is_char_boundary s n ≡ true → byte_len (slice_to s n) ≡ n
unfolding byte_len slice_to is_char_boundary
byte_len-slice_to [] zero h = refl
byte_len-slice_to [] (suc n) h = cc
byte_len-slice_to (c ∷ s) zero h = ground (arith, len_utf8_bounds c)
byte_len-slice_to (c ∷ s) (suc n) h =
    ground (arith, len_utf8_bounds c, byte_len-slice_to s (suc n - len_utf8 c))

pub slice_to-append-slice_from : (s : Text) (n : ℕ) → slice_to s n ++ slice_from s n ≡ s
unfolding slice_to slice_from
slice_to-append-slice_from [] n = refl
slice_to-append-slice_from (c ∷ s) n = ground (arith, slice_to-append-slice_from s (n - len_utf8 c))

-- The prefix that the loop and the slice leave.
unfoldable pub truncate_at : Text → ℕ → Text
unfolding slice_to floor_boundary
truncate_at s n = slice_to s (floor_boundary s n)

pub byte_len-truncate_at : (s : Text) (n : ℕ) → byte_len (truncate_at s n) ≤ n
unfolding truncate_at
byte_len-truncate_at s n =
    let e = byte_len-slice_to s (floor_boundary s n) (floor_boundary-IsBoundary s n) in
    omega (arith, e, floor_boundary-le s n)

pub truncate_at_near : (s : Text) (n : ℕ) → n ≤ byte_len s → n < byte_len (truncate_at s n) + 4
unfolding truncate_at
truncate_at_near s n h =
    let e = byte_len-slice_to s (floor_boundary s n) (floor_boundary-IsBoundary s n) in
    omega (arith, e, floor_boundary_near s n h)

pub truncate_at-IsPrefix : (s : Text) (n : ℕ) → (rest : Text) × (s ≡ truncate_at s n ++ rest)
unfolding truncate_at
truncate_at-IsPrefix s n =
    (slice_from s (floor_boundary s n), sym (slice_to-append-slice_from s (floor_boundary s n)))
