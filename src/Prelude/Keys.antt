-- ===== src/Prelude/Keys.antt =====
-- Equality of keys as an interface, membership tests, and maps as association lists: what
-- `HashSet::contains`, `HashMap::get`, `insert` and `remove` do. Iteration order is not modelled.
use mathlib.Core.Path.{◌≡◌, refl, ap}
use mathlib.Core.Logic.{◌↔◌, inl, inr}
use mathlib.Core.Bool.{Bool, true, ◌&&◌, ◌||◌, not}
use mathlib.Core.List.{List, [], ◌∷◌, ◌++◌}
use mathlib.Core.Option.{Option, none, some}
use native.Mathlib.Omega.{arith}
use auto_review.Prelude.Tests.{if◌then◌else◌, Bool-cases}
use auto_review.Prelude.Lists.{any, retain}
use auto_review.Prelude.Text.{Text, text_eq, text_eq_iff}

pub record Eq {ℓ} (A : Type ℓ) : Type ℓ where
  pub beq : A → A → Bool
  pub beq_iff : (a b : A) → (beq a b ≡ true) ↔ (a ≡ b)

instance abbrev pub text_key : Eq Text
text_key = record { beq = text_eq; beq_iff = text_eq_iff }

module _ {ℓ} {K : Type ℓ} ⦃e : Eq K⦄ where
  abbrev pub member : K → List K → Bool
  member k = any (e.beq k)

  pub beq_self : (k : K) → e.beq k k ≡ true
  beq_self k = (e.beq_iff k k).1 refl

  pub beq_sym : (j k : K) → e.beq j k ≡ e.beq k j
  beq_sym j k = ground (arith, e.beq_iff j k, e.beq_iff k j)

  pub member-append : (k : K) (xs ys : List K) → member k (xs ++ ys) ≡ (member k xs || member k ys)
  member-append k [] ys = refl
  member-append k (x ∷ xs) ys = ground (arith, member-append k xs ys)

  -- `HashSet::remove`
  abbrev pub discard : K → List K → List K
  discard k = retain (λ x. not (e.beq k x))

  pub member-discard :
      (j k : K) (xs : List K) → member j (discard k xs) ≡ (not (e.beq k j) && member j xs)
  member-discard j k [] = ground arith
  member-discard j k (x ∷ xs) =
      ground (arith, e.beq_iff k x, e.beq_iff j x, e.beq_iff k j, member-discard j k xs)

module _ {ℓ κ} {K : Type ℓ} {V : Type κ} ⦃e : Eq K⦄ where
  unfoldable pub lookup : K → List (K × V) → Option V
  lookup k [] = none
  lookup k ((j, v) ∷ m) = if e.beq k j then some v else lookup k m

  unfoldable pub remove : K → List (K × V) → List (K × V)
  remove k [] = []
  remove k ((j, v) ∷ m) = if e.beq k j then remove k m else (j, v) ∷ remove k m

  unfoldable pub insert : K → V → List (K × V) → List (K × V)
  insert k v m = (k, v) ∷ remove k m

  -- `HashMap::retain`, by a test of the key.
  unfoldable pub retain_keys : (K → Bool) → List (K × V) → List (K × V)
  retain_keys p [] = []
  retain_keys p ((j, v) ∷ m) = if p j then (j, v) ∷ retain_keys p m else retain_keys p m

  pub lookup-remove :
      (k j : K) (m : List (K × V))
      → lookup j (remove k m) ≡ (if e.beq k j then none else lookup j m)
  unfolding lookup remove
  lookup-remove k j [] = ground arith
  lookup-remove k j ((i, v) ∷ m) =
      ground (arith, e.beq_iff k i, e.beq_iff j i, e.beq_iff k j, lookup-remove k j m)

  pub lookup-insert :
      (k j : K) (v : V) (m : List (K × V))
      → lookup j (insert k v m) ≡ (if e.beq k j then some v else lookup j m)
  unfolding lookup insert
  lookup-insert k j v m = ground (arith, e.beq_iff k j, e.beq_iff j k, lookup-remove k j m)

  pub lookup-retain_keys :
      (p : K → Bool) (j : K) (m : List (K × V))
      → lookup j (retain_keys p m) ≡ (if p j then lookup j m else none)
  unfolding lookup retain_keys
  lookup-retain_keys p j [] = ground arith
  lookup-retain_keys p j ((i, v) ∷ m) = elim (Bool-cases (e.beq j i)) [
    | inl same ↦
        let q : p j ≡ p i = ap p ((e.beq_iff j i).0 same) in
        ground (arith, lookup-retain_keys p j m)
    | inr other ↦ ground (arith, lookup-retain_keys p j m)
  ]
