-- ===== src/Prelude/Cut.antt =====
-- Texts that a separator cuts in one way.
use Prim.Native.Nat.{ℕ}
use mathlib.Core.Path.{◌≡◌, refl, sym, ap}
use mathlib.Core.Bool.{Bool, true, false}
use mathlib.Core.List.{[], ◌∷◌, ◌++◌}
use native.Mathlib.Omega.{arith}
use auto_review.Prelude.Lists.{all}
use auto_review.Prelude.Text.{Text}

module _ (ok : ℕ → Bool) (sep : ℕ) (apart : ok sep ≡ false) where
  clash : (c : ℕ) → ok c ≡ true → sep ≡ c → ⊥
  clash c h e = absurd (ground (arith, ap ok e))

  -- If no character of either part is the separator, the text determines the part and the rest.
  pub cut_unique :
      (a b x y : Text)
      → all ok a ≡ true
      → all ok b ≡ true
      → a ++ sep ∷ x ≡ b ++ sep ∷ y
      → (a ≡ b) × (x ≡ y)
  cut_unique [] [] x y h k e = (refl, cc)
  cut_unique [] (c ∷ b) x y h k e = absurd (clash c (ground arith) (head_eq e))
    where
      head_eq : sep ∷ x ≡ c ∷ (b ++ sep ∷ y) → sep ≡ c
      head_eq q = cc
  cut_unique (c ∷ a) [] x y h k e = absurd (clash c (ground arith) (sym (head_eq e)))
    where
      head_eq : c ∷ (a ++ sep ∷ x) ≡ sep ∷ y → c ≡ sep
      head_eq q = cc
  cut_unique (c ∷ a) (c' ∷ b) x y h k e =
      let (p, q) = cut_unique a b x y (ground arith) (ground arith) (tail_eq e) in
      (cons_eq (head_eq e) p, q)
    where
      head_eq : c ∷ (a ++ sep ∷ x) ≡ c' ∷ (b ++ sep ∷ y) → c ≡ c'
      head_eq q = cc

      tail_eq : c ∷ (a ++ sep ∷ x) ≡ c' ∷ (b ++ sep ∷ y) → a ++ sep ∷ x ≡ b ++ sep ∷ y
      tail_eq q = cc

      cons_eq : c ≡ c' → a ≡ b → c ∷ a ≡ c' ∷ b
      cons_eq p q = cc
