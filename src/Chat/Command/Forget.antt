-- ===== src/Chat/Command/Forget.antt =====
-- crates/ar-chat/src/command.rs: the id of `forget` is read back.
use auto_review.Prelude.{
  ℕ, zero, suc, ◌+◌, ◌-◌, ◌*◌, ◌/◌, ◌%◌, ◌^◌, ◌≤◌, ◌<◌, ◌≡◌, ◌≢◌, refl, [], ◌∷◌, ◌++◌, some, arith,
  Bool-cases, ltb, ltb→lt, ◌∙◌, inl, inr, false, All,
}
use auto_review.Prelude.Text.{
  Text, codes, trim, trim_start, trim_end, is_whitespace, trim_start_matches, trim_end_matches,
}
use auto_review.Prelude.Search.{show_nat, digits_from}
use auto_review.Chat.Command.{forget, classify, digits_u64, parse_u64}

-- Reading one more digit undoes one division.
digit_step :
    (n : ℕ) (acc : Text)
    → n < 2 ^ 64
    → digits_u64 (n / 10) ((b'0' + n % 10) ∷ acc) ≡ digits_u64 n acc
unfolding digits_u64
digit_step n acc b =
    let e : n / 10 * 10 + (b'0' + n % 10 - b'0') ≡ n = omega arith in rw e (ground arith)

last_digit : (n : ℕ) (acc : Text) → n < 10 → digits_u64 0 ((b'0' + n) ∷ acc) ≡ digits_u64 n acc
unfolding digits_u64
last_digit n acc h = let e : 0 * 10 + (b'0' + n - b'0') ≡ n = omega arith in rw e (ground arith)

digits_u64-digits_from :
    (f n : ℕ) (acc : Text)
    → n < f
    → n < 2 ^ 64
    → digits_u64 0 (digits_from f n acc) ≡ digits_u64 n acc
unfolding digits_from
digits_u64-digits_from zero n acc h b = absurd (omega arith)
digits_u64-digits_from (suc f) n acc h b = elim (Bool-cases (ltb n 10)) [
  | inl small ↦ rw small (last_digit n acc (ltb→lt n 10 small))
  | inr large ↦
      let ih =
        digits_u64-digits_from f (n / 10) ((b'0' + n % 10) ∷ acc) (ground arith) (omega arith) in
      rw large (ih ∙ digit_step n acc b)
]

abbrev pub IsDigit : ℕ → Type 0
IsDigit c = (b'0' ≤ c) × (c ≤ b'9')

digits_from-All : (f n : ℕ) (acc : Text) → All IsDigit acc → All IsDigit (digits_from f n acc)
unfolding digits_from
digits_from-All zero n acc h = h
digits_from-All (suc f) n acc h = elim (Bool-cases (ltb n 10)) [
  | inl small ↦ rw small (ground arith, h)
  | inr large ↦
      rw large (digits_from-All f (n / 10) ((b'0' + n % 10) ∷ acc) ((omega arith, omega arith), h))
]

digits_from_nonempty : (f n : ℕ) (acc : Text) → n < f → digits_from f n acc ≢ []
unfolding digits_from
digits_from_nonempty zero n acc h = absurd (omega arith)
digits_from_nonempty (suc f) n acc h = elim (Bool-cases (ltb n 10)) [
  | inl small ↦ rw small (λ e. cc)
  | inr large ↦ rw large (digits_from_nonempty f (n / 10) ((b'0' + n % 10) ∷ acc) (ground arith))
]

digit_not_space : (c : ℕ) → IsDigit c → is_whitespace c ≡ false
unfolding is_whitespace
digit_not_space c h = ground arith

trim_end-digits : (s : Text) → All IsDigit s → trim_end_matches is_whitespace s ≡ s
unfolding trim_end_matches
trim_end-digits [] h = refl
trim_end-digits (c ∷ []) h = rw (digit_not_space c h.0)
trim_end-digits (c ∷ d ∷ s) h = rw (trim_end-digits (d ∷ s) h.1)

trim-digits : (s : Text) → All IsDigit s → trim s ≡ s
unfolding trim trim_start trim_start_matches trim_end
trim-digits [] h = refl
trim-digits (c ∷ s) h = rw (digit_not_space c h.0) (trim_end-digits (c ∷ s) h)

parse_u64-digits : (s : Text) → All IsDigit s → s ≢ [] → parse_u64 s ≡ digits_u64 0 s
unfolding parse_u64
parse_u64-digits [] h ne = absurd (ne refl)
parse_u64-digits (c ∷ []) h ne = ground arith
parse_u64-digits (c ∷ d ∷ s) h ne = ground arith

pub show_nat-All : (n : ℕ) → All IsDigit (show_nat n)
unfolding show_nat
show_nat-All n = digits_from-All (suc n) n [] tt

pub parse_u64-show_nat : (n : ℕ) → n < 2 ^ 64 → parse_u64 (show_nat n) ≡ some n
unfolding show_nat
parse_u64-show_nat n h =
    parse_u64-digits (digits_from (suc n) n []) (show_nat-All n)
      (digits_from_nonempty (suc n) n [] (omega arith))
    ∙ digits_u64-digits_from (suc n) n [] (omega arith) h
    ∙ unfold digits_u64 in refl

-- `forget` followed by the decimal digits of any 64-bit id is read as that id.
pub classify-forget : (n : ℕ) → n < 2 ^ 64 → classify (codes "forget " ++ show_nat n) ≡ forget n
unfolding classify
classify-forget n h =
    ground (arith, trim-digits (show_nat n) (show_nat-All n), parse_u64-show_nat n h)
