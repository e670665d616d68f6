-- ===== src/Review/Verify/Kept.antt =====
-- crates/ar-review/src/verify.rs: what the second opinion can do to the findings.
use auto_review.Prelude.{
  ℕ, zero, suc, ◌+◌, ◌≤◌, ◌≡◌, refl, ap, ◌⊎◌, inl, inr, Bool, true, false, not, ◌&&◌, ◌||◌, Option,
  none, some, List, [], ◌∷◌, Result, ok, ◌==◌, is_empty, any, all, length, arith, Bool-cases,
  Result-cases,
}
use auto_review.Prelude.Text.{Text}
use auto_review.Llm.{cheap, CompleteResponse, LlmState, Router, complete, has_provider}
use auto_review.Review.Types.{ReviewFinding, ReviewOutput}
use auto_review.Review.Heal.{ValidationError}
use auto_review.Review.Verify.{
  VerificationVerdict, render_user_prompt, dropped_indices, keep_findings, verify_request,
  verify_findings,
}

-- The finding at a position.
unfoldable pub nth : ℕ → List ReviewFinding → Option ReviewFinding
nth n [] = none
nth zero (f ∷ fs) = some f
nth (suc n) (f ∷ fs) = nth n fs

pub all-keep_findings :
    (q : ReviewFinding → Bool) (dropped : List ℕ) (i : ℕ) (fs : List ReviewFinding)
    → all q fs ≡ true
    → all q (keep_findings dropped i fs) ≡ true
unfolding keep_findings
all-keep_findings q dropped i [] h = refl
all-keep_findings q dropped i (f ∷ fs) h = ground (arith, all-keep_findings q dropped (suc i) fs)

pub length-keep_findings :
    (dropped : List ℕ) (i : ℕ) (fs : List ReviewFinding)
    → length (keep_findings dropped i fs) ≤ length fs
unfolding keep_findings
length-keep_findings dropped i [] = omega arith
length-keep_findings dropped i (f ∷ fs) = ground (arith, length-keep_findings dropped (suc i) fs)

-- A verdict against the finding at position `k`.
abbrev pub is_against : ℕ → VerificationVerdict → Bool
is_against k v = (k == v.finding_index) && not v.keep

any-dropped_indices :
    (k : ℕ) (vs : List VerificationVerdict)
    → any (λ j. k == j) (dropped_indices vs) ≡ any (is_against k) vs
unfolding dropped_indices
any-dropped_indices k [] = refl
any-dropped_indices k (v ∷ vs) = elim (Bool-cases v.keep) [
  | inl keeps ↦ rw keeps (ground (arith, any-dropped_indices k vs))
  | inr drops ↦ rw drops (ground (arith, any-dropped_indices k vs))
]

any-keep_findings :
    (q : ReviewFinding → Bool) (dropped : List ℕ) (i k n : ℕ) (f : ReviewFinding)
    (fs : List ReviewFinding)
    → n ≡ i + k
    → nth k fs ≡ some f
    → q f ≡ true
    → any (λ j. n == j) dropped ≡ false
    → any q (keep_findings dropped i fs) ≡ true
unfolding keep_findings nth
any-keep_findings q dropped i k n f [] at_n e h d = cc
any-keep_findings q dropped i zero n f (g ∷ gs) at_n e h d =
    let here : n ≡ i = omega (arith, at_n) in
    let d' : any (λ j. i == j) dropped ≡ false = rw here at d in
    let same : g ≡ f = ground arith in let good : q g ≡ q f = ap q same in ground arith
any-keep_findings q dropped i (suc k) n f (g ∷ gs) at_n e h d =
    let later = any-keep_findings q dropped (suc i) k n f gs (omega (arith, at_n)) e h d in
    ground (arith, later)

any-nth :
    (q : ReviewFinding → Bool) (k : ℕ) (f : ReviewFinding) (fs : List ReviewFinding)
    → nth k fs ≡ some f
    → q f ≡ true
    → any q fs ≡ true
unfolding nth
any-nth q k f [] e h = cc
any-nth q zero f (g ∷ gs) e h =
    let same : g ≡ f = ground arith in let good : q g ≡ q f = ap q same in ground arith
any-nth q (suc k) f (g ∷ gs) e h = ground (arith, any-nth q k f gs e h)

module _ {W : Type 0} (router : Router W)
    (validate : Text → Result ValidationError (List VerificationVerdict)) (system : Text) where
  -- The answer of the model to the question about all findings.
  abbrev pub IsAnswer : ReviewOutput → Text → LlmState W → Text → Type 0
  IsAnswer output diff s content =
      (resp : CompleteResponse) × ((complete router cheap
          (verify_request router validate system (render_user_prompt output diff)) s).1
        ≡ ok resp)
      × (resp.content ≡ content)

  -- Either the output is left as it is, or the verdicts that the validation accepted in the answer
  -- are applied to it, and nothing of it changes but the findings.
  pub verify_findings-cases :
      (output : ReviewOutput) (diff : Text) (s : LlmState W)
      → ((verify_findings router validate system output diff s).1 ≡ output)
        ⊎ ((content : Text) × (verdicts : List VerificationVerdict) × IsAnswer output diff s content
            × (validate content ≡ ok verdicts)
            × ((verify_findings router validate system output diff s).1 ≡ record output {
              findings = keep_findings (dropped_indices verdicts) 0 output.findings;
            }))
  unfolding verify_findings
  verify_findings-cases output diff s =
      elim (Bool-cases (not (has_provider router cheap) || is_empty output.findings)) [
        | inl idle ↦ inl (rw (idle, verify_findings) refl)
        | inr busy ↦
            elim (Result-cases
              (complete router cheap
                (verify_request router validate system (render_user_prompt output diff)) s).1) [
                  | inr (e, failed) ↦ inl (rw (busy, failed, verify_findings) refl)
                  | inl (resp, answered) ↦ elim (Result-cases (validate resp.content)) [
                    | inr (e, bad) ↦ inl (rw (busy, answered, bad, verify_findings) refl)
                    | inl (verdicts, good) ↦ inr (
                      resp.content,
                      verdicts,
                      (resp, answered, refl),
                      good,
                      rw (busy, answered, good, verify_findings) refl,
                    )
                  ]
                ]
      ]

  -- A finding is kept unless the model's answer is accepted and has a verdict against it, whatever
  -- else the answer is and whether there is one at all: `k` is its position and `q` any test that
  -- it passes.
  pub verify_findings_keeps :
      (output : ReviewOutput) (diff : Text) (s : LlmState W) (k : ℕ) (f : ReviewFinding)
      (q : ReviewFinding → Bool)
      → nth k output.findings ≡ some f
      → q f ≡ true
      → ((content : Text) (verdicts : List VerificationVerdict)
          → IsAnswer output diff s content
          → validate content ≡ ok verdicts
          → any (is_against k) verdicts ≡ false)
      → any q (verify_findings router validate system output diff s).1.findings ≡ true
  verify_findings_keeps output diff s k f q e h safe = elim (verify_findings-cases output diff s) [
    | inl same ↦ rw same (any-nth q k f output.findings e h)
    | inr (content, verdicts, answer, good, applied) ↦ rw applied (
        any-keep_findings q (dropped_indices verdicts) 0 k k f output.findings (omega arith) e h
          (rw (any-dropped_indices k verdicts) (safe content verdicts answer good)))
  ]

  -- The second opinion adds no finding and changes none: what holds of all findings holds of all
  -- that are left.
  all-verify_findings :
      (q : ReviewFinding → Bool) (output : ReviewOutput) (diff : Text) (s : LlmState W)
      → all q output.findings ≡ true
      → all q (verify_findings router validate system output diff s).1.findings ≡ true
  all-verify_findings q output diff s h = elim (verify_findings-cases output diff s) [
    | inl same ↦ rw same h
    | inr (content, verdicts, answer, good, applied) ↦
        rw applied (all-keep_findings q (dropped_indices verdicts) 0 output.findings h)
  ]
