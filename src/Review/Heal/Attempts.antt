-- ===== src/Review/Heal/Attempts.antt =====
-- crates/ar-review/src/heal.rs: how often the model is asked, and what comes of it.
use auto_review.Prelude.{
  ℕ, zero, suc, ◌+◌, ◌≤◌, max, ◌≡◌, refl, ap, inl, inr, Option, none, some, List, [], ◌∷◌, ◌++◌,
  Result, ok, err, Option-cases, Result-cases, arith,
}
use auto_review.Prelude.Text.{Text}
use auto_review.Llm.{
  reasoning, Message, user_message, assistant_message, CompleteRequest, CompleteResponse, LlmError,
  LlmState, Provider, Router, provider, answered, record_usage, complete,
}
use auto_review.Review.Types.{ReviewOutput}
use auto_review.Review.Heal.{
  ReviewError, llm, unhealable, ValidationError, Validate, heal_request, correction, give_up,
  heal_loop, generate_with_self_heal,
}

module _ {W : Type 0} (router : Router W) (validate : Validate) (system : Text)
    (calls : W → ℕ) where
  -- How a review of at most `max_attempts` attempts ends, if `limit` is the number of calls when
  -- all are made and `after` the number made.
  abbrev pub IsHealed : ℕ → ℕ → ℕ → Result ReviewError ReviewOutput → Type 0
  IsHealed max_attempts limit after (ok out) =
      (content : Text) × (validate content ≡ ok out) × (after ≤ limit)
  IsHealed max_attempts limit after (err (llm e)) = after ≤ limit
  IsHealed max_attempts limit after (err (unhealable k e)) =
      (content : Text) × (validate content ≡ err e) × (k ≡ max_attempts) × (after ≡ limit)
  IsHealed max_attempts limit after (err _) = ⊥

  -- The last error, if there was an attempt.
  abbrev Remembered : ℕ → Option ValidationError → Type 0
  Remembered n none = 1 ≤ n
  Remembered n (some e) = (content : Text) × (validate content ≡ err e)

  module _
      (counts : (p : Provider W) (req : CompleteRequest) (w : W)
        → router reasoning ≡ some p
        → calls (p.complete req w).0 ≡ suc (calls w)) where
    answered_world :
        (p : Provider W) (s : LlmState W) (a : W × Result LlmError CompleteResponse)
        → (answered p reasoning s a).0.world ≡ a.0
    unfolding answered record_usage
    answered_world p s (w, ok resp) = refl
    answered_world p s (w, err e) = refl

    calls-complete :
        (req : CompleteRequest) (s : LlmState W)
        → (calls (complete router reasoning req s).0.world ≤ suc (calls s.world))
          × ((resp : CompleteResponse)
              → (complete router reasoning req s).1 ≡ ok resp
              → calls (complete router reasoning req s).0.world ≡ suc (calls s.world))
    unfolding complete provider
    calls-complete req s = elim (Option-cases (router reasoning)) [
      | inl none_there ↦ rw (none_there, complete) (omega arith, λ resp e. cc e)
      | inr (p, there) ↦
          let one = counts p req s.world there in
          let moved = ap calls (answered_world p s (p.complete req s.world)) in
          rw (there, complete) (omega (arith, one, moved), λ resp e. omega (arith, one, moved))
    ]

    heal_loop-IsHealed :
        (m n : ℕ) (messages : List Message) (last : Option ValidationError) (s : LlmState W)
        → Remembered n last
        → IsHealed m
            (calls s.world + n)
            (calls (heal_loop router validate system m n messages last s).0.world)
            (heal_loop router validate system m n messages last s).1
    unfolding heal_loop give_up
    heal_loop-IsHealed m zero messages none s h = ground arith
    heal_loop-IsHealed m zero messages (some e) s (content, bad) = (content, bad, refl, omega arith)
    heal_loop-IsHealed m (suc n) messages last s h =
        let req = heal_request system messages in
        let (most, exact) = calls-complete req s in
        let s' = (complete router reasoning req s).0 in
        elim (Result-cases (complete router reasoning req s).1) [
          | inr (e, failed) ↦ rw (failed, heal_loop) (omega (arith, most))
          | inl (resp, answered) ↦ elim (Result-cases (validate resp.content)) [
            | inl (out, good) ↦
                rw (answered, good, heal_loop) (resp.content, good, omega (arith, most))
            | inr (e, bad) ↦
                let longer =
                  messages ++ assistant_message resp.content ∷ user_message (correction e) ∷ [] in
                let rest = heal_loop-IsHealed m n longer (some e) s' (resp.content, bad) in
                let same : calls s'.world + n ≡ calls s.world + suc n =
                  omega (arith, exact resp answered) in
                rw (answered, bad, heal_loop) (rw same at rest)
          ]
        ]

    -- The review never panics. With `limit = max 1 max_attempts`: an accepted review is what the
    -- validation made of some answer; the review is given up only when all `limit` attempts were
    -- made, for the error of an answer that was not valid; and the model is never called more than
    -- `limit` times.
    pub generate_with_self_heal-IsHealed :
        (user_prompt : Text) (max_attempts : ℕ) (s : LlmState W)
        → IsHealed
            (max max_attempts 1)
            (calls s.world + max max_attempts 1)
            (calls
              (generate_with_self_heal router validate system user_prompt max_attempts s).0.world)
            (generate_with_self_heal router validate system user_prompt max_attempts s).1
    unfolding generate_with_self_heal
    generate_with_self_heal-IsHealed user_prompt k s =
        heal_loop-IsHealed (max k 1) (max k 1) (user_message user_prompt ∷ []) none s (omega arith)
