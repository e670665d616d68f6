-- ===== src/Review/Agentic/FailOpen.antt =====
-- crates/ar-review/src/agentic_verify.rs: a finding is dropped only by a verdict that says so.
use auto_review.Prelude.{
  ℕ, zero, suc, ◌≡◌, refl, ap, ◌∙◌, ◌⊎◌, inl, inr, Bool, true, false, not, ◌||◌, Option, none, some,
  List, [], ◌∷◌, ◌++◌, Result, ok, err, is_empty, all, arith, Bool-cases, Result-cases,
  Option-cases,
}
use auto_review.Prelude.Text.{Text, codes, text_eq}
use auto_review.Llm.{
  cheap, LlmError, CompleteResponse, Message, user_message, assistant_message, LlmState, Router,
  complete, has_provider,
}
use auto_review.Review.Types.{ReviewFinding, ReviewOutput}
use auto_review.Review.Agentic.{
  AgentAction, Verdict, keep, drop, Tools, verdict_of, act, agent_request, verify_turns, verify_one,
  verify_each, verify_findings_agentic, initial_user_prompt, default_max_turns,
}

-- The action that drops a finding.
abbrev pub IsDrop : AgentAction → Type 0
IsDrop a = (text_eq a.tool (codes "verdict") ≡ true) × (a.keep ≡ some false)

Verdict-cases : (v : Verdict) → (v ≡ keep) ⊎ (v ≡ drop)
Verdict-cases keep = inl refl
Verdict-cases drop = inr refl

verdict_of-drop : (o : Option Bool) → verdict_of o ≡ drop → o ≡ some false
unfolding verdict_of
verdict_of-drop none h = cc
verdict_of-drop (some true) h = cc
verdict_of-drop (some false) h = refl

act-drop : (tools : Tools) (a : AgentAction) → act tools a ≡ err drop → IsDrop a
unfolding act
act-drop tools a h = elim (Bool-cases (text_eq a.tool (codes "verdict"))) [
  | inl final ↦ let e : verdict_of a.keep ≡ drop = ground arith in (final, verdict_of-drop a.keep e)
  | inr other ↦ ground arith
]

module _ {W : Type 0} (router : Router W) (parse_action : Text → Option AgentAction) (system : Text)
    (tools : Tools) where
  abbrev ask : List Message → LlmState W → LlmState W × Result LlmError CompleteResponse
  ask messages s = complete router cheap (agent_request router parse_action system tools messages) s

  -- The answers that the model gives in the turns about one finding.
  pub data IsGiven : ℕ → List Message → LlmState W → Text → Type 0 where
    now :
        (n : ℕ) (messages : List Message) (s : LlmState W) (resp : CompleteResponse)
        → (ask messages s).1 ≡ ok resp
        → IsGiven (suc n) messages s resp.content
    later :
        (n : ℕ) (messages : List Message) (s : LlmState W) (resp : CompleteResponse)
        (action : AgentAction) (reply content : Text)
        → (ask messages s).1 ≡ ok resp
        → parse_action resp.content ≡ some action
        → act tools action ≡ ok reply
        → IsGiven n
            (messages ++ assistant_message resp.content ∷ user_message reply ∷ [])
            (ask messages s).0
            content
        → IsGiven (suc n) messages s content

  -- The answers in the turns about all the findings, one after the other.
  abbrev pub IsGivenFor : Text → List ReviewFinding → LlmState W → Text → Type 0
  IsGivenFor diff [] s content = ⊥
  IsGivenFor diff (f ∷ fs) s content =
      IsGiven default_max_turns (user_message (initial_user_prompt f diff) ∷ []) s content
      ⊎ IsGivenFor diff fs
          (verify_one router parse_action system tools f diff default_max_turns s).0 content

  -- A drop is the verdict of an answer that was given.
  verify_turns-drop :
      (n : ℕ) (messages : List Message) (s : LlmState W)
      → (verify_turns router parse_action system tools n messages s).1 ≡ drop
      → (content : Text) × (a : AgentAction) × IsGiven n messages s content
        × (parse_action content ≡ some a)
        × IsDrop a
  unfolding verify_turns
  verify_turns-drop zero messages s h = cc
  verify_turns-drop (suc n) messages s h = elim (Result-cases (ask messages s).1) [
    | inr (e, failed) ↦ let h' = rw (failed, verify_turns) at h in cc
    | inl (resp, answered) ↦ elim (Option-cases (parse_action resp.content)) [
      | inl garbled ↦ let h' = rw (answered, garbled, verify_turns) at h in cc
      | inr (action, parsed) ↦ elim (Result-cases (act tools action)) [
        | inr (verdict, final) ↦
            let h' : verdict ≡ drop = rw (answered, parsed, final, verify_turns) at h in
            (
              resp.content,
              action,
              now n messages s resp answered,
              parsed,
              act-drop tools action (final ∙ ap err h'),
            )
        | inl (reply, acted) ↦
            let (content, a, given, read, drops) =
              verify_turns-drop n
                (messages ++ assistant_message resp.content ∷ user_message reply ∷ [])
                (ask messages s).0 (rw (answered, parsed, acted, verify_turns) at h) in
            (
              content,
              a,
              later n messages s resp action reply content answered parsed acted given,
              read,
              drops,
            )
      ]
    ]
  ]

  verify_each-same :
      (diff : Text) (fs : List ReviewFinding) (s : LlmState W)
      → ((content : Text) (a : AgentAction)
          → IsGivenFor diff fs s content
          → parse_action content ≡ some a
          → IsDrop a
          → ⊥)
      → (verify_each router parse_action system tools diff fs s).1 ≡ fs
  unfolding verify_each verify_one
  verify_each-same diff [] s never = refl
  verify_each-same diff (f ∷ fs) s never =
      let start = user_message (initial_user_prompt f diff) ∷ [] in
      let s' = (verify_turns router parse_action system tools default_max_turns start s).0 in
      elim (Verdict-cases
        (verify_turns router parse_action system tools default_max_turns start s).1) [
          | inl kept ↦
              rw (kept, verify_each)
                (ap (λ (gs : List ReviewFinding). f ∷ gs)
                  (verify_each-same diff fs s' (λ content a given. never content a (inr given))))
          | inr dropped ↦
              let (content, a, given, parsed, final) =
                verify_turns-drop default_max_turns start s dropped in
              elim (never content a (inl given) parsed final) [ ]
        ]

  -- If none of the answers that the model gives in the turns about the findings is read as a verdict
  -- against a finding, then all findings stay, in whatever way calls fail, answers are garbled,
  -- tools refuse or the turns run out.
  pub verify_findings_agentic_same :
      (output : ReviewOutput) (diff : Text) (s : LlmState W)
      → ((content : Text) (a : AgentAction)
          → IsGivenFor diff output.findings s content
          → parse_action content ≡ some a
          → IsDrop a
          → ⊥)
      → (verify_findings_agentic router parse_action system tools output diff s).1.findings
        ≡ output.findings
  unfolding verify_findings_agentic
  verify_findings_agentic_same output diff s never =
      elim (Bool-cases (not (has_provider router cheap) || is_empty output.findings)) [
        | inl idle ↦ rw (idle, verify_findings_agentic) refl
        | inr busy ↦
            rw (busy, verify_findings_agentic) (verify_each-same diff output.findings s never)
      ]

  all-verify_each :
      (q : ReviewFinding → Bool) (diff : Text) (fs : List ReviewFinding) (s : LlmState W)
      → all q fs ≡ true
      → all q (verify_each router parse_action system tools diff fs s).1 ≡ true
  unfolding verify_each
  all-verify_each q diff [] s h = refl
  all-verify_each q diff (f ∷ fs) s h =
      let s' = (verify_one router parse_action system tools f diff default_max_turns s).0 in
      let rest = all-verify_each q diff fs s' in
      elim (Verdict-cases
        (verify_one router parse_action system tools f diff default_max_turns s).1) [
          | inl kept ↦ rw (kept, verify_each) (ground (arith, rest))
          | inr dropped ↦ rw (dropped, verify_each) (ground (arith, rest))
        ]

  -- The second opinion adds no finding and changes none.
  all-verify_findings_agentic :
      (q : ReviewFinding → Bool) (output : ReviewOutput) (diff : Text) (s : LlmState W)
      → all q output.findings ≡ true
      → all q (verify_findings_agentic router parse_action system tools output diff s).1.findings
        ≡ true
  unfolding verify_findings_agentic
  all-verify_findings_agentic q output diff s h =
      elim (Bool-cases (not (has_provider router cheap) || is_empty output.findings)) [
        | inl idle ↦ rw (idle, verify_findings_agentic) h
        | inr busy ↦ rw (busy, verify_findings_agentic) (all-verify_each q diff output.findings s h)
      ]
