-- ===== src/Chat/Handler/Commands.antt =====
-- crates/ar-chat/src/handler.rs: which command can do what.
use auto_review.Prelude.{
  ℕ, ◌≡◌, refl, ap, ◌∙◌, inl, inr, true, false, [], ◌∷◌, ◌++◌, Option, none, some, Result, ok, err,
  leb, Bool-cases,
}
use auto_review.Prelude.Text.{Text, codes, text_eq}
use auto_review.Prelude.Boundary.{byte_len}
use auto_review.Forge.{HostError, PullRequestSummary, CreateReviewRequest}
use auto_review.Llm.{LlmState, LlmError, Router, cheap, CompleteResponse, has_provider}
use auto_review.Index.Learnings.{LearningsError, not_found, storage}
use auto_review.Review.Host.{ReviewHost}
use auto_review.Chat.Command.{
  ChatCommand, remember, forget, review_correction, test_scaffolds, help, freeform, not_mentioned,
}
use auto_review.Chat.State.{
  ChatError, ChatContext, SuggestionKind, replied, reviewed, learned, forgot, dispatched, ChatState,
  ChatParts, post,
}
use auto_review.Chat.Override.{handle_override_approval}
use auto_review.Chat.Override.Authorized.{
  has_approval, is_approved, MayApprove, handle_override_approval-MayApprove, append-quiet, clash,
  post-quiet,
}
use auto_review.Chat.Suggest.{handle_suggest, handle_test_scaffolds, Step}
use auto_review.Chat.Suggest.Posted.{
  AtMost, IsSuggestion, handle_suggest-AtMost, handle_test_scaffolds-AtMost,
}
use auto_review.Chat.Handler.{
  DirectedIntent, question, on_re_review, handle_re_review, classify_intent, on_freeform,
  handle_freeform, on_intent, handle_directed, on_remembered, handle_remember, on_forgotten,
  handle_forget, handle, forced_job,
}

-- The text that a command addresses to the bot in plain words.
abbrev pub directed_text : ChatCommand → Option Text
directed_text (review_correction text) = some text
directed_text (freeform text) = some text
directed_text _ = none

module _ {H W : Type 0} (review_host : ReviewHost H) (router : Router W)
    (chat_parts : ChatParts H W) where
  module _ (P : CreateReviewRequest → Type 0)
      (disapproves : (q : CreateReviewRequest) → P q → is_approved q.event ≡ false) where
    AtMost-quiet :
        (s : ChatState H W) (r : Step review_host router chat_parts)
        → AtMost review_host router chat_parts P s r
        → has_approval r.0.asked ≡ has_approval s.asked
    AtMost-quiet s r (inl e) = ap has_approval e
    AtMost-quiet s r (inr (inl (t, e))) = ap has_approval e ∙ append-quiet s.asked (replied t) refl
    AtMost-quiet s r (inr (inr (q, e, p))) =
        ap has_approval e ∙ append-quiet s.asked (reviewed q) (disapproves q p)

  abbrev quiet :
      (ctx : ChatContext) (t : Text) (s : ChatState H W)
      → has_approval (post review_host router chat_parts ctx t s).0.asked ≡ has_approval s.asked
  quiet = post-quiet review_host router chat_parts

  handle_suggest-quiet :
      (ctx : ChatContext) (kind : SuggestionKind) (s : ChatState H W)
      → has_approval (handle_suggest review_host router chat_parts ctx kind s).0.asked
        ≡ has_approval s.asked
  handle_suggest-quiet ctx kind s =
      AtMost-quiet (IsSuggestion review_host router chat_parts ctx s) (λ q p. rw p.6 refl) s
        (handle_suggest review_host router chat_parts ctx kind s)
        (handle_suggest-AtMost review_host router chat_parts ctx kind s)

  handle_test_scaffolds-quiet :
      (ctx : ChatContext) (s : ChatState H W)
      → has_approval (handle_test_scaffolds review_host router chat_parts ctx s).0.asked
        ≡ has_approval s.asked
  handle_test_scaffolds-quiet ctx s =
      AtMost-quiet (λ q. ⊥) (λ q p. absurd p) s
        (handle_test_scaffolds review_host router chat_parts ctx s)
        (handle_test_scaffolds-AtMost review_host router chat_parts ctx s)

  on_re_review-quiet :
      (ctx : ChatContext) (s : ChatState H W) (r : H × Result HostError PullRequestSummary)
      → has_approval (on_re_review review_host router chat_parts ctx s r).0.asked
        ≡ has_approval s.asked
  unfolding on_re_review
  on_re_review-quiet ctx s (h, err e) = refl
  on_re_review-quiet ctx s (h, ok pr) =
      let s' : ChatState H W = record s { host_state = h } in
      elim (Bool-cases pr.draft) [
        | inl draft ↦ simp (draft, on_re_review) (quiet ctx _ s')
        | inr ready ↦ elim (Bool-cases (text_eq pr.state (codes "open"))) [
          | inr closed ↦ simp (ready, closed, on_re_review) (quiet ctx _ s')
          | inl is_open ↦
              simp (ready, is_open, on_re_review)
                (quiet ctx _ (record s' { asked = s'.asked ++ dispatched (forced_job ctx pr) ∷ [] })
                  ∙ append-quiet s.asked (dispatched (forced_job ctx pr)) refl)
        ]
      ]

  handle_re_review-quiet :
      (ctx : ChatContext) (s : ChatState H W)
      → has_approval (handle_re_review review_host router chat_parts ctx s).0.asked
        ≡ has_approval s.asked
  unfolding handle_re_review
  handle_re_review-quiet ctx s = elim (Bool-cases chat_parts.has_dispatcher) [
    | inr missing ↦ simp (missing, handle_re_review) (quiet ctx _ s)
    | inl there ↦
        simp (there, handle_re_review)
          (on_re_review-quiet ctx s (chat_parts.get_pull_request ctx.pr s.host_state))
  ]

  on_freeform-quiet :
      (ctx : ChatContext) (s : ChatState H W) (r : LlmState W × Result LlmError CompleteResponse)
      → has_approval (on_freeform review_host router chat_parts ctx s r).0.asked
        ≡ has_approval s.asked
  unfolding on_freeform
  on_freeform-quiet ctx s (l, err e) = refl
  on_freeform-quiet ctx s (l, ok resp) = quiet ctx _ (record s { llm_state = l })

  handle_freeform-quiet :
      (ctx : ChatContext) (text : Text) (s : ChatState H W)
      → has_approval (handle_freeform review_host router chat_parts ctx text s).0.asked
        ≡ has_approval s.asked
  unfolding handle_freeform
  handle_freeform-quiet ctx text s = elim (Bool-cases (has_provider router cheap)) [
    | inr missing ↦ rw (missing, handle_freeform) (quiet ctx _ s)
    | inl there ↦
        rw (there, handle_freeform) (on_freeform-quiet ctx (record s { host_state = _ }) _)
  ]

  handle_remember-quiet :
      (ctx : ChatContext) (text : Text) (s : ChatState H W)
      → has_approval (handle_remember review_host router chat_parts ctx text s).0.asked
        ≡ has_approval s.asked
  unfolding handle_remember
  handle_remember-quiet ctx text s = elim (Bool-cases (leb (byte_len text) 4096)) [
    | inr long ↦ rw (long, handle_remember) (quiet ctx _ s)
    | inl fits ↦
        rw (fits, handle_remember)
          (remembered (record s { asked = s.asked ++ learned text ∷ [] })
              (chat_parts.add_learning text s.llm_state)
            ∙ append-quiet s.asked (learned text) refl)
  ]
    where
      remembered :
          (t : ChatState H W) (r : LlmState W × Result ChatError ℕ)
          → has_approval (on_remembered review_host router chat_parts ctx t r).0.asked
            ≡ has_approval t.asked
      remembered t (l, err e) = unfold on_remembered in refl
      remembered t (l, ok id) = unfold on_remembered in quiet ctx _ (record t { llm_state = l })

  handle_forget-quiet :
      (ctx : ChatContext) (id : ℕ) (s : ChatState H W)
      → has_approval (handle_forget review_host router chat_parts ctx id s).0.asked
        ≡ has_approval s.asked
  unfolding handle_forget
  handle_forget-quiet ctx id s =
      forgotten (record s { asked = s.asked ++ forgot id ∷ [] })
        (chat_parts.remove_learning id s.llm_state)
      ∙ append-quiet s.asked (forgot id) refl
    where
      forgotten :
          (t : ChatState H W) (r : LlmState W × Result LearningsError (Unit {0}))
          → has_approval (on_forgotten review_host router chat_parts ctx id t r).0.asked
            ≡ has_approval t.asked
      forgotten t (l, ok u) = unfold on_forgotten in quiet ctx _ (record t { llm_state = l })
      forgotten t (l, err (not_found m)) =
          unfold on_forgotten in quiet ctx _ (record t { llm_state = l })
      forgotten t (l, err (storage m)) = unfold on_forgotten in refl

  -- What a command in plain words must be read as to approve.
  on_intent-asks :
      (ctx : ChatContext) (text : Text) (s : ChatState H W) (r : LlmState W × DirectedIntent)
      → has_approval s.asked ≡ false
      → has_approval (on_intent review_host router chat_parts ctx text s r).0.asked ≡ true
      → (r.1 ≡ DirectedIntent.approval_request)
        × (has_approval
              (handle_override_approval review_host router chat_parts ctx text
                (record s { llm_state = r.0 })).0.asked
            ≡ true)
  unfolding on_intent
  on_intent-asks ctx text s (l, DirectedIntent.re_review) h a =
      clash _ (handle_re_review-quiet ctx (record s { llm_state = l }) ∙ h) a
  on_intent-asks ctx text s (l, DirectedIntent.approval_request) h a = (refl, a)
  on_intent-asks ctx text s (l, question) h a =
      clash _ (handle_freeform-quiet ctx text (record s { llm_state = l }) ∙ h) a

  classify-has_provider :
      (text : Text) (l : LlmState W)
      → (classify_intent review_host router chat_parts text l).1 ≡ DirectedIntent.approval_request
      → has_provider router cheap ≡ true
  unfolding classify_intent
  classify-has_provider text l e = elim (Bool-cases (has_provider router cheap)) [
    | inl there ↦ there
    | inr missing ↦ cc (rw (missing, classify_intent) at e)
  ]

  -- What led to an approval.
  abbrev pub WasAsked : ChatContext → Text → ChatState H W → Type 0
  WasAsked ctx text s =
      ((classify_intent review_host router chat_parts text s.llm_state).1
        ≡ DirectedIntent.approval_request)
      × (has_provider router cheap ≡ true)
      × ((pr : PullRequestSummary) × ((chat_parts.get_pull_request ctx.pr s.host_state).1 ≡ ok pr)
          × (pr.draft ≡ false)
          × (text_eq pr.state (codes "open") ≡ true)
          × MayApprove review_host router chat_parts ctx pr text
              (chat_parts.get_pull_request ctx.pr s.host_state).0
              (classify_intent review_host router chat_parts text s.llm_state).0)

  handle_directed-WasAsked :
      (ctx : ChatContext) (text : Text) (s : ChatState H W)
      → has_approval s.asked ≡ false
      → has_approval (handle_directed review_host router chat_parts ctx text s).0.asked ≡ true
      → WasAsked ctx text s
  unfolding handle_directed
  handle_directed-WasAsked ctx text s h a =
      let c = classify_intent review_host router chat_parts text s.llm_state in
      let (read, overridden) = on_intent-asks ctx text s c h a in
      (
        read,
        classify-has_provider text s.llm_state read,
        handle_override_approval-MayApprove review_host router chat_parts ctx text
            (record s { llm_state = c.0 }) h overridden,
      )

  -- A chat command has the bot approve only if it is addressed in plain words which the cheap
  -- model reads as a request for an approval, and then only an open pull request that is no draft.
  -- Where the reviews are listed and the bot's latest one blocks, it takes a configured approver
  -- who gave a reason; a listing that fails counts as one without a blocking review. No other
  -- command, and no answer that cannot be read, leads to an approval.
  pub handle-approves :
      (ctx : ChatContext) (c : ChatCommand) (s : ChatState H W)
      → has_approval s.asked ≡ false
      → has_approval (handle review_host router chat_parts ctx c s).0.asked ≡ true
      → (text : Text) × (directed_text c ≡ some text) × WasAsked ctx text s
  unfolding handle
  handle-approves ctx help s h a = clash _ (quiet ctx chat_parts.help_text s ∙ h) a
  handle-approves ctx (remember text) s h a = clash _ (handle_remember-quiet ctx text s ∙ h) a
  handle-approves ctx (forget id) s h a = clash _ (handle_forget-quiet ctx id s ∙ h) a
  handle-approves ctx ChatCommand.re_review s h a = clash _ (handle_re_review-quiet ctx s ∙ h) a
  handle-approves ctx (review_correction text) s h a =
      (text, refl, handle_directed-WasAsked ctx text s h a)
  handle-approves ctx ChatCommand.autofix s h a =
      clash _ (handle_suggest-quiet ctx SuggestionKind.autofix s ∙ h) a
  handle-approves ctx ChatCommand.docstrings s h a =
      clash _ (handle_suggest-quiet ctx SuggestionKind.docstrings s ∙ h) a
  handle-approves ctx test_scaffolds s h a = clash _ (handle_test_scaffolds-quiet ctx s ∙ h) a
  handle-approves ctx (freeform text) s h a = (text, refl, handle_directed-WasAsked ctx text s h a)
  handle-approves ctx not_mentioned s h a = clash _ h a
