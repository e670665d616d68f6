-- ===== src/Chat/Override/Authorized.antt =====
-- crates/ar-chat/src/handler.rs: who can have a pull request approved.
use auto_review.Prelude.{
  ℕ, is_ok, ◌≡◌, refl, ap, ◌∙◌, ◌⊎◌, inl, inr, Bool, true, false, List, [], ◌∷◌, ◌++◌, Option, none,
  some, is_some, Result, ok, err, arith, any, any-append, Bool-cases,
}
use auto_review.Prelude.Text.{Text, codes, text_eq}
use auto_review.Forge.{HostError, PullRequestSummary, ReviewEvent, approved}
use auto_review.Llm.{LlmState, Router}
use auto_review.Review.Host.{ReviewHost}
use auto_review.Chat.State.{
  ChatError, ChatContext, ChatCall, reviewed, replied, learned, ChatState, ChatParts,
  is_override_approver, and_then, post,
}
use auto_review.Chat.Override.{
  approve, remember_correction, outstanding_findings, load_repo_config_for_chat,
  judge_override_reason, on_reason, on_pull_request, force_approval, stamp, or_empty, bot_reviews,
  latest_review, decline, answer_approval, handle_override_approval, stored,
}

abbrev pub is_approved : ReviewEvent → Bool
is_approved approved = true
is_approved _ = false

abbrev pub is_approval : ChatCall → Bool
is_approval (reviewed request) = is_approved request.event
is_approval _ = false

abbrev pub has_approval : List ChatCall → Bool
has_approval = any is_approval

pub append-quiet :
    (cs : List ChatCall) (c : ChatCall)
    → is_approval c ≡ false
    → has_approval (cs ++ c ∷ []) ≡ has_approval cs
append-quiet cs c h = rw (any-append is_approval cs (c ∷ []), h) (ground arith)

stored-ok : (r : Result ChatError ℕ) → is_ok r ≡ true → stored r ≡ ok tt
unfolding stored
stored-ok (ok id) h = refl
stored-ok (err e) h = cc

pub clash : {A : Type 0} (b : Bool) → b ≡ false → b ≡ true → A
clash b p q = absurd (ground arith)

module _ {H W : Type 0} (review_host : ReviewHost H) (router : Router W)
    (chat_parts : ChatParts H W) where
  pub post-quiet :
      (ctx : ChatContext) (body : Text) (s : ChatState H W)
      → has_approval (post review_host router chat_parts ctx body s).0.asked ≡ has_approval s.asked
  unfolding post
  post-quiet ctx body s = append-quiet s.asked (replied body) refl

  remember_correction-quiet :
      (ctx : ChatContext) (text : Text) (s : ChatState H W)
      → has_approval (remember_correction review_host router chat_parts ctx text s).0.asked
        ≡ has_approval s.asked
  unfolding remember_correction
  remember_correction-quiet ctx text s = append-quiet s.asked (learned _) refl

  and_then-quiet :
      (ctx : ChatContext) (body : Text) (r : ChatState H W × Result ChatError (Unit {0}))
      → has_approval
          (and_then review_host router chat_parts r
            (post review_host router chat_parts ctx body)).0.asked
        ≡ has_approval r.0.asked
  unfolding and_then
  and_then-quiet ctx body (s, ok u) = post-quiet ctx body s
  and_then-quiet ctx body (s, err e) = refl

  decline-quiet :
      (ctx : ChatContext) (text : Text) (s : ChatState H W)
      → has_approval (decline review_host router chat_parts ctx text s).0.asked
        ≡ has_approval s.asked
  unfolding decline
  decline-quiet ctx text s =
      and_then-quiet ctx _ (remember_correction review_host router chat_parts ctx text s)
      ∙ remember_correction-quiet ctx text s

  on_reason-reason :
      (ctx : ChatContext) (pr : PullRequestSummary) (text : Text) (fs : List Text)
      (s : ChatState H W) (j : LlmState W × Option Text)
      → has_approval s.asked ≡ false
      → has_approval (on_reason review_host router chat_parts ctx pr text fs s j).0.asked ≡ true
      → is_some j.1 ≡ true
  unfolding on_reason
  on_reason-reason ctx pr text fs s (l, some why) h r = refl
  on_reason-reason ctx pr text fs s (l, none) h r =
      clash _ (post-quiet ctx _ (record s { llm_state = l }) ∙ h) r

  force_approval-reason :
      (ctx : ChatContext) (pr : PullRequestSummary) (text : Text) (fs : List Text)
      (s : ChatState H W)
      → has_approval s.asked ≡ false
      → has_approval (force_approval review_host router chat_parts ctx pr text fs s).0.asked ≡ true
      → is_some (judge_override_reason review_host router chat_parts text s.llm_state).1 ≡ true
  unfolding force_approval
  force_approval-reason ctx pr text fs s h r =
      on_reason-reason ctx pr text fs s
        (judge_override_reason review_host router chat_parts text s.llm_state) h r

  -- What an approval of an open pull request takes.
  abbrev pub MayApprove : ChatContext → PullRequestSummary → Text → H → LlmState W → Type 0
  MayApprove ctx pr text h l =
      ((outstanding_findings review_host router chat_parts ctx h).1.blocked ≡ false)
      ⊎ ((is_override_approver
              (load_repo_config_for_chat review_host router chat_parts ctx pr
                (outstanding_findings review_host router chat_parts ctx h).0).1
              ctx.commenter_login
            ≡ true)
          × (is_some (judge_override_reason review_host router chat_parts text l).1 ≡ true))

  answer_approval-MayApprove :
      (ctx : ChatContext) (pr : PullRequestSummary) (text : Text) (s : ChatState H W)
      → has_approval s.asked ≡ false
      → has_approval (answer_approval review_host router chat_parts ctx pr text s).0.asked ≡ true
      → MayApprove ctx pr text s.host_state s.llm_state
  unfolding answer_approval
  answer_approval-MayApprove ctx pr text s h r =
      let (h1, o) = outstanding_findings review_host router chat_parts ctx s.host_state in
      let (h2, config) = load_repo_config_for_chat review_host router chat_parts ctx pr h1 in
      elim (Bool-cases o.blocked) [
        | inr free ↦ inl free
        | inl blocked ↦ elim (Bool-cases (is_override_approver config ctx.commenter_login)) [
          | inl allowed ↦ inr (
            allowed,
            force_approval-reason ctx pr text o.error_findings (record s { host_state = h2 }) h
                (rw (blocked, allowed, answer_approval) at r),
          )
          | inr denied ↦
              let quiet = decline-quiet ctx text (record s { host_state = h2 }) in
              ground (arith, quiet, rw (blocked, denied, answer_approval) at r)
        ]
      ]

  on_pull_request-MayApprove :
      (ctx : ChatContext) (text : Text) (s : ChatState H W)
      (a : H × Result HostError PullRequestSummary)
      → has_approval s.asked ≡ false
      → has_approval (on_pull_request review_host router chat_parts ctx text s a).0.asked ≡ true
      → (pr : PullRequestSummary) × (a.1 ≡ ok pr)
        × (pr.draft ≡ false)
        × (text_eq pr.state (codes "open") ≡ true)
        × MayApprove ctx pr text a.0 s.llm_state
  unfolding on_pull_request answer_approval load_repo_config_for_chat force_approval on_reason stamp
  on_pull_request-MayApprove ctx text s (h', err x) h r = clash _ h r
  on_pull_request-MayApprove ctx text s (h', ok pr) h r =
      let s' : ChatState H W = record s { host_state = h' } in
      elim (Bool-cases pr.draft) [
        | inl draft ↦ clash _ (post-quiet ctx _ s' ∙ h) (rw (draft, on_pull_request) at r)
        | inr ready ↦ elim (Bool-cases (text_eq pr.state (codes "open"))) [
          | inr closed ↦
              clash _ (post-quiet ctx _ s' ∙ h) (rw (ready, closed, on_pull_request) at r)
          | inl is_open ↦ (
            pr,
            refl,
            ready,
            is_open,
            answer_approval-MayApprove ctx pr text s' h (rw (ready, is_open, on_pull_request) at r),
          )
        ]
      ]

  -- If a request made of the bot has it post an approving review, the pull request was read, it
  -- was open and no draft, and either the bot's last review was found not to request changes, or
  -- the commenter is one of the configured approvers and gave a reason.
  pub handle_override_approval-MayApprove :
      (ctx : ChatContext) (text : Text) (s : ChatState H W)
      → has_approval s.asked ≡ false
      → has_approval (handle_override_approval review_host router chat_parts ctx text s).0.asked
        ≡ true
      → (pr : PullRequestSummary) × ((chat_parts.get_pull_request ctx.pr s.host_state).1 ≡ ok pr)
        × (pr.draft ≡ false)
        × (text_eq pr.state (codes "open") ≡ true)
        × MayApprove ctx pr text (chat_parts.get_pull_request ctx.pr s.host_state).0 s.llm_state
  unfolding handle_override_approval
  handle_override_approval-MayApprove ctx text s h r =
      on_pull_request-MayApprove ctx text s (chat_parts.get_pull_request ctx.pr s.host_state) h r

  approve-has_approval :
      (ctx : ChatContext) (sha body : Text) (s : ChatState H W)
      → has_approval (approve review_host router chat_parts ctx sha body s).0.asked ≡ true
  unfolding approve
  approve-has_approval ctx sha body s = rw (any-append is_approval s.asked) (ground arith)

  and_then-has_approval :
      (ctx : ChatContext) (sha body : Text) (r : ChatState H W × Result ChatError (Unit {0}))
      → r.1 ≡ ok tt
      → has_approval
          (and_then review_host router chat_parts r
            (approve review_host router chat_parts ctx sha body)).0.asked
        ≡ true
  unfolding and_then
  and_then-has_approval ctx sha body (s, ok u) h = approve-has_approval ctx sha body s
  and_then-has_approval ctx sha body (s, err e) h = absurd (ground arith)

  unlisted-unblocked :
      (ctx : ChatContext) (h : H) (e : HostError)
      → (review_host.list_pull_reviews ctx.pr h).1 ≡ err e
      → (outstanding_findings review_host router chat_parts ctx h).1.blocked ≡ false
  unfolding outstanding_findings or_empty bot_reviews latest_review
  unlisted-unblocked ctx h e failed = rw (failed, outstanding_findings) refl

  unblocked_approves :
      (ctx : ChatContext) (pr : PullRequestSummary) (text : Text) (s : ChatState H W)
      → (outstanding_findings review_host router chat_parts ctx s.host_state).1.blocked ≡ false
      → ((t : Text) (l : LlmState W) → is_ok (chat_parts.add_learning t l).1 ≡ true)
      → has_approval (answer_approval review_host router chat_parts ctx pr text s).0.asked ≡ true
  unfolding answer_approval remember_correction
  unblocked_approves ctx pr text s free kept =
      rw (free, answer_approval) (and_then-has_approval ctx _ _ _ (stored-ok _ (kept _ _)))

  opened-answer_approval :
      (ctx : ChatContext) (pr : PullRequestSummary) (text : Text) (s : ChatState H W) (h : H)
      → pr.draft ≡ false
      → text_eq pr.state (codes "open") ≡ true
      → on_pull_request review_host router chat_parts ctx text s (h, ok pr)
        ≡ answer_approval review_host router chat_parts ctx pr text (record s { host_state = h })
  unfolding on_pull_request
  opened-answer_approval ctx pr text s h ready is_open = simp (ready, is_open, on_pull_request)

  -- When the reviews of the pull request cannot be listed, a blocking review counts as none, so
  -- anyone who asks gets an open pull request that is no draft approved, once the note is stored.
  pub unlisted_approves :
      (ctx : ChatContext) (text : Text) (s : ChatState H W) (pr : PullRequestSummary) (h : H)
      (e : HostError)
      → (chat_parts.get_pull_request ctx.pr s.host_state) ≡ (h, ok pr)
      → pr.draft ≡ false
      → text_eq pr.state (codes "open") ≡ true
      → (review_host.list_pull_reviews ctx.pr h).1 ≡ err e
      → ((t : Text) (l : LlmState W) → is_ok (chat_parts.add_learning t l).1 ≡ true)
      → has_approval (handle_override_approval review_host router chat_parts ctx text s).0.asked
        ≡ true
  unfolding handle_override_approval
  unlisted_approves ctx text s pr h e got ready is_open failed kept =
      ap (λ (r : ChatState H W × Result ChatError (Unit {0})). has_approval r.0.asked)
        (ap (on_pull_request review_host router chat_parts ctx text s) got
          ∙ opened-answer_approval ctx pr text s h ready is_open)
      ∙ unblocked_approves ctx pr text (record s { host_state = h })
          (unlisted-unblocked ctx h e failed) kept
