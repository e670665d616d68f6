-- ===== src/Gateway/Webhook/Effects.antt =====
-- crates/ar-gateway/src/webhook.rs: what a webhook hands over.
use auto_review.Prelude.{
  ℕ, ◌≡◌, ◌∙◌, ◌⊎◌, inl, inr, true, false, some, List, [], ◌∷◌, ◌++◌, arith, Option-cases,
  Result-cases, Bool-cases,
}
use auto_review.Prelude.Text.{Text, codes, text_eq}
use auto_review.Forgejo.{IssueCommentEvent, is_pull_request_comment}
use auto_review.Chat.Command.{ChatCommand, parse_chat_command}
use auto_review.Gateway.Cursors.{claim_chat_comment}
use auto_review.Gateway.Metrics
use auto_review.Gateway.Webhook.State.{AppState, Request, Decoder, spawn_chat, ChatTask, count}
use auto_review.Gateway.Webhook.{
  CiReviewRequest, is_bot_self, is_created, is_mention, chat_task, comment_key, hand_off,
  claim_and_hand_off, handle_issue_comment, handle_pull_request, route, dedup_delivery, deliver,
  throttle, event_of,
}

-- The effects of a step: none, or one chat task.
abbrev pub HandsOver : AppState → AppState → Type 0
HandsOver s s' =
    (s'.log ≡ s.log)
    ⊎ ((t : ChatTask) × (s'.log ≡ s.log ++ spawn_chat t ∷ [])
        × (is_mention t.command ≡ true)
        × (is_bot_self t.commenter_login s.bot_login ≡ false))

pub hand_off-HandsOver :
    (s : AppState) (evt : IssueCommentEvent) (cmd : ChatCommand)
    → is_mention cmd ≡ true
    → is_bot_self evt.sender.login s.bot_login ≡ false
    → HandsOver s (hand_off s evt cmd).0
unfolding hand_off
hand_off-HandsOver s evt cmd h k = elim (Bool-cases s.chat) [
  | inl on ↦ inr (chat_task s evt cmd, ground arith, ground arith, ground arith)
  | inr off ↦ inl (ground arith)
]

claim_and_hand_off-HandsOver :
    (s : AppState) (evt : IssueCommentEvent) (cmd : ChatCommand)
    → is_mention cmd ≡ true
    → is_bot_self evt.sender.login s.bot_login ≡ false
    → HandsOver s (claim_and_hand_off s evt cmd).0
unfolding claim_and_hand_off
claim_and_hand_off-HandsOver s evt cmd h k = elim (Option-cases s.chat_comment_cursors) [
  | inl e ↦ rw (e, claim_and_hand_off) (hand_off-HandsOver s evt cmd h k)
  | inr (m, e) ↦
      let claimed = claim_chat_comment m (comment_key evt) evt.comment.id in
      let s' = record s { chat_comment_cursors = some claimed.0 } in
      elim (Bool-cases claimed.1) [
        | inl won ↦ rw (e, won, claim_and_hand_off) (hand_off-HandsOver s' evt cmd h k)
        | inr lost ↦ inl (ground arith)
      ]
]

comment-HandsOver :
    (d : Decoder CiReviewRequest) (s : AppState) (body : List ℕ)
    → HandsOver s (handle_issue_comment d s body).0
unfolding handle_issue_comment
comment-HandsOver d s body = elim (Result-cases (d.issue_comment body)) [
  | inr (e, f) ↦ inl (ground arith)
  | inl (evt, f) ↦
      let cmd = parse_chat_command evt.comment.body s.bot_name in
      let s' = count Metrics.record_chat_command s in
      elim (Bool-cases (is_created evt.action)) [
        | inr no_new ↦ inl (ground arith)
        | inl new ↦ elim (Bool-cases (is_pull_request_comment evt)) [
          | inr plain ↦ inl (ground arith)
          | inl pr ↦ elim (Bool-cases (is_bot_self evt.sender.login s.bot_login)) [
            | inl own ↦ inl (ground arith)
            | inr foreign ↦ elim (Bool-cases (is_mention cmd)) [
              | inr silent ↦ inl (ground arith)
              | inl mention ↦
                  rw (f, new, pr, foreign, mention, handle_issue_comment)
                    (claim_and_hand_off-HandsOver s' evt cmd mention foreign)
            ]
          ]
        ]
      ]
]

pull_request-log :
    (d : Decoder CiReviewRequest) (s : AppState) (body : List ℕ)
    → (handle_pull_request d s body).0.log ≡ s.log
unfolding handle_pull_request
pull_request-log d s body = ground arith

route-HandsOver :
    (d : Decoder CiReviewRequest) (s : AppState) (event : Text) (body : List ℕ)
    → HandsOver s (route d s event body).0
unfolding route
route-HandsOver d s event body = elim (Bool-cases (text_eq event (codes "pull_request"))) [
  | inl pr ↦ inl (ground (arith, pull_request-log d s body))
  | inr not_pr ↦ elim (Bool-cases (text_eq event (codes "issue_comment"))) [
    | inl comment ↦ rw (not_pr, comment) (comment-HandsOver d s body)
    | inr rest ↦ inl (ground arith)
  ]
]

-- What dedup and throttle leave alone.
pub dedup_keeps :
    (s : AppState) (req : Request)
    → ((dedup_delivery s req).0.log ≡ s.log) × ((dedup_delivery s req).0.bot_login ≡ s.bot_login)
unfolding dedup_delivery
dedup_keeps s req = ground arith

pub throttle_keeps :
    (s : AppState) (now : ℕ)
    → ((throttle s now).0.log ≡ s.log)
      × ((throttle s now).0.bot_login ≡ s.bot_login)
      × ((throttle s now).0.webhook_dedup ≡ s.webhook_dedup)
      × ((throttle s now).0.chat_comment_cursors ≡ s.chat_comment_cursors)
      × ((throttle s now).0.webhook_secret ≡ s.webhook_secret)
unfolding throttle
throttle_keeps s now = ground arith

pub HandsOver-from :
    (s t u : AppState) → t.log ≡ s.log → t.bot_login ≡ s.bot_login → HandsOver t u → HandsOver s u
HandsOver-from s t u e f (inl same) = inl (same ∙ e)
HandsOver-from s t u e f (inr (task, log, mention, foreign)) =
    inr (task, rw (← e) log, mention, rw (← f) foreign)

pub deliver-HandsOver :
    (d : Decoder CiReviewRequest) (s : AppState) (req : Request) → HandsOver s (deliver d s req).0
unfolding deliver
deliver-HandsOver d s req =
    let s' = count (Metrics.record_event (event_of req)) s in
    let (log, login) = dedup_keeps s' req in
    elim (Bool-cases (dedup_delivery s' req).1) [
      | inl seen ↦ rw (seen, deliver) (inl log)
      | inr new ↦
          rw (new, deliver)
            (HandsOver-from s (dedup_delivery s' req).0
              (route d (dedup_delivery s' req).0 (event_of req) req.body).0 log login
              (route-HandsOver d (dedup_delivery s' req).0 (event_of req) req.body))
    ]
