-- ===== src/Gateway/Webhook/Redelivery.antt =====
-- crates/ar-gateway/src/webhook.rs: a delivery that the server sends again.
use auto_review.Prelude.{
  ℕ, ◌≡◌, ap, refl, ◌∙◌, ◌⊎◌, inl, inr, true, Option, none, some, List, [], arith, Option-cases,
  Result-cases, Bool-cases,
}
use auto_review.Prelude.Text.{Text, codes}
use auto_review.Prelude.Keys.{member, text_key}
use auto_review.Forgejo.{IssueCommentEvent}
use auto_review.Chat.Command.{ChatCommand, parse_chat_command}
use auto_review.Gateway.Cursors.{claim_chat_comment}
use auto_review.Gateway.Dedup.{
  memory, RecentDeliveries, CheckResult, first_sight, duplicate, check_and_record,
  dyn_check_and_record,
}
use auto_review.Gateway.Dedup.Window.{IsValid, check_and_record-window}
use auto_review.Gateway.Dedup.Recent.{recent_duplicate, run, in_window}
use auto_review.Gateway.Metrics
use auto_review.Gateway.Hmac.{Crypto}
use auto_review.Gateway.Webhook.State.{AppState, Request, Decoder, count, header}
use auto_review.Gateway.Webhook.{
  CiReviewRequest, dedup_delivery, deliver, route, throttle, authenticate, handle, event_of,
  hand_off, claim_and_hand_off, handle_issue_comment, handle_pull_request, comment_key,
}
use auto_review.Gateway.Webhook.Authentic.{IsAuthentic}

-- What no handler behind the dedup check touches.
abbrev pub SameIntake : AppState → AppState → Type 0
SameIntake s s' =
    (s'.webhook_dedup ≡ s.webhook_dedup)
    × (s'.webhook_secret ≡ s.webhook_secret)
    × (s'.webhook_rate_limit ≡ s.webhook_rate_limit)

hand_off-SameIntake :
    (s : AppState) (evt : IssueCommentEvent) (cmd : ChatCommand)
    → SameIntake s (hand_off s evt cmd).0
unfolding hand_off
hand_off-SameIntake s evt cmd = ground arith

claim-SameIntake :
    (s : AppState) (evt : IssueCommentEvent) (cmd : ChatCommand)
    → SameIntake s (claim_and_hand_off s evt cmd).0
unfolding claim_and_hand_off
claim-SameIntake s evt cmd = elim (Option-cases s.chat_comment_cursors) [
  | inl e ↦ rw (e, claim_and_hand_off) (hand_off-SameIntake s evt cmd)
  | inr (m, e) ↦
      let claimed = claim_chat_comment m (comment_key evt) evt.comment.id in
      let s' = record s { chat_comment_cursors = some claimed.0 } in
      let kept = hand_off-SameIntake s' evt cmd in ground arith
]

comment-SameIntake :
    (d : Decoder CiReviewRequest) (s : AppState) (body : List ℕ)
    → SameIntake s (handle_issue_comment d s body).0
unfolding handle_issue_comment
comment-SameIntake d s body = elim (Result-cases (d.issue_comment body)) [
  | inr (e, f) ↦ ground arith
  | inl (evt, f) ↦
      let kept =
        claim-SameIntake (count Metrics.record_chat_command s) evt
          (parse_chat_command evt.comment.body s.bot_name) in
      ground arith
]

pull_request-SameIntake :
    (d : Decoder CiReviewRequest) (s : AppState) (body : List ℕ)
    → SameIntake s (handle_pull_request d s body).0
unfolding handle_pull_request
pull_request-SameIntake d s body = ground arith

route-SameIntake :
    (d : Decoder CiReviewRequest) (s : AppState) (event : Text) (body : List ℕ)
    → SameIntake s (route d s event body).0
unfolding route
route-SameIntake d s event body =
    ground (arith, pull_request-SameIntake d s body, comment-SameIntake d s body)

abbrev pub delivery_id : Request → Option Text
delivery_id req = header req.headers (codes "x-forgejo-delivery") (codes "x-gitea-delivery")

module _ (r : RecentDeliveries) (id : Text) where
  dedup_memory :
      (s : AppState) (req : Request)
      → s.webhook_dedup ≡ some (memory r)
      → delivery_id req ≡ some id
      → ((dedup_delivery s req).0.webhook_dedup ≡ some (memory (check_and_record r id).0))
        × ((dedup_delivery s req).0.webhook_secret ≡ s.webhook_secret)
        × ((dedup_delivery s req).0.webhook_rate_limit ≡ s.webhook_rate_limit)
        × ((dedup_delivery s req).0.log ≡ s.log)
        × ((check_and_record r id).1 ≡ duplicate → (dedup_delivery s req).1 ≡ true)
  unfolding dedup_delivery dyn_check_and_record
  dedup_memory s req e f = ground arith

  deliver_memory :
      (d : Decoder CiReviewRequest) (s : AppState) (req : Request)
      → s.webhook_dedup ≡ some (memory r)
      → delivery_id req ≡ some id
      → ((deliver d s req).0.webhook_dedup ≡ some (memory (check_and_record r id).0))
        × ((deliver d s req).0.webhook_secret ≡ s.webhook_secret)
        × ((deliver d s req).0.webhook_rate_limit ≡ s.webhook_rate_limit)
  unfolding deliver
  deliver_memory d s req e f =
      let s' = count (Metrics.record_event (event_of req)) s in
      let (dedup, secret, limit, log, seen) = dedup_memory s' req e f in
      let t = (dedup_delivery s' req).0 in
      let (a, b, c) = route-SameIntake d t (event_of req) req.body in
      elim (Bool-cases (dedup_delivery s' req).1) [
        | inl old ↦ rw (old, deliver) (dedup, secret, limit)
        | inr new ↦ rw (new, deliver) (a ∙ dedup, b ∙ secret, c ∙ limit)
      ]

  -- A delivery that is still in the store is answered without a further effect.
  deliver_duplicate :
      (d : Decoder CiReviewRequest) (s : AppState) (req : Request)
      → s.webhook_dedup ≡ some (memory r)
      → delivery_id req ≡ some id
      → (check_and_record r id).1 ≡ duplicate
      → ((deliver d s req).0.log ≡ s.log)
        × ((deliver d s req).1 ≡ record { status = 200; message = codes "duplicate" })
  unfolding deliver
  deliver_duplicate d s req e f dup =
      let s' = count (Metrics.record_event (event_of req)) s in
      let (dedup, secret, limit, log, seen) = dedup_memory s' req e f in
      rw (seen dup, deliver) (log, refl)

CheckResult-cases : (r : CheckResult) → (r ≡ first_sight) ⊎ (r ≡ duplicate)
CheckResult-cases first_sight = inl refl
CheckResult-cases duplicate = inr refl

-- Whatever the first answer was, the second is `duplicate`.
check_again :
    (r : RecentDeliveries) (id : Text)
    → IsValid r
    → (check_and_record (check_and_record r id).0 id).1 ≡ duplicate
check_again r id v = elim (CheckResult-cases (check_and_record r id).1) [
  | inl first ↦ unfold run in recent_duplicate r id [] v first v.positive
  | inr again ↦
      let (v', cap, order, answer) = check_and_record-window r id v in
      let seen : member id r.order ≡ true = ground arith in
      let same : (check_and_record r id).0.order ≡ r.order = ground arith in
      in_window (check_and_record r id).0 id v' (ap (member id) same ∙ seen)
]

throttle_off : (s : AppState) (now : ℕ) → s.webhook_rate_limit ≡ none → throttle s now ≡ (s, true)
unfolding throttle
throttle_off s now free = ground arith

authenticate-deliver :
    (c : Crypto) (d : Decoder CiReviewRequest) (s : AppState) (req : Request)
    → IsAuthentic c s req
    → authenticate c d s req ≡ deliver d s req
unfolding authenticate
authenticate-deliver c d s req (sig, e, f) = rw (e, f, authenticate)

module _ (c : Crypto) (d : Decoder CiReviewRequest) where
  handle-deliver :
      (s : AppState) (req : Request)
      → s.webhook_rate_limit ≡ none
      → IsAuthentic c s req
      → handle c d s req ≡ deliver d s req
  unfolding handle
  handle-deliver s req free a =
      rw (throttle_off s req.now free, handle) (authenticate-deliver c d s req a)

  -- With the throttle off and deliveries remembered in memory, a signed delivery with an id in its
  -- header that arrives twice in a row is acted on once: the second time it is answered with
  -- "duplicate" and starts nothing.
  pub handle_redelivery :
      (s : AppState) (req : Request) (r : RecentDeliveries) (id : Text)
      → s.webhook_rate_limit ≡ none
      → s.webhook_dedup ≡ some (memory r)
      → IsValid r
      → delivery_id req ≡ some id
      → IsAuthentic c s req
      → ((handle c d (handle c d s req).0 req).0.log ≡ (handle c d s req).0.log)
        × ((handle c d (handle c d s req).0 req).1
            ≡ record { status = 200; message = codes "duplicate" })
  handle_redelivery s req r id free e v f (sig, g, h) =
      let (dedup, secret, limit) = deliver_memory r id d s req e f in
      let t = (deliver d s req).0 in
      let first = handle-deliver s req free (sig, g, h) in
      let second = handle-deliver t req (limit ∙ free) (sig, g, rw secret h) in
      rw (first, second)
        (deliver_duplicate (check_and_record r id).0 id d t req dedup f (check_again r id v))
