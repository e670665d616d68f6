-- ===== src/Gateway/Webhook.antt =====
-- crates/ar-gateway/src/webhook.rs: the webhook handler. A handler runs as one step here; what it
-- spawns or dispatches is appended to a log.
pub mod State
pub mod Effects
pub mod Authentic
pub mod Redelivery
use auto_review.Prelude.{
  ℕ, Bool, true, false, not, ◌&&◌, ◌||◌, Option, none, some, List, [], ◌∷◌, ◌++◌, Result, ok, err,
  if◌then◌else◌, is_some,
}
use auto_review.Prelude.Text.{Text, codes, text_eq, eq_ignore_ascii_case}
use auto_review.Forgejo.{
  PullRequestAction, opened, synchronized, reopened, ready_for_review, review_requested,
  PullRequestEvent, IssueCommentEvent, IssueCommentAction, created, is_pull_request_comment,
}
use auto_review.Chat.Command.{ChatCommand, not_mentioned, parse_chat_command}
use auto_review.Orchestrator.History.{PrKey}
use auto_review.Gateway.Cursors.{claim_chat_comment}
use auto_review.Gateway.Dedup.{dyn_check_and_record, first_sight, duplicate}
use auto_review.Gateway.Hmac.{Crypto, HmacError, missing, not_hex, mismatch, invalid_secret, verify}
use auto_review.Gateway.Metrics
use auto_review.Gateway.RateLimit.{try_take_at}
use State.{
  AppState, Request, Response, Decoder, Effect, spawn_chat, ChatTask, header, count, reject,
}

-- `CiReviewRequest`
pub record CiReviewRequest : Type 0 where
  pub owner : Text
  pub repo : Text
  pub pr_number : ℕ
  pub head_sha : Text
  pub force : Bool

abbrev pub accepted : Response
accepted = record { status = 202; message = [] }

unfoldable pub is_bot_self : Text → Text → Bool
unfolding eq_ignore_ascii_case
is_bot_self sender_login bot_login = eq_ignore_ascii_case sender_login bot_login

triggers : PullRequestAction → Bool
triggers opened = true
triggers synchronized = true
triggers reopened = true
triggers ready_for_review = true
triggers _ = false

is_review_requested : PullRequestAction → Bool
is_review_requested review_requested = true
is_review_requested _ = false

unfoldable pub is_actionable : PullRequestEvent → Text → Bool
unfolding triggers is_review_requested
is_actionable evt bot_login =
    triggers evt.action
    || (is_review_requested evt.action
        && elim evt.pull_request.state [ none ↦ false | some s ↦ text_eq s (codes "open") ]
        && elim evt.requested_reviewer [
          | none ↦ false
          | some reviewer ↦ eq_ignore_ascii_case reviewer.login bot_login
        ])

-- A pull request webhook is acknowledged and hands nothing over.
unfoldable pub handle_pull_request :
    Decoder CiReviewRequest → AppState → List ℕ → AppState × Response
unfolding is_actionable
handle_pull_request d s body = elim (d.pull_request body) [
  | err e ↦ (count Metrics.record_payload_failure s, reject 400 (codes "payload decode: " ++ e))
  | ok evt ↦
      if not (is_actionable evt s.bot_login)
      then (s, accepted)
      else if evt.pull_request.draft
      then (s, accepted)
      else (s, accepted)
]

unfoldable pub is_created : IssueCommentAction → Bool
is_created created = true
is_created _ = false

unfoldable pub is_mention : ChatCommand → Bool
is_mention not_mentioned = false
is_mention _ = true

unfoldable pub chat_task : AppState → IssueCommentEvent → ChatCommand → ChatTask
chat_task s evt cmd = record {
  owner = evt.repository.owner.login;
  repo = evt.repository.name;
  issue_number = evt.issue.number;
  commenter_login = evt.sender.login;
  bot_login = s.bot_login;
  command = cmd;
}

-- The end of `handle_issue_comment`: the chat handler is spawned if it is configured.
unfoldable pub hand_off : AppState → IssueCommentEvent → ChatCommand → AppState × Response
unfolding chat_task
hand_off s evt cmd =
    if s.chat
    then (record s { log = s.log ++ spawn_chat (chat_task s evt cmd) ∷ [] }, accepted)
    else (count Metrics.record_chat_unconfigured s, accepted)

abbrev pub comment_key : IssueCommentEvent → PrKey
comment_key evt = record {
  owner = evt.repository.owner.login;
  repo = evt.repository.name;
  pr_number = evt.issue.number;
}

-- The comment is claimed through the cursors, if they are there.
unfoldable pub claim_and_hand_off : AppState → IssueCommentEvent → ChatCommand → AppState × Response
claim_and_hand_off s evt cmd = elim s.chat_comment_cursors [
  | none ↦ hand_off s evt cmd
  | some cursors ↦
      let (cursors', won) = claim_chat_comment cursors (comment_key evt) evt.comment.id in
      let s' = record s { chat_comment_cursors = some cursors' } in
      if won then hand_off s' evt cmd else (s', accepted)
]

unfoldable pub handle_issue_comment :
    Decoder CiReviewRequest → AppState → List ℕ → AppState × Response
handle_issue_comment d s body = elim (d.issue_comment body) [
  | err e ↦ (count Metrics.record_payload_failure s, reject 400 (codes "payload decode: " ++ e))
  | ok evt ↦
      if not (is_created evt.action)
      then (s, accepted)
      else if not (is_pull_request_comment evt)
      then (s, accepted)
      else if is_bot_self evt.sender.login s.bot_login
      then (s, accepted)
      else let cmd = parse_chat_command evt.comment.body s.bot_name in
        if is_mention cmd
        then claim_and_hand_off (count Metrics.record_chat_command s) evt cmd
        else (s, accepted)
]

-- The `match event`.
unfoldable pub route : Decoder CiReviewRequest → AppState → Text → List ℕ → AppState × Response
unfolding text_eq
route d s event body =
    if text_eq event (codes "pull_request")
    then handle_pull_request d s body
    else if text_eq event (codes "issue_comment")
    then handle_issue_comment d s body
    else if text_eq event (codes "ping")
    then (s, record { status = 200; message = codes "pong" })
    else (s, accepted)

-- The dedup check: the state after it, and whether the delivery is a duplicate. A storage error
-- lets the delivery through.
unfoldable pub dedup_delivery : AppState → Request → AppState × Bool
dedup_delivery s req = elim s.webhook_dedup [
  | none ↦ (s, false)
  | some dedup ↦ elim (header req.headers (codes "x-forgejo-delivery") (codes "x-gitea-delivery")) [
    | none ↦ (s, false)
    | some id ↦
        let (dedup', answer) = dyn_check_and_record req.storage_fails dedup id in
        let s' = record s { webhook_dedup = some dedup' } in
        elim answer [
          | ok duplicate ↦ (count Metrics.record_duplicate s', true)
          | ok first_sight ↦ (s', false)
          | err e ↦ (s', false)
        ]
  ]
]

unfoldable pub event_of : Request → Text
event_of req = elim (header req.headers (codes "x-forgejo-event") (codes "x-gitea-event")) [
  | none ↦ []
  | some event ↦ event
]

-- What follows a valid signature.
unfoldable pub deliver : Decoder CiReviewRequest → AppState → Request → AppState × Response
unfolding event_of
deliver d s req =
    let event = event_of req in
    let (s', seen) = dedup_delivery (count (Metrics.record_event event) s) req in
    if seen
    then (s', record { status = 200; message = codes "duplicate" })
    else route d s' event req.body

unfoldable pub signature_status : HmacError → ℕ
signature_status mismatch = 401
signature_status missing = 400
signature_status not_hex = 400
signature_status invalid_secret = 500

unfoldable pub error_text : HmacError → Text
error_text missing = codes "missing signature header"
error_text not_hex = codes "signature header is not valid hex"
error_text mismatch = codes "signature does not match"
error_text invalid_secret = codes "invalid secret"

-- The global throttle, before any signature is computed.
unfoldable pub throttle : AppState → ℕ → AppState × Bool
throttle s now = elim s.webhook_rate_limit [
  | none ↦ (s, true)
  | some bucket ↦
      let (bucket', allowed) = try_take_at bucket now in
      (record s { webhook_rate_limit = some bucket' }, allowed)
]

unfoldable pub authenticate :
    Crypto → Decoder CiReviewRequest → AppState → Request → AppState × Response
unfolding signature_status error_text reject
authenticate c d s req =
    elim (header req.headers (codes "x-forgejo-signature") (codes "x-gitea-signature")) [
      | none ↦ (count Metrics.record_signature_failure s, reject 401 (codes "missing signature"))
      | some sig ↦ elim (verify c s.webhook_secret req.body sig) [
        | err e ↦ (
          count Metrics.record_signature_failure s,
          reject (signature_status e) (codes "signature: " ++ error_text e),
        )
        | ok _ ↦ deliver d s req
      ]
    ]

unfoldable pub handle : Crypto → Decoder CiReviewRequest → AppState → Request → AppState × Response
handle c d s req =
    let (s', allowed) = throttle s req.now in
    if allowed
    then authenticate c d s' req
    else (count Metrics.record_rate_limited s', reject 429 (codes "rate limit"))
