-- ===== src/Gateway/Webhook/State.antt =====
-- crates/ar-gateway/src/lib.rs and webhook.rs: the shared state, requests, responses and effects.
use auto_review.Prelude.{ℕ, Bool, Option, none, some, List, Result}
use auto_review.Prelude.Text.{Text}
use auto_review.Prelude.Keys.{text_key, lookup}
use auto_review.Forgejo.{PullRequestEvent, IssueCommentEvent}
use auto_review.Chat.Command.{ChatCommand}
use auto_review.Orchestrator.Jobs.{ReviewJob}
use auto_review.Gateway.Cursors.{Cursors}
use auto_review.Gateway.Dedup.{DeliveryDedup}
use auto_review.Gateway.Hmac.{Bytes}
use auto_review.Gateway.Metrics.{WebhookCounters}
use auto_review.Gateway.RateLimit.{TokenBucket}

-- The task that `handle_issue_comment` spawns: `ChatContext` and the command.
pub record ChatTask : Type 0 where
  pub owner : Text
  pub repo : Text
  pub issue_number : ℕ
  pub commenter_login : Text
  pub bot_login : Text
  pub command : ChatCommand

pub data Effect : Type 0 where
  spawn_chat : ChatTask → Effect
  dispatch : ReviewJob → Effect

-- `AppState`, without what the handlers below do not read. `chat` says whether `ChatDeps` are
-- there; the CI endpoint is its action token.
pub record AppState : Type 0 where
  pub webhook_secret : Text
  pub chat : Bool
  pub metrics : WebhookCounters
  pub bot_login : Text
  pub bot_name : Text
  pub webhook_rate_limit : Option TokenBucket
  pub webhook_dedup : Option DeliveryDedup
  pub chat_comment_cursors : Option Cursors
  pub ci_review_endpoint : Option Text
  pub log : List Effect

-- A request, the clock when it is handled, and whether the dedup storage fails then. A header's
-- value is `none` where `to_str` refuses it.
pub record Request : Type 0 where
  pub headers : List (Text × Option Text)
  pub body : Bytes
  pub now : ℕ
  pub storage_fails : Bool

pub record Response : Type 0 where
  pub status : ℕ
  pub message : Text

-- `serde_json` on the payloads, with its error text, and the Forgejo API.
pub record Decoder (Ci : Type 0) : Type 0 where
  pub pull_request : Bytes → Result Text PullRequestEvent
  pub issue_comment : Bytes → Result Text IssueCommentEvent
  pub ci_review : Bytes → Result Text Ci

-- `headers.get(name).or_else(|| headers.get(fallback)).and_then(|v| v.to_str().ok())`
unfoldable pub header : List (Text × Option Text) → Text → Text → Option Text
unfolding lookup
header headers name fallback = elim (lookup name headers) [
  | some value ↦ value
  | none ↦ elim (lookup fallback headers) [ some value ↦ value | none ↦ none ]
]

-- A counter is bumped.
abbrev pub count : (WebhookCounters → WebhookCounters) → AppState → AppState
count f s = record s { metrics = f s.metrics }

unfoldable pub reject : ℕ → Text → Response
reject status message = record { status = status; message = message }
