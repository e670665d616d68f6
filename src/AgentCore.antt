-- ===== src/AgentCore.antt =====
-- crates/ar-agentcore/src/lib.rs: the runtime that takes invocations instead of webhooks.
-- JSON is read by serde; `Handled` is what axum makes of a handler's answer. The DynamoDB client and
-- the clock are parameters.
use auto_review.Prelude.{
  ℕ, ◌+◌, ◌-◌, ◌^◌, Bool, true, false, not, List, [], ◌∷◌, ◌++◌, Option, none, some, Result, ok,
  err, min, if◌then◌else◌,
}
use auto_review.Prelude.Text.{Text, codes, text_eq}
use auto_review.Prelude.Keys.{member, text_key}
use auto_review.Prelude.Search.{show_nat}
use auto_review.Forge.{HostError, PullRequestSummary}
use auto_review.Orchestrator.Jobs.{ReviewJob}
use auto_review.Review.Host.{PrRef}
pub mod Keys
pub mod Again

pub data Provider : Type 0 where
  forgejo github : Provider

pub data InvocationKind : Type 0 where
  semantic_review chat_command : InvocationKind

pub record InvocationPayload : Type 0 where
  pub provider : Provider
  pub kind : InvocationKind
  pub owner : Text
  pub repo : Text
  pub pr_number : ℕ
  pub head_sha : Text
  pub installation_id : Option ℕ
  pub force : Option Bool
  pub comment_id : Option ℕ
  pub comment_body : Option Text

-- `{:?}`
unfoldable pub provider_text : Provider → Text
provider_text forgejo = codes "Forgejo"
provider_text github = codes "Github"

unfoldable pub kind_text : InvocationKind → Text
kind_text semantic_review = codes "SemanticReview"
kind_text chat_command = codes "ChatCommand"

unfoldable pub comment_text : Option ℕ → Text
comment_text none = codes "-"
comment_text (some id) = show_nat id

unfoldable pub idempotency_key : InvocationPayload → Text
idempotency_key p =
    provider_text p.provider
    ++ b':'
      ∷ (kind_text p.kind
          ++ b':'
            ∷ (p.owner
                ++ b':'
                  ∷ (p.repo
                      ++ b':'
                        ∷ (show_nat p.pr_number
                            ++ b':' ∷ (p.head_sha ++ b':' ∷ comment_text p.comment_id)))))

pub record InvocationOutcome : Type 0 where
  pub status : Text
  pub message : Text

pub data InvocationErrorKind : Type 0 where
  invalid_payload stale_head execution_failed : InvocationErrorKind

pub record InvocationError : Type 0 where
  pub kind : InvocationErrorKind
  pub message : Text

-- The status and the body of a response: an outcome, or the name of an error and its message.
pub data Handled : Type 0 where
  outcome : ℕ → InvocationOutcome → Handled
  failure : ℕ → Text → Text → Handled

unfoldable pub as_str : InvocationErrorKind → Text
as_str invalid_payload = codes "invalid_payload"
as_str stale_head = codes "stale_head"
as_str execution_failed = codes "execution_failed"

unfoldable pub error_status : InvocationErrorKind → ℕ
error_status invalid_payload = 400
error_status stale_head = 409
error_status execution_failed = 500

unfoldable pub respond : Result InvocationError InvocationOutcome → Handled
respond (ok o) = outcome 200 o
respond (err e) = failure (error_status e.kind) (as_str e.kind) e.message

abbrev pub duplicate_outcome : Handled
duplicate_outcome =
    outcome 200
      (record { status = codes "duplicate"; message = codes "invocation already handled" })

-- `InMemoryInvocationIdempotency`: the keys that were seen.
unfoldable pub claim : Text → List Text → List Text × Result Text Bool
claim key seen = if member key seen then (seen, ok false) else (key ∷ seen, ok true)

abbrev pub i64_max : ℕ
i64_max = 2 ^ 63 - 1

pub data DynamoDbClaimResult : Type 0 where
  claimed duplicated : DynamoDbClaimResult

unfoldable pub is_claimed : Result Text DynamoDbClaimResult → Result Text Bool
is_claimed (ok claimed) = ok true
is_claimed (ok duplicated) = ok false
is_claimed (err e) = err e

-- `DynamoDbInvocationIdempotency::claim`, from `from_parts` on: the sum of the clock and the time
-- to live saturates, and the client is asked to write the key unless it is there.
module _ {C : Type 0} (put_claim : Text → Text → ℕ → C → C × Result Text DynamoDbClaimResult) where
  unfoldable pub dynamodb_claim : Text → ℕ → ℕ → Text → C → C × Result Text Bool
  dynamodb_claim table_name ttl_seconds now key c =
      let expires = min (now + min ttl_seconds i64_max) i64_max in
      let (c', answer) = put_claim table_name key expires c in (c', is_claimed answer)

-- What the handler has: the host, and the jobs that it gave to the dispatcher.
pub record AgentState (H : Type 0) : Type 0 where
  pub host_state : H
  pub dispatched : List ReviewJob

unfoldable pub job_of : InvocationPayload → PullRequestSummary → ReviewJob
job_of p pr = record {
  owner = p.owner;
  repo = p.repo;
  pr_number = p.pr_number;
  head_sha = p.head_sha;
  pr_title = pr.title;
  pr_body = pr.body;
  force = elim p.force [ none ↦ false | some f ↦ f ];
}

module _ {H : Type 0} (get_pull_request : PrRef → H → H × Result HostError PullRequestSummary) where
  unfoldable pub on_pull_request :
      InvocationPayload
      → AgentState H
      → H × Result HostError PullRequestSummary
      → AgentState H × Result InvocationError InvocationOutcome
  on_pull_request p s (h, err e) = (
    record s { host_state = h },
    err (record { kind = execution_failed; message = codes "fetch pull request: " ++ e.message }),
  )
  on_pull_request p s (h, ok pr) =
      if not (text_eq pr.head.sha p.head_sha)
      then (
        record s { host_state = h },
        err (record {
          kind = stale_head;
          message =
              codes "payload head_sha "
              ++ p.head_sha
              ++ codes " does not match current PR head "
              ++ pr.head.sha;
        }),
      )
      else (
        record { host_state = h; dispatched = s.dispatched ++ job_of p pr ∷ [] },
        ok (record { status = codes "dispatched"; message = codes "semantic review dispatched" }),
      )

  -- `SemanticReviewHandler::handle`
  unfoldable pub handle :
      InvocationPayload → AgentState H → AgentState H × Result InvocationError InvocationOutcome
  handle p s = elim p.kind [
    | chat_command ↦ (
      s,
      err (record {
        kind = invalid_payload;
        message = codes "only semantic_review invocations are supported";
      }),
    )
    | semantic_review ↦ on_pull_request p s (
        get_pull_request (record { owner = p.owner; repo = p.repo; pr_number = p.pr_number })
          s.host_state)
  ]

-- The endpoints, over any handler with its state and any store of claims.
module _ {S C : Type 0}
    (handler : InvocationPayload → S → S × Result InvocationError InvocationOutcome)
    (claim_key : Text → C → C × Result Text Bool) where
  abbrev pub rejected : Text → Handled
  rejected = failure 400 (codes "invalid_payload")

  unfoldable pub invocations_with_handler : Result Text InvocationPayload → S → S × Handled
  invocations_with_handler (err text) s = (s, rejected text)
  invocations_with_handler (ok p) s = let (s', answer) = handler p s in (s', respond answer)

  unfoldable pub after_claim : InvocationPayload → S → C × Result Text Bool → (S × C) × Handled
  after_claim p s (c, err e) = ((s, c), failure 500 (codes "idempotency_failed") e)
  after_claim p s (c, ok false) = ((s, c), duplicate_outcome)
  after_claim p s (c, ok true) = let (s', answer) = handler p s in ((s', c), respond answer)

  unfoldable pub invocations_with_idempotency :
      Result Text InvocationPayload → S × C → (S × C) × Handled
  invocations_with_idempotency (err text) (s, c) = ((s, c), rejected text)
  invocations_with_idempotency (ok p) (s, c) = after_claim p s (claim_key (idempotency_key p) c)
