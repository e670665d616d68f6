-- ===== src/Gateway/CiReview.antt =====
-- crates/ar-gateway/src/webhook.rs: the CI endpoint, which dispatches reviews.
pub mod Guard
use auto_review.Prelude.{
  ℕ, Bool, true, false, not, ◌&&◌, ◌||◌, Option, none, some, List, [], ◌∷◌, ◌++◌, Result, ok, err,
  leb, ◌==◌, if◌then◌else◌, length, is_empty, all,
}
use auto_review.Prelude.Text.{Text, codes, text_eq, strip_prefix, eq_ignore_ascii_case}
use auto_review.Forge.{HostError, PullRequestSummary}
use auto_review.Orchestrator.Jobs.{ReviewJob}
use auto_review.Gateway.Metrics
use auto_review.Gateway.Webhook.State.{
  AppState, Request, Response, Decoder, Effect, dispatch, count, reject,
}
use auto_review.Gateway.Webhook.{CiReviewRequest, accepted}
use auto_review.Prelude.Keys.{text_key, lookup}

-- `get_pull_request` of the Forgejo client.
abbrev pub GetPullRequest : Type 0
GetPullRequest = Text → Text → ℕ → Result HostError PullRequestSummary

unfoldable pub is_ascii_alphanumeric : ℕ → Bool
is_ascii_alphanumeric c =
    (leb b'0' c && leb c b'9') || (leb b'A' c && leb c b'Z') || (leb b'a' c && leb c b'z')

unfoldable pub is_safe_byte : ℕ → Bool
unfolding is_ascii_alphanumeric
is_safe_byte c = is_ascii_alphanumeric c || c == b'.' || c == b'_' || c == b'-'

unfoldable pub is_safe_repo_path_segment : Text → Bool
unfolding text_eq is_safe_byte
is_safe_repo_path_segment segment =
    not (is_empty segment || text_eq segment (codes ".") || text_eq segment (codes ".."))
    && all is_safe_byte segment

-- Whether the `authorization` header carries the action token.
unfoldable pub is_authorized : Text → Request → Bool
is_authorized action_token req = elim (lookup (codes "authorization") req.headers) [
  | none ↦ false
  | some value ↦ elim value [
    | none ↦ false
    | some v ↦ elim (strip_prefix (codes "Bearer ") v) [
      | none ↦ false
      | some token ↦ length action_token == length token && text_eq action_token token
    ]
  ]
]

-- The checks of the pull request as the host has it now, and the dispatch.
unfoldable pub review_current :
    AppState → CiReviewRequest → PullRequestSummary → AppState × Response
review_current s r pr =
    if not (text_eq pr.head.sha r.head_sha)
    then (s, reject 409 (codes "stale head_sha"))
    else if pr.draft || not (eq_ignore_ascii_case pr.state (codes "open"))
    then (s, reject 409 (codes "pull request is not reviewable"))
    else let job : ReviewJob = record {
      owner = r.owner;
      repo = r.repo;
      pr_number = r.pr_number;
      head_sha = r.head_sha;
      pr_title = pr.title;
      pr_body = pr.body;
      force = r.force;
    } in
      (
        count Metrics.record_job_dispatched (record s { log = s.log ++ dispatch job ∷ [] }),
        accepted,
      )

unfoldable pub check_request : GetPullRequest → AppState → CiReviewRequest → AppState × Response
check_request get_pull_request s r =
    if not (is_safe_repo_path_segment r.owner) || not (is_safe_repo_path_segment r.repo)
    then (s, reject 400 (codes "unsafe owner/repo path segment"))
    else elim (get_pull_request r.owner r.repo r.pr_number) [
      | err _ ↦ (s, reject 502 (codes "fetch pull request failed"))
      | ok pr ↦ review_current s r pr
    ]

unfoldable pub handle_ci_review :
    Decoder CiReviewRequest → GetPullRequest → AppState → Request → AppState × Response
handle_ci_review d get_pull_request s req = elim s.ci_review_endpoint [
  | none ↦ (s, reject 404 (codes "ci review endpoint not configured"))
  | some action_token ↦
      if not (is_authorized action_token req)
      then (s, reject 401 (codes "unauthorized"))
      else elim (d.ci_review req.body) [
        | err e ↦ (s, reject 400 (codes "payload decode: " ++ e))
        | ok r ↦ check_request get_pull_request s r
      ]
]
