-- ===== src/Gateway/CiReview/Guard.antt =====
-- crates/ar-gateway/src/webhook.rs: when the CI endpoint dispatches, and what it dispatches.
use auto_review.Prelude.{
  ◌==◌, Bool-cases, ◌⊎◌, ◌≡◌, ◌≢◌, inl, inr, true, false, some, [], ◌∷◌, ◌++◌, ok, arith,
  Option-cases, Result-cases, ap,
}
use auto_review.Prelude.Text.{Text, codes, text_eq_iff, eq_ignore_ascii_case}
use auto_review.Forge.{PullRequestSummary}
use auto_review.Orchestrator.Jobs.{ReviewJob}
use auto_review.Gateway.Webhook.State.{AppState, Request, Decoder, dispatch, reject}
use auto_review.Gateway.Webhook.{CiReviewRequest, accepted}
use auto_review.Gateway.CiReview.{
  GetPullRequest, is_safe_repo_path_segment, is_authorized, review_current, check_request,
  handle_ci_review,
}

-- All that has to hold for a request to start a review of `pr`.
pub record IsReviewable (d : Decoder CiReviewRequest) (g : GetPullRequest) (s : AppState)
    (req : Request) (r : CiReviewRequest) (pr : PullRequestSummary) : Type 0 where
  pub authorized :
      (token : Text) × (s.ci_review_endpoint ≡ some token) × (is_authorized token req ≡ true)
  pub decoded : d.ci_review req.body ≡ ok r
  pub owner : is_safe_repo_path_segment r.owner ≡ true
  pub repo : is_safe_repo_path_segment r.repo ≡ true
  pub fetched : g r.owner r.repo r.pr_number ≡ ok pr
  pub head : pr.head.sha ≡ r.head_sha
  pub draft : pr.draft ≡ false
  pub open_state : eq_ignore_ascii_case pr.state (codes "open") ≡ true

abbrev pub job_of : CiReviewRequest → PullRequestSummary → ReviewJob
job_of r pr = record {
  owner = r.owner;
  repo = r.repo;
  pr_number = r.pr_number;
  head_sha = pr.head.sha;
  pr_title = pr.title;
  pr_body = pr.body;
  force = r.force;
}

current_accepted :
    (s : AppState) (r : CiReviewRequest) (pr : PullRequestSummary)
    → (review_current s r pr).1.status ≡ 202
    → (pr.head.sha ≡ r.head_sha)
      × (pr.draft ≡ false)
      × (eq_ignore_ascii_case pr.state (codes "open") ≡ true)
unfolding review_current reject
current_accepted s r pr h = ground (arith, text_eq_iff pr.head.sha r.head_sha)

current_rejected :
    (s : AppState) (r : CiReviewRequest) (pr : PullRequestSummary)
    → (review_current s r pr).1.status ≢ 202
    → (review_current s r pr).0 ≡ s
unfolding review_current
current_rejected s r pr h = ground arith

module _ (d : Decoder CiReviewRequest) (g : GetPullRequest) (s : AppState) (req : Request) where
  -- A request that passes every check is accepted, and exactly one job is dispatched, for the
  -- head that the host reports.
  handle_ci_review-dispatch :
      (r : CiReviewRequest) (pr : PullRequestSummary)
      → IsReviewable d g s req r pr
      → ((handle_ci_review d g s req).0.log ≡ s.log ++ dispatch (job_of r pr) ∷ [])
        × ((handle_ci_review d g s req).1 ≡ accepted)
  unfolding handle_ci_review check_request review_current
  handle_ci_review-dispatch r pr h = ground (arith, text_eq_iff pr.head.sha r.head_sha)

  check_accepted :
      (r : CiReviewRequest)
      → (check_request g s r).1.status ≡ 202
      → (is_safe_repo_path_segment r.owner ≡ true)
        × (is_safe_repo_path_segment r.repo ≡ true)
        × (pr : PullRequestSummary) × (g r.owner r.repo r.pr_number ≡ ok pr)
        × ((review_current s r pr).1.status ≡ 202)
  unfolding check_request reject
  check_accepted r h = elim (Result-cases (g r.owner r.repo r.pr_number)) [
    | inl (pr, e) ↦ (ground arith, ground arith, pr, e, ground arith)
    | inr (e, f) ↦ absurd (ground arith)
  ]

  -- A request is accepted only if every check passed: the token, the payload, the path segments,
  -- the head as the host has it now, and an open pull request that is no draft.
  handle_ci_review-accepted :
      (handle_ci_review d g s req).1.status ≡ 202
      → (r : CiReviewRequest) × (pr : PullRequestSummary) × IsReviewable d g s req r pr
  unfolding handle_ci_review reject
  handle_ci_review-accepted h = elim (Option-cases s.ci_review_endpoint) [
    | inl e ↦ absurd (ground arith)
    | inr (token, e) ↦ elim (Result-cases (d.ci_review req.body)) [
      | inr (msg, f) ↦ absurd (ground arith)
      | inl (r, f) ↦
          let (owner, repo, pr, got, rest) = check_accepted r (ground arith) in
          let (head, draft, state) = current_accepted s r pr rest in
          (
            r,
            pr,
            record {
              authorized = (token, e, ground arith);
              decoded = f;
              owner = owner;
              repo = repo;
              fetched = got;
              head = head;
              draft = draft;
              open_state = state;
            },
          )
    ]
  ]

  check_rejected :
      (r : CiReviewRequest) → (check_request g s r).1.status ≢ 202 → (check_request g s r).0 ≡ s
  unfolding check_request
  check_rejected r h = elim (Result-cases (g r.owner r.repo r.pr_number)) [
    | inl (pr, e) ↦ ground (arith, current_rejected s r pr)
    | inr (e, f) ↦ ground arith
  ]

  -- Any other answer leaves the state as it was: nothing is dispatched and nothing counted.
  handle_ci_review-rejected :
      (handle_ci_review d g s req).1.status ≢ 202 → (handle_ci_review d g s req).0 ≡ s
  unfolding handle_ci_review
  handle_ci_review-rejected h = elim (Option-cases s.ci_review_endpoint) [
    | inl e ↦ ground arith
    | inr (token, e) ↦ elim (Result-cases (d.ci_review req.body)) [
      | inr (msg, f) ↦ ground arith
      | inl (r, f) ↦ ground (arith, check_rejected r)
    ]
  ]

  -- The endpoint either does not accept a request, which then is not one that passes every check
  -- (the token, the payload, the path segments, the head as the host has it now, and an open pull
  -- request that is no draft), and leaves the state as it was, or the request passes every check,
  -- is accepted, and exactly one job is dispatched, for the head that the host reports.
  pub handle_ci_review_lem :
      (((handle_ci_review d g s req).1.status ≢ 202)
        × ((handle_ci_review d g s req).0 ≡ s)
        × ¬ ((r : CiReviewRequest) × (pr : PullRequestSummary) × IsReviewable d g s req r pr))
      ⊎ ((r : CiReviewRequest) × (pr : PullRequestSummary) × IsReviewable d g s req r pr
          × ((handle_ci_review d g s req).0.log ≡ s.log ++ dispatch (job_of r pr) ∷ [])
          × ((handle_ci_review d g s req).1 ≡ accepted))
  handle_ci_review_lem = elim (Bool-cases ((handle_ci_review d g s req).1.status == 202)) [
    | inl granted ↦
        let (r, pr, h) = handle_ci_review-accepted (ground arith) in
        let (logged, answered) = handle_ci_review-dispatch r pr h in
        inr (r, pr, h, logged, answered)
    | inr denied ↦
        let refused : (handle_ci_review d g s req).1.status ≢ 202 = λ e. ground arith in
        inl (
          refused,
          handle_ci_review-rejected refused,
          λ (r, pr, h). refused (ap (λ a. a.status) (handle_ci_review-dispatch r pr h).1),
        )
  ]
