-- ===== src/Orchestrator/Dispatcher/Protocol.antt =====
-- crates/ar-orchestrator/src/dispatcher.rs: the statuses, observations and records of one job.
use auto_review.Prelude.{
  ◌≤◌, ◌≡◌, refl, ap, ◌⊎◌, inl, inr, Bool, true, false, not, ◌&&◌, Option, List, [], ◌∷◌, ◌++◌,
  Result, ok, err, arith, Bool-cases,
}
use auto_review.Prelude.Keys.{member, text_key}
use auto_review.Prelude.Text.{Text, codes, text_eq}
use auto_review.Prelude.Boundary.{byte_len, len_utf8}
use auto_review.Forge.{CommitStatusState}
use auto_review.Llm.{Router}
use auto_review.Orchestrator.History.{History, last_reviewed, record_review, record_with_cost}
use auto_review.Orchestrator.Jobs.{ReviewJob, pr_key_of}
use auto_review.Review.Triage.{pr_is_skippable}
use auto_review.Review.Heal.{ReviewError, llm, host, unhealable, workspace, panicked}
use auto_review.Review.Host.{ReviewHost}
use auto_review.Review.Pipeline.{review_pull_request}
use auto_review.Review.Args.{ReviewArgs, ReviewOutcome, Parts}
use auto_review.Orchestrator.Dispatcher.{
  WorkspacePrepOutput, default_prep, JobState, JobParts, pr_ref, is_same_sha, observe,
  post_review_status, skip, incremental_diff, review_args, conclude_job, run_review, after_pending,
  run_review_job, supervise, dispatch,
}
use auto_review.Orchestrator.Report.{
  max_status_description, ReviewObservation, started, succeeded, skipped, review_summary,
  truncate_status_description, error_state, error_class,
}
use auto_review.Orchestrator.Dispatcher.Endings.{
  status, pending_status, snoc_snoc, known_reasons, IsIdle, IsSkipped, IsEnded,
  truncate_status_description-le,
}

module _ {H W : Type 0} (review_host : ReviewHost H) (router : Router W) (parts : Parts)
    (job_parts : JobParts H W) where
  -- The review of the job's commit of its pull request that left the models as they are in the state
  -- has that result.
  abbrev pub IsReviewed : ReviewJob → JobState H W → Result ReviewError ReviewOutcome → Type 0
  IsReviewed job t result =
      (args : ReviewArgs) × (h : H) × (w : W) × (args.pr
        ≡ record { owner = job.owner; repo = job.repo; pr_number = job.pr_number })
      × (args.head_sha ≡ job.head_sha)
      × ((review_pull_request review_host router parts args h w).1 ≡ result)
      × (t.world ≡ (review_pull_request review_host router parts args h w).0.llm_state.world)

  abbrev pub Ends : ReviewJob → JobState H W → JobState H W → Type 0
  Ends job s s' = IsEnded (IsReviewed job s') job s s'

  -- A state in which the pending status is posted.
  abbrev IsPending : JobState H W → JobState H W → Type 0
  IsPending s t =
      (t.statuses ≡ s.statuses ++ pending_status ∷ [])
      × (t.observations ≡ s.observations)
      × (t.history ≡ s.history)

  skip-IsSkipped :
      (job : ReviewJob) (d r : Text) (s t : JobState H W)
      → member r known_reasons ≡ true
      → IsPending s t
      → IsSkipped s (skip review_host router parts job_parts job d r t)
  unfolding skip observe post_review_status
  skip-IsSkipped job d r s t k (e, o, h) = (
    d,
    r,
    k,
    snoc_snoc t.statuses s.statuses pending_status (status CommitStatusState.success d) e,
    ap (λ (l : List ReviewObservation). l ++ skipped r ∷ []) o,
    h,
  )

  crash_short : byte_len (codes "auto_review crashed; check logs") ≤ max_status_description
  unfolding byte_len len_utf8
  crash_short = omega arith

  short : (s : Text) → byte_len (truncate_status_description s) ≤ max_status_description
  short s = (truncate_status_description-le s).0

  conclude_job-IsEnded :
      (job : ReviewJob) (r : Result ReviewError ReviewOutcome) (s t : JobState H W)
      → IsReviewed job t r
      → t.statuses ≡ s.statuses ++ pending_status ∷ []
      → t.observations ≡ s.observations ++ started ∷ []
      → t.history ≡ s.history
      → Ends job s (
          supervise review_host router parts job_parts job
            (conclude_job review_host router parts job_parts job r t))
  unfolding supervise conclude_job observe post_review_status error_state error_class
      record_with_cost record_review text_eq
  conclude_job-IsEnded job (ok outcome) s t made e o h = inr (
      inl (
        outcome,
        made,
        snoc_snoc t.statuses s.statuses pending_status
            (status CommitStatusState.success (review_summary outcome)) e,
        snoc_snoc t.observations s.observations started
            (succeeded outcome.findings_count outcome.verifier_dropped) o,
        ap (λ (m : History). record_review m (pr_key_of job) job.head_sha) h,
      ))
  conclude_job-IsEnded job (err panicked) s t made e o h = inr (
      inr (
        panicked,
        CommitStatusState.error,
        (codes "auto_review crashed; check logs"),
        (codes "panic"),
        made,
        (refl, refl),
        refl,
        crash_short,
        snoc_snoc _ _ _ _ e,
        snoc_snoc _ _ _ _ o,
        h,
      ))
  conclude_job-IsEnded job (err (llm x)) s t made e o h = inr (
      inr (
        (llm x),
        CommitStatusState.failure,
        _,
        (codes "llm"),
        made,
        (refl, refl),
        refl,
        short _,
        snoc_snoc _ _ _ _ e,
        snoc_snoc _ _ _ _ o,
        h,
      ))
  conclude_job-IsEnded job (err (host x)) s t made e o h = inr (
      inr (
        (host x),
        CommitStatusState.error,
        _,
        (codes "forgejo"),
        made,
        (refl, refl),
        refl,
        short _,
        snoc_snoc _ _ _ _ e,
        snoc_snoc _ _ _ _ o,
        h,
      ))
  conclude_job-IsEnded job (err (unhealable k x)) s t made e o h = inr (
      inr (
        (unhealable k x),
        CommitStatusState.failure,
        _,
        (codes "unhealable"),
        made,
        (refl, refl),
        refl,
        short _,
        snoc_snoc _ _ _ _ e,
        snoc_snoc _ _ _ _ o,
        h,
      ))
  conclude_job-IsEnded job (err (workspace x)) s t made e o h = inr (
      inr (
        (workspace x),
        CommitStatusState.error,
        _,
        (codes "workspace"),
        made,
        (refl, refl),
        refl,
        short _,
        snoc_snoc _ _ _ _ e,
        snoc_snoc _ _ _ _ o,
        h,
      ))

  run_review-IsEnded :
      (job : ReviewJob) (last inc : Option Text) (prep : WorkspacePrepOutput) (s t : JobState H W)
      → IsPending s t
      → Ends job s (
          supervise review_host router parts job_parts job
            (run_review review_host router parts job_parts job last inc prep t))
  unfolding run_review observe review_args pr_ref
  run_review-IsEnded job last inc prep s t (e, o, h) =
      let r =
        review_pull_request review_host router parts
          (review_args review_host router parts job_parts job last inc prep) t.host_state t.world in
      let args = review_args review_host router parts job_parts job last inc prep in
      conclude_job-IsEnded job r.1 s
        (record t {
          host_state = r.0.host_state;
          world = r.0.llm_state.world;
          observations = t.observations ++ started ∷ [];
        })
        (args, t.host_state, t.world, refl, refl, refl, refl) e
        (ap (λ (l : List ReviewObservation). l ++ started ∷ []) o) h

  after_pending-IsEnded :
      (job : ReviewJob) (last inc : Option Text) (s t : JobState H W)
      → IsPending s t
      → Ends job s (
          supervise review_host router parts job_parts job
            (after_pending review_host router parts job_parts job last inc t))
  unfolding after_pending supervise run_review review_args text_eq
  after_pending-IsEnded job last inc s t p =
      let files = review_host.list_changed_files (pr_ref job) t.host_state in
      let trivial : Bool = elim files.1 [ ok fs ↦ pr_is_skippable fs | err e ↦ false ] in
      elim (Bool-cases trivial) [
        | inl all_trivial ↦
            rw (all_trivial, after_pending)
              (inl (skip-IsSkipped job _ _ s (record t { host_state = files.0 }) refl p))
        | inr nontrivial ↦
            let (h', w, prepared) = job_parts.prepare_workspace_context job files.0 t.world in
            let t' : JobState H W = record t { host_state = h'; world = w } in
            let prep : WorkspacePrepOutput = elim prepared [
              | ok q ↦ q
              | err e ↦ default_prep job_parts.default_metadata_check
            ] in
            elim (Bool-cases prep.skipped_by_config) [
              | inl disabled ↦
                  rw (nontrivial, disabled, after_pending)
                    (inl (skip-IsSkipped job _ _ s t' refl p))
              | inr enabled ↦
                  rw (nontrivial, enabled, after_pending)
                    (run_review-IsEnded job last inc prep s t' p)
            ]
      ]

  -- A job for the commit that was recorded last posts nothing and is counted as skipped, unless it
  -- is forced. Every other job posts a pending status and then exactly one final status, whatever
  -- fails: success with one `skipped`; success with `started` and `succeeded` and the summary of the
  -- outcome that the review of the commit has; or, where the review has an error, the state and the
  -- class of that error, with a description of at most 240 bytes and `started` and `failed`, a panic
  -- of the review included. It records its commit as reviewed when the review succeeded, and
  -- changes no record otherwise.
  pub dispatch-IsEnded :
      (job : ReviewJob) (s : JobState H W)
      → ((is_same_sha (last_reviewed s.history (pr_key_of job)) job.head_sha && not job.force
            ≡ true)
          × IsIdle s (dispatch review_host router parts job_parts job s))
        ⊎ ((is_same_sha (last_reviewed s.history (pr_key_of job)) job.head_sha && not job.force
              ≡ false)
            × Ends job s (dispatch review_host router parts job_parts job s))
  unfolding dispatch run_review_job
  dispatch-IsEnded job s =
      let last = last_reviewed s.history (pr_key_of job) in
      elim (Bool-cases (is_same_sha last job.head_sha && not job.force)) [
        | inl same ↦ inl (same, rw (same, run_review_job) idle)
        | inr new ↦
            let inc = incremental_diff review_host router parts job_parts job last s.host_state in
            inr (
              new,
              rw (new, run_review_job)
                  (after_pending-IsEnded job last inc.1 s
                    (post_review_status review_host router parts job_parts job
                      CommitStatusState.pending (codes "auto_review running")
                      (record s { host_state = inc.0 }))
                    (pending inc.0)),
            )
      ]
    where
      idle : IsIdle s (
          supervise review_host router parts job_parts job
            (observe review_host router parts job_parts (skipped (codes "same_sha")) s, false))
      idle = unfold supervise in unfold observe in (refl, refl, refl)

      pending :
          (h : H)
          → IsPending s (
              post_review_status review_host router parts job_parts job CommitStatusState.pending
                (codes "auto_review running")
                (record s { host_state = h }))
      pending h = unfold post_review_status in (refl, refl, refl)
