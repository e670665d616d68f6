-- ===== src/Orchestrator/Dispatcher.antt =====
-- crates/ar-orchestrator/src/dispatcher.rs: one review job from the pending status to the final one.
-- The preparation of a workspace (clone, configuration, retrieval of context) is a parameter, as
-- are the host and the models; durations are not modelled.
use auto_review.Prelude.{
  ℕ, ◌-◌, Bool, true, false, not, ◌&&◌, ◌||◌, Option, none, some, List, [], ◌∷◌, ◌++◌, Result, ok,
  err, ltb, leb, ◌==◌, if◌then◌else◌, is_empty, is_some,
}
use auto_review.Prelude.Text.{Text, codes, text_eq, trim, to_ascii_lowercase, eq_ignore_ascii_case}
use auto_review.Prelude.Boundary.{byte_len, truncate_at}
use auto_review.Prelude.Search.{show_nat, join}
use auto_review.Forge.{HostError, CommitStatusState, CommitStatus, ChangedFile}
use auto_review.Llm.{LlmState, Router}
use auto_review.Orchestrator.History.{History, last_reviewed, record_with_cost}
use auto_review.Orchestrator.Jobs.{ReviewJob, pr_key_of}
use auto_review.Review.Types.{ReviewSeverity, note, warning, error}
use auto_review.Review.Ignored.{GlobSet}
use auto_review.Review.Triage.{pr_is_skippable}
use auto_review.Review.Agentic.{Tools}
use auto_review.Review.Heal.{ReviewError, llm, host, unhealable, workspace, panicked}
use auto_review.Review.Host.{PrRef, ReviewHost}
use auto_review.Review.Pipeline.{review_pull_request}
use auto_review.Review.Args.{
  VerifyMode, simple, agentic, ReviewOutcome, PrMetadataCheck, ReviewArgs, Parts, ReviewState,
}
use auto_review.Orchestrator.Report.{
  ReviewObservation, started, succeeded, failed, skipped, queue_wait, plural, review_summary,
  max_status_description, truncate_status_description, error_state, error_class, status_context,
}
pub mod Endings
pub mod Protocol

unfoldable pub severity_of_name : Text → ReviewSeverity
severity_of_name name =
    if text_eq name (codes "note")
    then note
    else if text_eq name (codes "error") || text_eq name (codes "err")
    then error
    else warning

unfoldable pub parse_severity_floor : Option Text → ReviewSeverity
parse_severity_floor none = warning
parse_severity_floor (some raw) = severity_of_name (to_ascii_lowercase (trim raw))

pub record WorkspacePrepOutput : Type 0 where
  pub skipped_by_config : Bool
  pub ignored_paths : GlobSet
  pub guidelines : Text
  pub repo_context : Text
  pub raw_diff : Text
  pub workspace : Option Tools
  pub pr_metadata_check : PrMetadataCheck

-- What a review goes on with when the preparation failed.
unfoldable pub default_prep : PrMetadataCheck → WorkspacePrepOutput
default_prep check = record {
  skipped_by_config = false;
  ignored_paths = record { no_globs = true; is_match = λ _. false };
  guidelines = [];
  repo_context = [];
  raw_diff = [];
  workspace = none;
  pr_metadata_check = check;
}

pub record JobState (H W : Type 0) : Type 0 where
  pub host_state : H
  pub world : W
  pub history : History
  -- The commit statuses that were posted and the observations that were made, in order.
  pub statuses : List CommitStatus
  pub observations : List ReviewObservation

-- The rest of the trait `ReviewHost`, the preparation, and the environment.
pub record JobParts (H W : Type 0) : Type 0 where
  pub get_compare_diff : ReviewJob → Text → H → H × Result HostError Text
  pub post_commit_status : ReviewJob → CommitStatus → H → H × Result HostError (Unit {0})
  pub prepare_workspace_context : ReviewJob → H → W → H × W × Result Text WorkspacePrepOutput
  pub default_metadata_check : PrMetadataCheck
  -- `AR_AGENTIC_VERIFIER`, `AR_SEVERITY_FLOOR`
  pub agentic_verifier : Option Text
  pub severity_floor : Option Text
  pub error_text : ReviewError → Text

unfoldable pub agentic_requested : Option Text → Bool
agentic_requested none = false
agentic_requested (some v) = text_eq v (codes "1") || eq_ignore_ascii_case v (codes "true")

unfoldable pub or_text : Option Text → Text → Option Text
or_text (some d) raw = some d
or_text none raw = if is_empty raw then none else some raw

unfoldable pub pr_ref : ReviewJob → PrRef
pr_ref job = record { owner = job.owner; repo = job.repo; pr_number = job.pr_number }

-- Whether the recorded SHA is the job's.
unfoldable pub is_same_sha : Option Text → Text → Bool
is_same_sha none sha = false
is_same_sha (some prev) sha = text_eq prev sha

module _ {H W : Type 0} (review_host : ReviewHost H) (router : Router W) (parts : Parts)
    (job_parts : JobParts H W) where
  unfoldable pub observe : ReviewObservation → JobState H W → JobState H W
  observe o s = record s { observations = s.observations ++ o ∷ [] }

  -- A failure to post is only logged.
  unfoldable pub post_review_status :
      ReviewJob → CommitStatusState → Text → JobState H W → JobState H W
  post_review_status job state description s =
      let status : CommitStatus = record {
        state = state;
        target_url = [];
        description = description;
        context = status_context;
      } in
      record s {
        host_state = (job_parts.post_commit_status job status s.host_state).0;
        statuses = s.statuses ++ status ∷ [];
      }

  unfoldable pub skip : ReviewJob → Text → Text → JobState H W → JobState H W
  skip job description reason s =
      observe (skipped reason) (post_review_status job CommitStatusState.success description s)

  unfoldable pub fetch_incremental_diff : ReviewJob → Text → H → H × Option Text
  fetch_incremental_diff job previous_sha h =
      let (h', answer) = job_parts.get_compare_diff job previous_sha h in
      elim answer [ ok diff ↦ (h', some diff) | err e ↦ (h', none) ]

  -- The diff since the recorded SHA, where that is another and the job is not forced.
  unfoldable pub incremental_diff : ReviewJob → Option Text → H → H × Option Text
  incremental_diff job none h = (h, none)
  incremental_diff job (some prev) h =
      if text_eq prev job.head_sha || job.force
      then (h, none)
      else fetch_incremental_diff job prev h

  unfoldable pub review_args :
      ReviewJob → Option Text → Option Text → WorkspacePrepOutput → ReviewArgs
  review_args job last inc prep = record {
    pr = pr_ref job;
    head_sha = job.head_sha;
    pr_title = job.pr_title;
    pr_body = job.pr_body;
    ignored_paths = prep.ignored_paths;
    guidelines = prep.guidelines;
    repo_context = prep.repo_context;
    diff_override = or_text inc prep.raw_diff;
    previous_review_sha = if is_some inc then last else none;
    verify_mode =
        if agentic_requested job_parts.agentic_verifier && is_some prep.workspace
        then agentic
        else simple;
    workspace = prep.workspace;
    min_severity = parse_severity_floor job_parts.severity_floor;
    pr_metadata_check = prep.pr_metadata_check;
  }

  -- The observation, the final status and the record; a panic leaves them to the supervisor.
  unfoldable pub conclude_job :
      ReviewJob → Result ReviewError ReviewOutcome → JobState H W → JobState H W × Bool
  conclude_job job (ok outcome) s =
      let s' =
        post_review_status job CommitStatusState.success (review_summary outcome)
          (observe (succeeded outcome.findings_count outcome.verifier_dropped) s) in
      (
        record s' { history = record_with_cost s'.history (pr_key_of job) job.head_sha outcome },
        false,
      )
  conclude_job job (err panicked) s = (s, true)
  conclude_job job (err e) s = (
    post_review_status job (error_state e)
        (truncate_status_description (codes "auto_review failed: " ++ job_parts.error_text e))
        (observe (failed (error_class e)) s),
    false,
  )

  unfoldable pub run_review :
      ReviewJob
      → Option Text
      → Option Text
      → WorkspacePrepOutput
      → JobState H W
      → JobState H W × Bool
  run_review job last inc prep s =
      let (r, result) =
        review_pull_request review_host router parts (review_args job last inc prep) s.host_state
          s.world in
      conclude_job job result
        (record (observe started s) { host_state = r.host_state; world = r.llm_state.world })

  -- From the pending status on.
  unfoldable pub after_pending :
      ReviewJob → Option Text → Option Text → JobState H W → JobState H W × Bool
  after_pending job last inc s =
      let (h, files) = review_host.list_changed_files (pr_ref job) s.host_state in
      let s' : JobState H W = record s { host_state = h } in
      let trivial : Bool = elim files [ ok fs ↦ pr_is_skippable fs | err e ↦ false ] in
      if trivial
      then (
        skip job (codes "auto_review: skipped (lockfile/vendored/generated only)")
            (codes "trivial_files") s',
        false,
      )
      else let (h', w, prepared) = job_parts.prepare_workspace_context job h s.world in
        let s'' : JobState H W = record s { host_state = h'; world = w } in
        let prep : WorkspacePrepOutput = elim prepared [
          | ok p ↦ p
          | err e ↦ default_prep job_parts.default_metadata_check
        ] in
        if prep.skipped_by_config
        then (
          skip job (codes "auto_review: disabled by repo config") (codes "disabled_by_config") s'',
          false,
        )
        else run_review job last inc prep s''

  -- The job, and whether its task panicked.
  unfoldable pub run_review_job : ReviewJob → JobState H W → JobState H W × Bool
  run_review_job job s =
      let last = last_reviewed s.history (pr_key_of job) in
      if is_same_sha last job.head_sha && not job.force
      then (observe (skipped (codes "same_sha")) s, false)
      else let (h, inc) = incremental_diff job last s.host_state in
        after_pending job last inc (
          post_review_status job CommitStatusState.pending (codes "auto_review running")
            (record s { host_state = h }))

  -- What a panic of the spawned task leads to.
  unfoldable pub supervise : ReviewJob → JobState H W × Bool → JobState H W
  supervise job (s, crashed) =
      if crashed
      then post_review_status job CommitStatusState.error (codes "auto_review crashed; check logs")
          (observe (failed (codes "panic")) s)
      else s

  -- `SpawningDispatcher::dispatch`: the body of the spawned task.
  unfoldable pub dispatch : ReviewJob → JobState H W → JobState H W
  dispatch job s = supervise job (run_review_job job s)
