-- ===== src/Review/Pipeline.antt =====
-- crates/ar-review/src/pipeline.rs, `review_pull_request`: one review of a pull request.
-- The texts of the prompts, the parsing of the model's JSON and the cost footer, which computes
-- with floating-point prices, are what `Parts` is asked for.
use auto_review.Prelude.{
  ℕ, ◌+◌, ◌-◌, Bool, true, false, not, ◌&&◌, ◌||◌, Option, none, some, List, [], ◌∷◌, ◌++◌, map,
  Result, ok, err, if◌then◌else◌, ◌==◌, is_empty, is_some, length, retain,
}
use auto_review.Prelude.Text.{Text, codes, trim}
use auto_review.Forge.{
  HostError, ReviewEvent, request_changes, ChangedFile, PrReviewComment, CreateReviewRequest,
  CreatedReview,
}
use auto_review.Llm.{
  cheap, user_message, CompleteRequest, UsageEntry, LlmState, Router, complete, has_provider,
}
use auto_review.Review.Types.{ReviewSeverity, ReviewFinding, ReviewOutput}
use auto_review.Review.Diff.{cap_diff, default_max_diff_bytes}
use auto_review.Review.Ignored.{
  GlobSet, filter_changed_files, filter_diff_paths, diff_changed_paths,
}
use auto_review.Review.Marker.{
  title_has_marker, body_has_section, strip_title_marker, strip_body_section,
}
use auto_review.Review.Filters.{
  severity_rank, drop_findings_outside_changed_paths, apply_severity_floor,
}
use auto_review.Review.Mapping.{output_to_review_request}
use auto_review.Review.Metadata.{
  PrMetadataValidation, validate_pr_metadata_title_length, has_clearly_acceptable_pr_metadata,
  is_empty_body_specific_metadata_failure, append_pre_merge_checks,
}
use auto_review.Review.Heal.{
  ReviewError, llm, host, panicked, ValidationError, default_max_attempts, generate_with_self_heal,
}
use auto_review.Review.Verify.{VerificationVerdict, verify_findings}
use auto_review.Review.Agentic.{AgentAction, Tools, verify_findings_agentic}
use auto_review.Review.Host.{
  PrRef, ReviewHost, load_prior_pr_discussion, render_prior_pr_discussion,
}
use auto_review.Review.Args.{
  VerifyMode, simple, agentic, ReviewOutcome, PrMetadataCheck, ReviewArgs, Parts, HostCall, updated,
  reviewed, ReviewState, Material,
}
pub mod Findings
pub mod Sent
pub mod Posts

unfoldable pub count_severity : ReviewSeverity → List ReviewFinding → ℕ
count_severity severity fs =
    length (retain (λ f. severity_rank f.severity == severity_rank severity) fs)

-- A failed validation that none of the exemptions covers, or a panic.
unfoldable pub blocks : ReviewArgs → PrMetadataValidation → Option Bool
blocks args v =
    if v.passed
    then some false
    else elim (has_clearly_acceptable_pr_metadata args.pr_title args.pr_body) [
      | none ↦ none
      | some acceptable ↦ some (
          not acceptable
          && not (
              is_empty (trim args.pr_body)
              && not args.pr_metadata_check.body_required
              && is_empty_body_specific_metadata_failure v))
    ]

unfoldable pub with_pre_merge_checks :
    ReviewArgs
    → Option PrMetadataValidation
    → CreateReviewRequest
    → Result ReviewError CreateReviewRequest
with_pre_merge_checks args none req = ok req
with_pre_merge_checks args (some v) req = elim (blocks args v) [
  | none ↦ err panicked
  | some true ↦
      ok (record req { body = append_pre_merge_checks req.body v; event = request_changes })
  | some false ↦ ok req
]

unfoldable pub requests_changes : ReviewEvent → Bool
requests_changes request_changes = true
requests_changes _ = false

-- Whether the mark of an override is taken off the pull request.
unfoldable pub strips_marker : ReviewArgs → CreateReviewRequest → Bool
strips_marker args req =
    not (requests_changes req.event)
    && (title_has_marker args.pr_title || body_has_section args.pr_body)

-- The floor once more, and the path guard.
unfoldable pub last_filters : ReviewSeverity → List Text → ReviewOutput → ReviewOutput
last_filters min changed output =
    (drop_findings_outside_changed_paths changed (apply_severity_floor min output)).0

module _ {H W : Type 0} (review_host : ReviewHost H) (router : Router W) (parts : Parts) where
  unfoldable pub fetch_diff : ReviewArgs → H → H × Result HostError Text
  fetch_diff args h = elim args.diff_override [
    | some d ↦ (h, ok d)
    | none ↦ review_host.get_pr_diff args.pr h
  ]

  unfoldable pub changed_names : ReviewArgs → Text → H → H × Result HostError (List Text)
  changed_names args pruned h =
      if is_some args.diff_override && is_some args.previous_review_sha
      then (h, ok (diff_changed_paths pruned))
      else let (h', answer) = review_host.list_changed_files args.pr h in
        elim answer [
          | err e ↦ (h', err e)
          | ok files ↦
              (h', ok (map (λ f. f.filename) (filter_changed_files files args.ignored_paths)))
        ]

  -- The diff that is sent to the model, and the files that comments may stand in.
  unfoldable pub gather : ReviewArgs → H → H × Result HostError Material
  gather args h =
      let (h', answer) = fetch_diff args h in
      elim answer [
        | err e ↦ (h', err e)
        | ok raw_diff ↦
            let pruned = filter_diff_paths raw_diff args.ignored_paths in
            let (h'', names) = changed_names args pruned h' in
            elim names [
              | err e ↦ (h'', err e)
              | ok files ↦ (
                h'',
                ok (record {
                  diff = cap_diff pruned default_max_diff_bytes;
                  changed_filenames = files;
                }),
              )
            ]
      ]

  -- An unreadable discussion is an empty one.
  unfoldable pub prior_discussion : ReviewArgs → H → H × Text
  prior_discussion args h =
      let (h', answer) = load_prior_pr_discussion review_host args.pr h in
      elim answer [
        | err e ↦ (h', render_prior_pr_discussion [])
        | ok comments ↦ (h', render_prior_pr_discussion comments)
      ]

  unfoldable pub verify_output :
      ReviewArgs → ReviewOutput → Text → LlmState W → LlmState W × ReviewOutput
  verify_output args output diff s =
      let simply =
        verify_findings router parts.validate_verification_output parts.verification_system_prompt
          output diff s in
      elim args.verify_mode [
        | simple ↦ simply
        | agentic ↦ elim args.workspace [
          | none ↦ simply
          | some tools ↦
              verify_findings_agentic router parts.parse_action parts.agent_system_prompt tools
                output diff s
        ]
      ]

  unfoldable pub validate_pr_metadata_quality :
      ReviewArgs → LlmState W → LlmState W × Option PrMetadataValidation
  validate_pr_metadata_quality args s =
      if not (has_provider router cheap)
      then (s, none)
      else let (s', answer) =
          complete router cheap
            (parts.metadata_request args.pr_title args.pr_body
              args.pr_metadata_check.additional_rules)
            s in
        elim answer [ err e ↦ (s', none) | ok resp ↦ (s', parts.parse_metadata resp.content) ]

  unfoldable pub metadata_validation :
      ReviewArgs → LlmState W → LlmState W × Option PrMetadataValidation
  metadata_validation args s =
      if not args.pr_metadata_check.enabled
      then (s, none)
      else elim (validate_pr_metadata_title_length args.pr_title) [
        | some v ↦ (s, some v)
        | none ↦ validate_pr_metadata_quality args s
      ]

  -- The best-effort edit that takes the mark off; its failure is ignored.
  unfoldable pub strip_marker : ReviewArgs → CreateReviewRequest → ReviewState H W → ReviewState H W
  strip_marker args req s =
      if strips_marker args req
      then record s {
        host_state =
            (review_host.update_pull_request args.pr (strip_title_marker args.pr_title)
              (strip_body_section args.pr_body) s.host_state).0;
        sent =
            s.sent
            ++ updated (strip_title_marker args.pr_title) (strip_body_section args.pr_body) ∷ [];
      }
      else s

  unfoldable pub outcome : ReviewOutput → ℕ → CreatedReview → ReviewOutcome
  outcome output dropped created = record {
    findings_count = length output.findings;
    review_id = created.id;
    errors = count_severity ReviewSeverity.error output.findings;
    warnings = count_severity ReviewSeverity.warning output.findings;
    notes = count_severity ReviewSeverity.note output.findings;
    verifier_dropped = dropped;
  }

  -- The marker edit and the post.
  unfoldable pub post :
      ReviewArgs
      → ReviewOutput
      → ℕ
      → CreateReviewRequest
      → ReviewState H W
      → ReviewState H W × Result ReviewError ReviewOutcome
  post args output dropped req s =
      let s' = strip_marker args req s in
      let (h, answer) = review_host.create_review args.pr req s'.host_state in
      let s'' = record s' { host_state = h; sent = s'.sent ++ reviewed req ∷ [] } in
      elim answer [
        | err e ↦ (s'', err (host e))
        | ok created ↦ (s'', ok (outcome output dropped created))
      ]

  -- From the model's validated answer to the posted review.
  unfoldable pub conclude :
      ReviewArgs
      → Material
      → ReviewOutput
      → ReviewState H W
      → ReviewState H W × Result ReviewError ReviewOutcome
  conclude args material answer s =
      let floored = apply_severity_floor args.min_severity answer in
      let (l, verified) = verify_output args floored material.diff s.llm_state in
      let output = last_filters args.min_severity material.changed_filenames verified in
      let dropped = length floored.findings - length verified.findings in
      let (l', validation) = metadata_validation args l in
      let plain = output_to_review_request output args.head_sha in
      let body =
        if parts.should_emit_cost_footer
        then parts.append_llm_usage_cost_footer plain.body l'.usage
        else plain.body in
      let s' = record s { llm_state = l' } in
      elim (with_pre_merge_checks args validation (record plain { body = body })) [
        | err e ↦ (s', err e)
        | ok req ↦ post args output dropped req s'
      ]

  unfoldable pub review_pull_request :
      ReviewArgs → H → W → ReviewState H W × Result ReviewError ReviewOutcome
  review_pull_request args h w =
      let start : LlmState W = record { world = w; usage = [] } in
      let (h', answer) = gather args h in
      elim answer [
        | err e ↦ (record { host_state = h'; llm_state = start; sent = [] }, err (host e))
        | ok material ↦
            let (h'', discussion) = prior_discussion args h' in
            let prompt =
              parts.render_review_prompt args material.diff material.changed_filenames discussion in
            let (l, healed) =
              generate_with_self_heal router parts.validate_review_output parts.system_prompt prompt
                default_max_attempts start in
            let s : ReviewState H W = record { host_state = h''; llm_state = l; sent = [] } in
            elim healed [ err e ↦ (s, err e) | ok output ↦ conclude args material output s ]
      ]
