-- ===== src/Review/Pipeline/Posts.antt =====
-- crates/ar-review/src/pipeline.rs: what a review posts.
use auto_review.Prelude.{
  ℕ, ◌-◌, ◌≡◌, refl, ap, ◌∙◌, ◌⊎◌, inl, inr, not, ◌&&◌, true, false, List, [], ◌∷◌, ◌++◌, map, ok,
  err, if◌then◌else◌, length, all, any, Bool-cases, Result-cases,
}
use auto_review.Prelude.Keys.{text_key}
use auto_review.Prelude.Text.{Text}
use auto_review.Forge.{request_changes, CreateReviewRequest}
use auto_review.Llm.{LlmState, Router}
use auto_review.Review.Types.{ReviewOutput}
use auto_review.Review.Marker.{strip_title_marker, strip_body_section}
use auto_review.Review.Filters.{apply_severity_floor}
use auto_review.Review.Mapping.{
  is_error, dedup_findings, finding_to_comment, output_to_review_request,
}
use auto_review.Review.Heal.{ReviewError, default_max_attempts, generate_with_self_heal}
use auto_review.Review.Host.{ReviewHost}
use auto_review.Review.Pipeline.Findings.{
  count_severity-sum, last_filters-good, all-dedup_findings, comments-inside, all-left, mapped,
  is_above, is_inside, is_inside_comment,
}
use auto_review.Review.Pipeline.{
  with_pre_merge_checks, strips_marker, last_filters, gather, prior_discussion, verify_output,
  metadata_validation, strip_marker, outcome, post, conclude, review_pull_request,
}
use auto_review.Review.Args.{ReviewArgs, Parts, HostCall, updated, reviewed, ReviewState, Material}
use auto_review.Review.Pipeline.Sent.{
  is_marked, blocks_merge, Concluded, with_pre_merge_checks-keeps, strips_marker-marked,
  inside-known,
}

module _ {H W : Type 0} (review_host : ReviewHost H) (router : Router W) (parts : Parts) where
  strip_marker-sent :
      (args : ReviewArgs) (req : CreateReviewRequest) (s : ReviewState H W)
      → s.sent ≡ []
      → (strip_marker review_host router parts args req s).sent ≡ (
          if is_marked args && not (blocks_merge req.event)
          then updated (strip_title_marker args.pr_title) (strip_body_section args.pr_body) ∷ []
          else [])
  unfolding strip_marker
  strip_marker-sent args req s none_yet =
      rw (← strips_marker-marked args req) (elim (Bool-cases (strips_marker args req)) [
        | inl strips ↦ rw (strips, none_yet) refl
        | inr leaves ↦ rw (leaves, none_yet) refl
      ])

  post-Concluded :
      (args : ReviewArgs) (changed : List Text) (out : ReviewOutput) (dropped : ℕ)
      (req : CreateReviewRequest) (s : ReviewState H W)
      → s.sent ≡ []
      → (req.commit_id ≡ args.head_sha)
        × (req.comments ≡ map finding_to_comment (dedup_findings [] out.findings))
        × (all (is_inside_comment changed) req.comments ≡ true)
        × (all (is_above args.min_severity) out.findings ≡ true)
        × ((any is_error out.findings ≡ false) ⊎ (req.event ≡ request_changes))
      → Concluded args changed
          (post review_host router parts args out dropped req s).0.sent
          (post review_host router parts args out dropped req s).1
  unfolding post outcome
  post-Concluded args changed out dropped req s none_yet good =
      let s' = strip_marker review_host router parts args req s in
      let marks = strip_marker-sent args req s none_yet in
      let posted = ap (λ (l : List HostCall). l ++ reviewed req ∷ []) marks in
      elim (Result-cases (review_host.create_review args.pr req s'.host_state).1) [
        | inl (created, done) ↦
            rw (done, post)
              (
                out,
                (
                  req,
                  posted,
                  good.0,
                  good.1,
                  inside-known changed req.comments good.2,
                  good.3,
                  good.4,
                ),
                refl,
                count_severity-sum out.findings,
              )
        | inr (e, failed) ↦
            rw (failed, post)
              (inr (
                out,
                (
                  req,
                  posted,
                  good.0,
                  good.1,
                  inside-known changed req.comments good.2,
                  good.3,
                  good.4,
                ),
              ))
      ]

  -- Every review ends so, with the changed files that were gathered.
  conclude-Concluded :
      (args : ReviewArgs) (m : Material) (answer : ReviewOutput) (s : ReviewState H W)
      → s.sent ≡ []
      → Concluded args m.changed_filenames
          (conclude review_host router parts args m answer s).0.sent
          (conclude review_host router parts args m answer s).1
  unfolding conclude
  conclude-Concluded args m answer s none_yet =
      let floored = apply_severity_floor args.min_severity answer in
      let verified = verify_output review_host router parts args floored m.diff s.llm_state in
      let out = last_filters args.min_severity m.changed_filenames verified.1 in
      let (l, validation) = metadata_validation review_host router parts args verified.0 in
      let plain = output_to_review_request out args.head_sha in
      let req : CreateReviewRequest = record plain {
        body =
            if parts.should_emit_cost_footer
            then parts.append_llm_usage_cost_footer plain.body l.usage
            else plain.body;
      } in
      elim (Result-cases (with_pre_merge_checks args validation req)) [
        | inr (e, panic) ↦ rw (panic, conclude) (inl none_yet)
        | inl (req', passed) ↦
            let keeps = with_pre_merge_checks-keeps args validation req req' passed in
            let of_plain = mapped out args.head_sha in
            let filtered = last_filters-good args.min_severity m.changed_filenames verified.1 in
            rw (passed, conclude)
              (post-Concluded args m.changed_filenames out
                (length floored.findings - length verified.1.findings) req'
                (record s { llm_state = l }) none_yet
                (
                  keeps.0 ∙ of_plain.0,
                  keeps.1 ∙ of_plain.1,
                  rw (keeps.1, of_plain.1)
                      (comments-inside args.min_severity m.changed_filenames
                        (dedup_findings [] out.findings)
                        (all-dedup_findings _ [] out.findings filtered)),
                  all-left (is_above args.min_severity) (is_inside m.changed_filenames) out.findings
                      filtered,
                  elim (Bool-cases (any is_error out.findings)) [
                    | inl bad ↦ inr (keeps.2 (of_plain.2 bad))
                    | inr good ↦ inl good
                  ],
                ))
      ]

  -- The changed files of a review, if the diff and the list of files could be had.
  abbrev pub Gathered : ReviewArgs → H → List Text → Type 0
  Gathered args h changed =
      (m : Material) × ((gather review_host router parts args h).1 ≡ ok m)
      × (m.changed_filenames ≡ changed)

  -- Whatever the host and the models answer, a review of a pull request either sends nothing and
  -- fails, or has the files `changed` that its diff or the host names and sends one review, as
  -- `IsPost` says; if it succeeds it has sent that review, and the severities that it counts sum to
  -- the findings that it counts.
  pub review_pull_request-Concluded :
      (args : ReviewArgs) (h : H) (w : W)
      → ((review_pull_request review_host router parts args h w).0.sent ≡ []
          × ((e : ReviewError) × ((review_pull_request review_host router parts args h w).1
                ≡ err e)))
        ⊎ ((changed : List Text) × Gathered args h changed
            × Concluded args changed
                (review_pull_request review_host router parts args h w).0.sent
                (review_pull_request review_host router parts args h w).1)
  unfolding review_pull_request
  review_pull_request-Concluded args h w =
      let start : LlmState W = record { world = w; usage = [] } in
      elim (Result-cases (gather review_host router parts args h).1) [
        | inr (e, failed) ↦
            rw (failed, review_pull_request) (inl (refl, (ReviewError.host e, refl)))
        | inl (m, gathered) ↦
            let discussion =
              prior_discussion review_host router parts args
                (gather review_host router parts args h).0 in
            let prompt = parts.render_review_prompt args m.diff m.changed_filenames discussion.1 in
            let healed =
              generate_with_self_heal router parts.validate_review_output parts.system_prompt prompt
                default_max_attempts start in
            let s : ReviewState H W = record {
              host_state = discussion.0;
              llm_state = healed.0;
              sent = [];
            } in
            elim (Result-cases healed.1) [
              | inr (e, failed) ↦ rw (gathered, failed, review_pull_request) (inl (refl, (e, refl)))
              | inl (answer, valid) ↦
                  rw (gathered, valid, review_pull_request)
                    (inr (
                      m.changed_filenames,
                      (m, refl, refl),
                      conclude-Concluded args m answer s refl,
                    ))
            ]
      ]
