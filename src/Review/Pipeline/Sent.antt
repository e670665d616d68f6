-- ===== src/Review/Pipeline/Sent.antt =====
-- crates/ar-review/src/pipeline.rs: what a review is to send, and what its last steps keep.
use auto_review.Prelude.{
  arith, ◌+◌, ◌≡◌, refl, sym, ap, ◌∙◌, ◌⊎◌, inl, inr, Bool, not, ◌&&◌, ◌||◌, true, false, Option,
  none, some, List, [], ◌∷◌, ◌++◌, map, Result, ok, err, if◌then◌else◌, length, all, any,
  Option-cases,
}
use auto_review.Prelude.Keys.{member, text_key}
use auto_review.Prelude.Text.{Text}
use auto_review.Forge.{
  approved, comment, request_changes, ReviewEvent, ReviewComment, CreateReviewRequest,
}
use auto_review.Review.Types.{ReviewOutput}
use auto_review.Review.Marker.{
  strip_title_marker, strip_body_section, title_has_marker, body_has_section,
}
use auto_review.Review.Mapping.{is_error, dedup_findings, finding_to_comment}
use auto_review.Review.Metadata.{PrMetadataValidation}
use auto_review.Review.Heal.{ReviewError}
use auto_review.Review.Pipeline.Findings.{is_above, is_inside_comment}
use auto_review.Review.Pipeline.{requests_changes, blocks, with_pre_merge_checks, strips_marker}
use auto_review.Review.Args.{ReviewOutcome, ReviewArgs, HostCall, updated, reviewed}

-- Whether an override has left its mark in the title or the body.
abbrev pub is_marked : ReviewArgs → Bool
is_marked args = title_has_marker args.pr_title || body_has_section args.pr_body

abbrev pub blocks_merge : ReviewEvent → Bool
blocks_merge request_changes = true
blocks_merge _ = false

-- What was sent is one review, with the edit that takes an override's mark off before it where
-- the pull request has one and the review does not request changes: the review is of the given
-- commit, its comments stand inside the changed files, if any are known, and are those of findings
-- at or above the floor, and it requests changes if one of these is an error.
abbrev pub IsPost : ReviewArgs → List Text → ReviewOutput → List HostCall → Type 0
IsPost args changed out sent =
    (req : CreateReviewRequest) × (sent
      ≡ (if is_marked args && not (blocks_merge req.event)
          then updated (strip_title_marker args.pr_title) (strip_body_section args.pr_body) ∷ []
          else [])
        ++ reviewed req ∷ [])
    × (req.commit_id ≡ args.head_sha)
    × (req.comments ≡ map finding_to_comment (dedup_findings [] out.findings))
    × ((changed ≡ []) ⊎ (all (λ c. member c.path changed) req.comments ≡ true))
    × (all (is_above args.min_severity) out.findings ≡ true)
    × ((any is_error out.findings ≡ false) ⊎ (req.event ≡ request_changes))

-- A review that succeeds has posted, and counts what it posted; one that fails has sent nothing
-- or failed to post.
abbrev pub Concluded :
    ReviewArgs → List Text → List HostCall → Result ReviewError ReviewOutcome → Type 0
Concluded args changed sent (ok o) =
    (out : ReviewOutput) × IsPost args changed out sent
    × (o.findings_count ≡ length out.findings)
    × (o.errors + o.warnings + o.notes ≡ o.findings_count)
Concluded args changed sent (err e) =
    (sent ≡ []) ⊎ ((out : ReviewOutput) × IsPost args changed out sent)

abbrev value : CreateReviewRequest → Result ReviewError CreateReviewRequest → CreateReviewRequest
value default (ok req) = req
value default (err _) = default

-- The checks of title and body change nothing but the body and the event, and never approve.
pub with_pre_merge_checks-keeps :
    (args : ReviewArgs) (v : Option PrMetadataValidation) (req req' : CreateReviewRequest)
    → with_pre_merge_checks args v req ≡ ok req'
    → (req'.commit_id ≡ req.commit_id)
      × (req'.comments ≡ req.comments)
      × (req.event ≡ request_changes → req'.event ≡ request_changes)
unfolding with_pre_merge_checks
with_pre_merge_checks-keeps args none req req' h =
    let e : req ≡ req' = ap (value req) h in
    (
      sym (ap (λ (r : CreateReviewRequest). r.commit_id) e),
      sym (ap (λ (r : CreateReviewRequest). r.comments) e),
      λ k. sym (ap (λ (r : CreateReviewRequest). r.event) e) ∙ k,
    )
with_pre_merge_checks-keeps args (some v) req req' h = elim (Option-cases (blocks args v)) [
  | inl panic ↦ let h' = rw (panic, with_pre_merge_checks) at h in cc
  | inr (true, blocked) ↦
      let h' = rw (blocked, with_pre_merge_checks) at h in
      let e = ap (value req) h' in
      (
        sym (ap (λ (r : CreateReviewRequest). r.commit_id) e),
        sym (ap (λ (r : CreateReviewRequest). r.comments) e),
        λ k. sym (ap (λ (r : CreateReviewRequest). r.event) e),
      )
  | inr (false, free) ↦
      let h' = rw (free, with_pre_merge_checks) at h in
      let e = ap (value req) h' in
      (
        sym (ap (λ (r : CreateReviewRequest). r.commit_id) e),
        sym (ap (λ (r : CreateReviewRequest). r.comments) e),
        λ k. sym (ap (λ (r : CreateReviewRequest). r.event) e) ∙ k,
      )
]

pub strips_marker-marked :
    (args : ReviewArgs) (req : CreateReviewRequest)
    → strips_marker args req ≡ (is_marked args && not (blocks_merge req.event))
unfolding strips_marker
strips_marker-marked args req = rw (requests req.event) (ground arith)
  where
    requests : (e : ReviewEvent) → requests_changes e ≡ blocks_merge e
    requests request_changes = unfold requests_changes in refl
    requests approved = unfold requests_changes in refl
    requests comment = unfold requests_changes in refl
    requests ReviewEvent.pending = unfold requests_changes in refl

pub inside-known :
    (changed : List Text) (cs : List ReviewComment)
    → all (is_inside_comment changed) cs ≡ true
    → (changed ≡ []) ⊎ (all (λ c. member c.path changed) cs ≡ true)
inside-known [] cs h = inl refl
inside-known (p ∷ ps) cs h = inr h
