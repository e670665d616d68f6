-- ===== src/Review/Filters.antt =====
-- crates/ar-review/src/pipeline.rs, the filters on the findings of a review.
use auto_review.Prelude.{
  ℕ, ◌-◌, ◌≡◌, List, leb, if◌then◌else◌, is_empty, length, retain, retain-retain,
}
use auto_review.Prelude.Keys.{member, text_key}
use auto_review.Prelude.Text.{Text}
use auto_review.Review.Types.{ReviewSeverity, note, warning, error, ReviewOutput}

unfoldable pub severity_rank : ReviewSeverity → ℕ
severity_rank note = 0
severity_rank warning = 1
severity_rank error = 2

-- What is left of the output; the source returns the number of dropped findings beside it.
unfoldable pub drop_findings_outside_changed_paths : List Text → ReviewOutput → ReviewOutput × ℕ
drop_findings_outside_changed_paths changed_paths output =
    if is_empty changed_paths
    then (output, 0)
    else let kept = retain (λ f. member f.path changed_paths) output.findings in
      (record output { findings = kept }, length output.findings - length kept)

unfoldable pub apply_severity_floor : ReviewSeverity → ReviewOutput → ReviewOutput
apply_severity_floor min output = record output {
  findings = retain (λ f. leb (severity_rank min) (severity_rank f.severity)) output.findings;
}

-- A second pass of the severity floor changes nothing.
pub apply_severity_floor_idem :
    (min : ReviewSeverity) (output : ReviewOutput)
    → apply_severity_floor min (apply_severity_floor min output) ≡ apply_severity_floor min output
unfolding apply_severity_floor
apply_severity_floor_idem min output =
    let same =
      retain-retain (λ f. leb (severity_rank min) (severity_rank f.severity)) output.findings in
    cc
