-- ===== src/Review/Verify.antt =====
-- crates/ar-review/src/verify.rs: the second opinion on all findings at once.
use auto_review.Prelude.{
  ℕ, zero, suc, ◌+◌, Bool, true, false, not, ◌||◌, Option, none, some, List, [], ◌∷◌, ◌++◌, map,
  Result, ok, err, ◌==◌, if◌then◌else◌, is_empty, any, retain,
}
use auto_review.Prelude.Text.{Text, codes, ends_with}
use auto_review.Prelude.Search.{show_nat}
use auto_review.Llm.{cheap, user_message, CompleteRequest, LlmState, Router, complete, has_provider}
use auto_review.Review.Types.{ReviewSeverity, note, warning, error, ReviewFinding, ReviewOutput}
use auto_review.Review.Diff.{cap_for_prompt, cheap_tier_diff_cap}
use auto_review.Review.Heal.{ValidationError}
pub mod Kept

pub record VerificationVerdict : Type 0 where
  pub finding_index : ℕ
  pub keep : Bool
  pub reasoning : Text

-- `{:?}` of a severity.
unfoldable pub show_severity : ReviewSeverity → Text
show_severity note = codes "Note"
show_severity warning = codes "Warning"
show_severity error = codes "Error"

unfoldable pub finding_lines : ℕ → List ReviewFinding → Text
finding_lines i [] = []
finding_lines i (f ∷ fs) =
    show_nat i
    ++ codes ". ["
    ++ show_severity f.severity
    ++ codes "] "
    ++ f.path
    ++ codes ":"
    ++ show_nat f.line_start
    ++ codes " — "
    ++ f.message
    ++ codes "\n"
    ++ finding_lines (suc i) fs

-- The diff in a fenced block.
unfoldable pub fenced_diff : Text → Text
fenced_diff capped =
    codes "\nUnified diff:\n```diff\n"
    ++ capped
    ++ (if ends_with (codes "\n") capped then [] else codes "\n")
    ++ codes "```\n\n"

unfoldable pub render_user_prompt : ReviewOutput → Text → Text
render_user_prompt output diff =
    codes "Findings to verify:\n"
    ++ finding_lines 0 output.findings
    ++ fenced_diff (cap_for_prompt diff cheap_tier_diff_cap (codes "[diff truncated for verifier]"))
    ++ codes "For each finding above, decide whether the diff corroborates it.\n"

unfoldable pub dropped_indices : List VerificationVerdict → List ℕ
dropped_indices verdicts = map (λ v. v.finding_index) (retain (λ v. not v.keep) verdicts)

-- The findings from position `i` on whose position is not among the dropped.
unfoldable pub keep_findings : List ℕ → ℕ → List ReviewFinding → List ReviewFinding
keep_findings dropped i [] = []
keep_findings dropped i (f ∷ fs) =
    let rest = keep_findings dropped (suc i) fs in
    if any (λ j. i == j) dropped then rest else f ∷ rest

module _ {W : Type 0} (router : Router W)
    (validate_verification_output : Text → Result ValidationError (List VerificationVerdict))
    (verification_system_prompt : Text) where
  unfoldable pub verify_request : Text → CompleteRequest
  verify_request prompt = record {
    system = some verification_system_prompt;
    messages = user_message prompt ∷ [];
    json_schema = some (codes "Verification");
  }

  unfoldable pub verify_findings : ReviewOutput → Text → LlmState W → LlmState W × ReviewOutput
  verify_findings output diff s =
      if not (has_provider router cheap) || is_empty output.findings
      then (s, output)
      else let (s', answer) =
          complete router cheap (verify_request (render_user_prompt output diff)) s in
        elim answer [
          | err e ↦ (s', output)
          | ok resp ↦ elim (validate_verification_output resp.content) [
            | err e ↦ (s', output)
            | ok verdicts ↦ (
              s',
              record output {
                findings = keep_findings (dropped_indices verdicts) 0 output.findings;
              },
            )
          ]
        ]
