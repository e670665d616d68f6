-- ===== src/Tests/Review.antt =====
-- crates/ar-review: its theorems at concrete inputs.
mod Texts
mod Workspace
mod Context
use auto_review.Prelude.{
  ℕ, zero, suc, ◌+◌, ◌≤◌, ◌<◌, max, ◌≡◌, sym, ap, ◌⊎◌, ◌↔◌, refl, inl, inr, Bool, true, false, not,
  ◌&&◌, ◌||◌, Option, none, some, List, [], ◌∷◌, ◌++◌, Result, ok, err, all, any, length, is_some,
  leb, arith,
}
use auto_review.Prelude.Text.{Text, codes}
use auto_review.Llm.{reasoning, CompleteRequest, Provider}
use auto_review.Review.Types.{note}
use auto_review.Review.Filters.{severity_rank}
use auto_review.Review.Mapping.{is_error}
use auto_review.Review.Heal.{ReviewError, generate_with_self_heal}
use auto_review.Review.Heal.Attempts.{IsHealed, generate_with_self_heal-IsHealed}
use auto_review.Review.Verify.{VerificationVerdict, verify_findings}
use auto_review.Review.Verify.Kept.{nth, is_against, verify_findings_keeps}
use auto_review.Review.Agentic.{AgentAction, verify_findings_agentic}
use auto_review.Review.Agentic.FailOpen.{verify_findings_agentic_same}
use auto_review.Review.Pipeline.{review_pull_request}
use auto_review.Review.Pipeline.Sent.{Concluded}
use auto_review.Review.Pipeline.Posts.{Gathered, review_pull_request-Concluded}
use auto_review.Tests.Fixtures.{finding, output, diff, host, router, start, parts, args, tools}

review_pull_request-Concluded_example :
    ((review_pull_request host router parts args 0 0).0.sent ≡ []
      × ((e : ReviewError) × ((review_pull_request host router parts args 0 0).1 ≡ err e)))
    ⊎ ((changed : List Text) × Gathered host router parts args 0 changed
        × Concluded args changed
            (review_pull_request host router parts args 0 0).0.sent
            (review_pull_request host router parts args 0 0).1)
review_pull_request-Concluded_example = review_pull_request-Concluded host router parts args 0 0

abbrev calls_after : CompleteRequest → ℕ → Option (Provider ℕ) → ℕ
calls_after req w none = suc w
calls_after req w (some p) = (p.complete req w).0

counts :
    (p : Provider ℕ) (req : CompleteRequest) (w : ℕ)
    → router reasoning ≡ some p
    → (p.complete req w).0 ≡ suc w
counts p req w e = sym (ap (calls_after req w) e)

generate_with_self_heal-IsHealed_example :
    IsHealed router parts.validate_review_output
      (codes "system")
      (λ w. w)
      (max 3 1)
      (0 + max 3 1)
      (generate_with_self_heal router parts.validate_review_output
        (codes "system")
        (codes "p")
        3
        start).0.world
      (generate_with_self_heal router parts.validate_review_output
        (codes "system")
        (codes "p")
        3
        start).1
generate_with_self_heal-IsHealed_example =
    generate_with_self_heal-IsHealed router parts.validate_review_output (codes "system") (λ w. w)
      counts (codes "p") 3 start

-- The validation reads every answer as one verdict, against the second finding.
abbrev one_verdict : Text → Result Text (List VerificationVerdict)
one_verdict content = ok ((record { finding_index = 1; keep = false; reasoning = [] }) ∷ [])

abbrev against_first : Result Text (List VerificationVerdict) → Bool
against_first (ok verdicts) = any (is_against 0) verdicts
against_first (err e) = false

spares_first :
    (content : Text) (verdicts : List VerificationVerdict)
    → one_verdict content ≡ ok verdicts
    → any (is_against 0) verdicts ≡ false
spares_first content verdicts e = sym (ap against_first e)

is_bad : is_error finding ≡ true
unfolding is_error severity_rank
is_bad = refl

all_bad : all is_error output.findings ≡ true
unfolding is_error severity_rank
all_bad = refl

verify_findings_keeps_example :
    any is_error (verify_findings router one_verdict (codes "v") output diff start).1.findings
    ≡ true
verify_findings_keeps_example =
    verify_findings_keeps router one_verdict (codes "v") output diff start 0 finding is_error
      (unfold nth in refl) is_bad (λ content verdicts answer. spares_first content verdicts)

verify_findings_agentic_same_example :
    (verify_findings_agentic router parts.parse_action
      (codes "a")
      tools
      output
      diff
      start).1.findings
    ≡ output.findings
verify_findings_agentic_same_example =
    verify_findings_agentic_same router parts.parse_action (codes "a") tools output diff start
      (λ content a given parsed final. cc parsed)
