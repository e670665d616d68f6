-- ===== src/Orchestrator/Report.antt =====
-- crates/ar-orchestrator/src/dispatcher.rs: what a job reports: observations, statuses, classes of errors.
use auto_review.Prelude.{ℕ, ◌-◌, List, [], ◌∷◌, ◌++◌, ltb, leb, ◌==◌, if◌then◌else◌, is_empty}
use auto_review.Prelude.Text.{Text, codes}
use auto_review.Prelude.Boundary.{byte_len, truncate_at}
use auto_review.Prelude.Search.{show_nat, join}
use auto_review.Forge.{CommitStatusState}
use auto_review.Review.Heal.{ReviewError, llm, host, unhealable, workspace, panicked}
use auto_review.Review.Args.{ReviewOutcome}

abbrev pub status_context : Text
status_context = codes "auto_review"

abbrev pub max_status_description : ℕ
max_status_description = 240

pub data ReviewObservation : Type 0 where
  started : ReviewObservation
  -- findings_count, verifier_dropped
  succeeded : ℕ → ℕ → ReviewObservation
  failed : Text → ReviewObservation
  skipped : Text → ReviewObservation
  queue_wait : ReviewObservation

unfoldable pub plural : ℕ → Text → List Text
plural n noun =
    if ltb 0 n
    then (show_nat n ++ codes " " ++ noun ++ (if n == 1 then [] else codes "s")) ∷ []
    else []

unfoldable pub review_summary : ReviewOutcome → Text
review_summary outcome =
    let parts =
      plural outcome.errors (codes "error")
      ++ plural outcome.warnings (codes "warning")
      ++ plural outcome.notes (codes "note") in
    if outcome.findings_count == 0
    then codes "auto_review: no findings"
    else if is_empty parts
    then codes "auto_review: " ++ show_nat outcome.findings_count ++ codes " findings"
    else codes "auto_review: " ++ join (codes ", ") parts

-- The ellipsis that is put behind a cut is three bytes long.
unfoldable pub truncate_status_description : Text → Text
truncate_status_description s =
    if leb (byte_len s) max_status_description
    then s
    else truncate_at s (max_status_description - 3) ++ codes "…"

unfoldable pub error_state : ReviewError → CommitStatusState
error_state (host _) = CommitStatusState.error
error_state (workspace _) = CommitStatusState.error
error_state (llm _) = CommitStatusState.failure
error_state (unhealable _ _) = CommitStatusState.failure
error_state panicked = CommitStatusState.error

unfoldable pub error_class : ReviewError → Text
error_class (host _) = codes "forgejo"
error_class (workspace _) = codes "workspace"
error_class (llm _) = codes "llm"
error_class (unhealable _ _) = codes "unhealable"
error_class panicked = codes "panic"
