-- ===== src/Tests/Orchestrator/Job.antt =====
-- crates/ar-orchestrator/src/dispatcher.rs: its theorems on jobs at concrete inputs, and the metrics of reviews.
use auto_review.Prelude.{◌≡◌, ◌⊎◌, refl, true, false, not, ◌&&◌, [], ◌∷◌, length, ◌*◌}
use auto_review.Orchestrator.History.{last_reviewed}
use auto_review.Orchestrator.Jobs.{pr_key_of}
use auto_review.Orchestrator.Dispatcher.{is_same_sha, dispatch}
use auto_review.Orchestrator.Dispatcher.Endings.{IsIdle}
use auto_review.Orchestrator.Dispatcher.Protocol.{Ends, dispatch-IsEnded}
use auto_review.Gateway.ReviewMetrics.{zeros, record_all}
use auto_review.Gateway.ReviewMetrics.Balance.{IsBalanced, run_jobs, jobs-IsBalanced}
use auto_review.Tests.Fixtures.{host, router, parts, job_parts, job, idle}

dispatch-IsEnded_example :
    ((is_same_sha (last_reviewed idle.history (pr_key_of job)) job.head_sha && not job.force ≡ true)
      × IsIdle idle (dispatch host router parts job_parts job idle))
    ⊎ ((is_same_sha (last_reviewed idle.history (pr_key_of job)) job.head_sha && not job.force
          ≡ false)
        × Ends host router parts job_parts job idle (dispatch host router parts job_parts job idle))
dispatch-IsEnded_example = dispatch-IsEnded host router parts job_parts job idle

jobs-IsBalanced_example : IsBalanced (
    record_all
      (λ os. length os * 1000)
      (run_jobs host router parts job_parts (job ∷ job ∷ []) idle).observations
      zeros)
jobs-IsBalanced_example =
    jobs-IsBalanced host router parts job_parts (job ∷ job ∷ []) idle (λ os. length os * 1000) refl
