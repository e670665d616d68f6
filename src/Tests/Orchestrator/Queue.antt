-- ===== src/Tests/Orchestrator/Queue.antt =====
-- crates/ar-orchestrator/src/dispatcher.rs: two jobs under a limit that is given as 0.
use auto_review.Prelude.{◌≤◌, [], ◌∷◌, map, max, length}
use auto_review.Orchestrator.Queue.{
  spawned, waiting, running, with_concurrency_limit, look, dispatched, looked, acquired, Steps,
  stay, then_step,
}
use auto_review.Orchestrator.Queue.Limited.{count_running}
use auto_review.Orchestrator.Queue.Live.{to_finished, with_concurrency_limit-IsLive}

-- The first job runs and the second waits for its permit, which is counted.
abbrev one_waits :
    Steps
      (with_concurrency_limit 0)
      (record { permits = 0; phases = running ∷ waiting ∷ []; queue_waits = 1 })
unfolding with_concurrency_limit look
one_waits =
    then_step
      (then_step
        (then_step
          (then_step (then_step (stay (with_concurrency_limit 0)) (dispatched 1 0 []))
            (dispatched 1 0 (spawned ∷ [])))
          (looked 1 0 [] (spawned ∷ [])))
        (acquired 0 0 [] (spawned ∷ [])))
      (looked 0 0 (running ∷ []) [])

with_concurrency_limit-IsLive_example :
    (count_running (running ∷ waiting ∷ []) ≤ max 0 1)
    × (1 ≤ length (running ∷ waiting ∷ []))
    × Steps
        (record { permits = 0; phases = running ∷ waiting ∷ []; queue_waits = 1 })
        (record {
          permits = max 0 1;
          phases = map to_finished (running ∷ waiting ∷ []);
          queue_waits = 1;
        })
with_concurrency_limit-IsLive_example = with_concurrency_limit-IsLive 0 one_waits
