-- ===== src/Orchestrator/Queue.antt =====
-- crates/ar-orchestrator/src/dispatcher.rs: the jobs of a dispatcher with a concurrency limit, their
-- tasks interleaved in any order. What a job does is left out: it ends, by itself or by a panic, and
-- gives its permit back. The semaphore is never closed.
use auto_review.Prelude.{ℕ, suc, ◌+◌, max, List, [], ◌∷◌, ◌++◌, ◌==◌, if◌then◌else◌}
pub mod Limited
pub mod Live

-- The task of a job: before it looks at the permits, waiting for one, with one, and at its end.
pub data Phase : Type 0 where
  spawned waiting running finished : Phase

pub record Queue : Type 0 where
  -- `available_permits()`
  pub permits : ℕ
  pub phases : List Phase
  -- The `QueueWait` observations.
  pub queue_waits : ℕ

unfoldable pub with_concurrency_limit : ℕ → Queue
with_concurrency_limit limit = record { permits = max limit 1; phases = []; queue_waits = 0 }

-- What looking at the permits adds to the observations.
unfoldable pub look : ℕ → ℕ
look permits = if permits == 0 then 1 else 0

pub data Step : Queue → Queue → Type 0 where
  dispatched :
      (permits waits : ℕ) (phases : List Phase)
      → Step
          (record { permits = permits; phases = phases; queue_waits = waits })
          (record { permits = permits; phases = phases ++ spawned ∷ []; queue_waits = waits })
  looked :
      (permits waits : ℕ) (before after : List Phase)
      → Step
          (record { permits = permits; phases = before ++ spawned ∷ after; queue_waits = waits })
          (record {
            permits = permits;
            phases = before ++ waiting ∷ after;
            queue_waits = waits + look permits;
          })
  acquired :
      (permits waits : ℕ) (before after : List Phase)
      → Step
          (record {
            permits = suc permits;
            phases = before ++ waiting ∷ after;
            queue_waits = waits;
          })
          (record { permits = permits; phases = before ++ running ∷ after; queue_waits = waits })
  ended :
      (permits waits : ℕ) (before after : List Phase)
      → Step
          (record { permits = permits; phases = before ++ running ∷ after; queue_waits = waits })
          (record {
            permits = suc permits;
            phases = before ++ finished ∷ after;
            queue_waits = waits;
          })

pub data Steps : Queue → Queue → Type 0 where
  stay : (q : Queue) → Steps q q
  then_step : {q r s : Queue} → Steps q r → Step r s → Steps q s
