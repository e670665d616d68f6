-- ===== src/Orchestrator/Queue/Limited.antt =====
-- crates/ar-orchestrator/src/dispatcher.rs: the limit holds.
use auto_review.Prelude.{ℕ, ◌+◌, ◌≤◌, ◌≡◌, max, List, [], ◌∷◌, ◌++◌, arith}
use auto_review.Orchestrator.Queue.{
  Phase, spawned, waiting, running, finished, Queue, with_concurrency_limit, look, Step, dispatched,
  looked, acquired, ended, Steps, stay, then_step,
}

unfoldable pub is_running : Phase → ℕ
is_running running = 1
is_running _ = 0

-- How many jobs have a permit.
unfoldable pub count_running : List Phase → ℕ
count_running [] = 0
count_running (p ∷ ps) = is_running p + count_running ps

unfoldable pub has_looked : Phase → ℕ
has_looked spawned = 0
has_looked _ = 1

-- How many jobs have looked at the permits.
unfoldable pub count_looked : List Phase → ℕ
count_looked [] = 0
count_looked (p ∷ ps) = has_looked p + count_looked ps

count_running-append :
    (ps qs : List Phase) → count_running (ps ++ qs) ≡ count_running ps + count_running qs
unfolding count_running
count_running-append [] qs = omega arith
count_running-append (p ∷ ps) qs = omega (arith, count_running-append ps qs)

count_looked-append :
    (ps qs : List Phase) → count_looked (ps ++ qs) ≡ count_looked ps + count_looked qs
unfolding count_looked
count_looked-append [] qs = omega arith
count_looked-append (p ∷ ps) qs = omega (arith, count_looked-append ps qs)

-- The permits that are left and those in use are the limit, and no job waited twice.
abbrev pub IsLimited : ℕ → Queue → Type 0
IsLimited limit q =
    (q.permits + count_running q.phases ≡ max limit 1) × (q.queue_waits ≤ count_looked q.phases)

Step-IsLimited : (limit : ℕ) {q r : Queue} → Step q r → IsLimited limit q → IsLimited limit r
unfolding count_running is_running count_looked has_looked look
Step-IsLimited limit (dispatched permits waits phases) h = (
  omega (arith, h.0, count_running-append phases (spawned ∷ [])),
  omega (arith, h.1, count_looked-append phases (spawned ∷ [])),
)
Step-IsLimited limit (looked permits waits before after) h = (
  omega (
    arith,
    h.0,
    count_running-append before (spawned ∷ after),
    count_running-append before (waiting ∷ after),
  ),
  ground (
    arith,
    h.1,
    count_looked-append before (spawned ∷ after),
    count_looked-append before (waiting ∷ after),
  ),
)
Step-IsLimited limit (acquired permits waits before after) h = (
  omega (
    arith,
    h.0,
    count_running-append before (waiting ∷ after),
    count_running-append before (running ∷ after),
  ),
  omega (
    arith,
    h.1,
    count_looked-append before (waiting ∷ after),
    count_looked-append before (running ∷ after),
  ),
)
Step-IsLimited limit (ended permits waits before after) h = (
  omega (
    arith,
    h.0,
    count_running-append before (running ∷ after),
    count_running-append before (finished ∷ after),
  ),
  omega (
    arith,
    h.1,
    count_looked-append before (running ∷ after),
    count_looked-append before (finished ∷ after),
  ),
)

pub Steps-IsLimited : (limit : ℕ) {q r : Queue} → Steps q r → IsLimited limit q → IsLimited limit r
Steps-IsLimited limit (stay q) h = h
Steps-IsLimited limit (then_step steps step) h =
    Step-IsLimited limit step (Steps-IsLimited limit steps h)

pub with_concurrency_limit-IsLimited : (limit : ℕ) → IsLimited limit (with_concurrency_limit limit)
unfolding with_concurrency_limit count_running count_looked
with_concurrency_limit-IsLimited limit = (omega arith, omega arith)
