-- ===== src/Orchestrator/Queue/Live.antt =====
-- crates/ar-orchestrator/src/dispatcher.rs: no job under the limit waits for ever.
use mathlib.Core.Path.{subst}
use auto_review.Prelude.{
  ℕ, zero, suc, ◌+◌, ◌≤◌, ◌≡◌, max, List, [], ◌∷◌, ◌++◌, append_assoc, length, arith, map,
}
use auto_review.Orchestrator.Queue.Limited.{
  is_running, count_running, has_looked, count_looked, IsLimited, Steps-IsLimited,
  with_concurrency_limit-IsLimited,
}
use auto_review.Orchestrator.Queue.{
  Phase, spawned, waiting, running, finished, Queue, with_concurrency_limit, look, looked, acquired,
  ended, Steps, stay, then_step,
}

Steps-trans : {q r s : Queue} → Steps q r → Steps r s → Steps q s
Steps-trans steps (stay q) = steps
Steps-trans steps (then_step more step) = then_step (Steps-trans steps more) step

abbrev queue : ℕ → List Phase → ℕ → Queue
queue permits phases waits = record { permits = permits; phases = phases; queue_waits = waits }

unfoldable stopped : Phase → Phase
stopped running = finished
stopped p = p

-- The jobs in front do not matter to the ones behind.
in_front :
    {q : Queue} {permits waits : ℕ} (before : List Phase) (p : Phase) (after : List Phase)
    → Steps q (queue permits ((before ++ p ∷ []) ++ after) waits)
    → Steps q (queue permits (before ++ p ∷ after) waits)
in_front {q} {permits} {waits} before p after steps =
    subst (λ ps. Steps q (queue permits ps waits)) (append_assoc before (p ∷ []) after) steps

behind :
    {q : Queue} {permits waits : ℕ} (before : List Phase) (p : Phase) (after : List Phase)
    → Steps (queue permits ((before ++ p ∷ []) ++ after) waits) q
    → Steps (queue permits (before ++ p ∷ after) waits) q
behind {q} {permits} {waits} before p after steps =
    subst (λ ps. Steps (queue permits ps waits) q) (append_assoc before (p ∷ []) after) steps

-- A job behind the ones in front goes on without them.
past :
    {permits permits' waits : ℕ} (before : List Phase) (p : Phase) (after after' : List Phase)
    → Steps
        (queue permits ((before ++ p ∷ []) ++ after) waits)
        (queue permits' ((before ++ p ∷ []) ++ after') waits)
    → Steps
        (queue permits (before ++ p ∷ after) waits)
        (queue permits' (before ++ p ∷ after') waits)
past before p after after' steps = in_front before p after' (behind before p after steps)

with_permits :
    {q : Queue} {m n waits : ℕ} {phases : List Phase}
    → m ≡ n
    → Steps q (queue m phases waits)
    → Steps q (queue n phases waits)
with_permits {q} {m} {n} {waits} {phases} p steps =
    subst (λ k. Steps q (queue k phases waits)) p steps

-- First the jobs that have a permit can end.
end_running :
    (permits waits : ℕ) (before after : List Phase)
    → Steps
        (queue permits (before ++ after) waits)
        (queue (permits + count_running after) (before ++ map stopped after) waits)
unfolding count_running is_running stopped
end_running permits waits before [] =
    with_permits (omega arith) (stay (queue permits (before ++ []) waits))
end_running permits waits before (running ∷ after) =
    Steps-trans
      (then_step (stay (queue permits (before ++ running ∷ after) waits))
        (ended permits waits before after))
      (with_permits (omega arith) (
        past before finished after (map stopped after)
          (end_running (suc permits) waits (before ++ finished ∷ []) after)))
end_running permits waits before (spawned ∷ after) = with_permits (omega arith) (
    past before spawned after (map stopped after)
      (end_running permits waits (before ++ spawned ∷ []) after))
end_running permits waits before (waiting ∷ after) = with_permits (omega arith) (
    past before waiting after (map stopped after)
      (end_running permits waits (before ++ waiting ∷ []) after))
end_running permits waits before (finished ∷ after) = with_permits (omega arith) (
    past before finished after (map stopped after)
      (end_running permits waits (before ++ finished ∷ []) after))

unfoldable pub to_finished : Phase → Phase
to_finished p = finished

-- A job that waits, with a permit to take.
run_waiting :
    (k waits : ℕ) (before after : List Phase)
    → Steps
        (queue (suc k) (before ++ waiting ∷ after) waits)
        (queue (suc k) (before ++ finished ∷ after) waits)
run_waiting k waits before after =
    then_step
      (then_step (stay (queue (suc k) (before ++ waiting ∷ after) waits))
        (acquired k waits before after))
      (ended k waits before after)

look-suc : (k waits : ℕ) → waits + look (suc k) ≡ waits
unfolding look
look-suc k waits = ground arith

run_spawned :
    (k waits : ℕ) (before after : List Phase)
    → Steps
        (queue (suc k) (before ++ spawned ∷ after) waits)
        (queue (suc k) (before ++ finished ∷ after) waits)
unfolding look
run_spawned k waits before after =
    Steps-trans
      (subst
        (λ n.
          Steps (queue (suc k) (before ++ spawned ∷ after) waits)
            (queue (suc k) (before ++ waiting ∷ after) n))
        (look-suc k waits)
        (then_step (stay (queue (suc k) (before ++ spawned ∷ after) waits))
          (looked (suc k) waits before after)))
      (run_waiting k waits before after)

-- Then each of the others runs with a permit that is left.
finish_each :
    (k waits : ℕ) (before after : List Phase)
    → Steps
        (queue (suc k) (before ++ map stopped after) waits)
        (queue (suc k) (before ++ map to_finished after) waits)
unfolding stopped to_finished
finish_each k waits before [] = stay (queue (suc k) (before ++ []) waits)
finish_each k waits before (spawned ∷ after) =
    Steps-trans (run_spawned k waits before (map stopped after)) (
      past before finished (map stopped after) (map to_finished after)
        (finish_each k waits (before ++ finished ∷ []) after))
finish_each k waits before (waiting ∷ after) =
    Steps-trans (run_waiting k waits before (map stopped after)) (
      past before finished (map stopped after) (map to_finished after)
        (finish_each k waits (before ++ finished ∷ []) after))
finish_each k waits before (running ∷ after) =
    past before finished (map stopped after) (map to_finished after)
      (finish_each k waits (before ++ finished ∷ []) after)
finish_each k waits before (finished ∷ after) =
    past before finished (map stopped after) (map to_finished after)
      (finish_each k waits (before ++ finished ∷ []) after)

-- With a limit of at least 1, every job can end.
finish_all :
    (limit permits waits : ℕ) (phases : List Phase)
    → permits + count_running phases ≡ limit
    → 1 ≤ limit
    → Steps (queue permits phases waits) (queue limit (map to_finished phases) waits)
finish_all zero permits waits phases total positive = absurd (omega (arith, positive))
finish_all (suc k) permits waits phases total positive =
    Steps-trans (with_permits total (end_running permits waits [] phases))
      (finish_each k waits [] phases)

count_looked-≤ : (ps : List Phase) → count_looked ps ≤ length ps
unfolding count_looked has_looked
count_looked-≤ [] = omega arith
count_looked-≤ (spawned ∷ ps) = omega (arith, count_looked-≤ ps)
count_looked-≤ (waiting ∷ ps) = omega (arith, count_looked-≤ ps)
count_looked-≤ (running ∷ ps) = omega (arith, count_looked-≤ ps)
count_looked-≤ (finished ∷ ps) = omega (arith, count_looked-≤ ps)

limited-IsLive :
    (limit : ℕ) (q : Queue)
    → IsLimited limit q
    → (count_running q.phases ≤ max limit 1)
      × (q.queue_waits ≤ length q.phases)
      × Steps q (record {
        permits = max limit 1;
        phases = map to_finished q.phases;
        queue_waits = q.queue_waits;
      })
limited-IsLive limit q h = (
  omega (arith, h.0),
  omega (arith, h.1, count_looked-≤ q.phases),
  finish_all (max limit 1) q.permits q.queue_waits q.phases h.0 (omega arith),
)

-- Whatever the limit and however the jobs under it are interleaved: never more than the limit run at
-- once, where a limit of 0 counts as 1; no more waits are observed than jobs dispatched; and from every
-- state the jobs in it can still all come to their end, with all the permits given back.
pub with_concurrency_limit-IsLive :
    (limit : ℕ) {q : Queue}
    → Steps (with_concurrency_limit limit) q
    → (count_running q.phases ≤ max limit 1)
      × (q.queue_waits ≤ length q.phases)
      × Steps q (record {
        permits = max limit 1;
        phases = map to_finished q.phases;
        queue_waits = q.queue_waits;
      })
with_concurrency_limit-IsLive limit {q} steps =
    limited-IsLive limit q (Steps-IsLimited limit steps (with_concurrency_limit-IsLimited limit))
