-- ===== src/Gateway/RateLimit/Bound.antt =====
-- crates/ar-gateway/src/ratelimit.rs: how many requests pass.
use auto_review.Prelude.{
  ℕ, suc, ◌-◌, ◌*◌, ◌≤◌, ◌<◌, ◌≡◌, refl, true, false, List, [], ◌∷◌, arith, if◌then◌else◌, length,
}
use auto_review.Gateway.RateLimit.{TokenBucket, unit, new, try_take_at}

-- Requests at the given times: the last bucket, and how many were let through.
unfoldable pub run : TokenBucket → List ℕ → TokenBucket × ℕ
run b [] = (b, 0)
run b (t ∷ ts) =
    let (b', taken) = try_take_at b t in
    let (b'', n) = run b' ts in (b'', if taken then suc n else n)

-- The times do not go backwards from `t`.
abbrev pub IsMonotone : ℕ → List ℕ → Type 0
IsMonotone t [] = Unit {0}
IsMonotone t (u ∷ us) = (t ≤ u) × IsMonotone u us

abbrev pub last_time : ℕ → List ℕ → ℕ
last_time t [] = t
last_time t (u ∷ us) = last_time u us

-- What a bucket is like whenever it has been refilled.
abbrev IsBucket : ℕ → ℕ → ℕ → TokenBucket → Type 0
IsBucket capacity rate at b =
    (b.tokens ≤ capacity)
    × (b.capacity ≡ capacity)
    × (b.refill_per_sec ≡ rate)
    × (b.last_refilled ≡ at)

step_burst :
    (b : TokenBucket) (k t : ℕ)
    → suc k * unit ≤ b.tokens
    → b.tokens ≤ b.capacity
    → ((try_take_at b t).1 ≡ true)
      × (k * unit ≤ (try_take_at b t).0.tokens)
      × ((try_take_at b t).0.tokens ≤ (try_take_at b t).0.capacity)
unfolding try_take_at
step_burst b k t h full = ground arith

run_burst :
    (b : TokenBucket) (ts : List ℕ)
    → length ts * unit ≤ b.tokens
    → b.tokens ≤ b.capacity
    → (run b ts).1 ≡ length ts
unfolding run
run_burst b [] h full = refl
run_burst b (t ∷ ts) h full =
    let (taken, left, full') = step_burst b (length ts) t h full in
    let rest = run_burst (try_take_at b t).0 ts left full' in ground arith

-- A new bucket lets a burst through whole, whatever the times of its requests.
run-new_burst :
    (burst rate start : ℕ) (ts : List ℕ)
    → length ts ≤ burst
    → (run (new burst rate start) ts).1 ≡ length ts
unfolding new
run-new_burst burst rate start ts h =
    run_burst (new burst rate start) ts (grind arith) (omega arith)

-- A clock reading taken before that of a request that got the lock first sets the bucket back:
-- the interval up to `last_refilled` is then added a second time, and a request at that very
-- time passes although the bucket was empty then.
rewind_refills :
    (b : TokenBucket) (earlier : ℕ)
    → b.tokens ≡ 0
    → unit ≤ b.capacity
    → earlier < b.last_refilled
    → unit ≤ (b.last_refilled - earlier) * b.refill_per_sec
    → ((try_take_at b b.last_refilled).1 ≡ false)
      × ((try_take_at b earlier).1 ≡ false)
      × ((try_take_at (try_take_at b earlier).0 b.last_refilled).1 ≡ true)
unfolding try_take_at
rewind_refills b earlier empty cap h more = ground arith
