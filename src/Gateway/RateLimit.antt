-- ===== src/Gateway/RateLimit.antt =====
-- crates/ar-gateway/src/ratelimit.rs: the token bucket in front of webhook intake.
-- Times are nanoseconds and tokens are counted in billionths, so that the source's products of
-- seconds and tokens per second are whole numbers: rounding of `f64` is not modelled.
pub mod Bound
use auto_review.Prelude.{ℕ, ◌+◌, ◌-◌, ◌*◌, max, min, Bool, true, false, leb, if◌then◌else◌}

-- One token, in billionths.
abbrev pub unit : ℕ
unit = 1_000_000_000

-- `TokenBucket` with its `BucketState`, which the source keeps under a mutex.
pub record TokenBucket : Type 0 where
  pub capacity : ℕ
  pub refill_per_sec : ℕ
  pub tokens : ℕ
  pub last_refilled : ℕ

unfoldable pub new : ℕ → ℕ → ℕ → TokenBucket
new burst rate_per_sec now =
    let capacity = max burst 1 * unit in
    record {
      capacity = capacity;
      refill_per_sec = max rate_per_sec 1;
      tokens = capacity;
      last_refilled = now;
    }

-- The bucket with the tokens that time has added; `-` stops at 0 like
-- `saturating_duration_since`.
unfoldable pub refill : TokenBucket → ℕ → TokenBucket
refill b now =
    let elapsed = now - b.last_refilled in
    record b {
      tokens = min (b.tokens + elapsed * b.refill_per_sec) b.capacity;
      last_refilled = now;
    }

unfoldable pub try_take_at : TokenBucket → ℕ → TokenBucket × Bool
unfolding refill
try_take_at b now =
    let b' = refill b now in
    if leb unit b'.tokens then (record b' { tokens = b'.tokens - unit }, true) else (b', false)
