-- ===== src/Throttle.antt =====
-- The token bucket, hyperpod/src/vmm/common/device/throttle.rs. The mutex makes every method one
-- step on `Inner`, so a method takes the bucket and returns it. An `Instant` is its count of
-- nanoseconds, and so is a `Duration`.
pub mod Invariant
pub mod Rate
pub mod Retry
mod Tests
use hyper_pod.Base.{
  ℕ, ◌+◌, ◌-◌, ◌*◌, ◌/◌, ◌%◌, List, [], ◌∷◌, ltb, leb, ◌==◌, if◌then◌else◌, min_of,
  saturating_add64, u64_mod, u128_mod,
}

abbrev pub nanos_per_sec : ℕ
nanos_per_sec = 1000000000

pub record TokenBucket : Type 0 where
  pub capacity : ℕ
  pub refill_per_sec : ℕ
  pub tokens : ℕ
  pub last_refill : ℕ

-- `Result<(), Duration>` of `try_consume`.
pub data Consumed : Type 0 where
  granted : Consumed
  retry_after : ℕ → Consumed

-- `TokenBucket::new`, at the instant `now`.
unfoldable pub new : ℕ → ℕ → ℕ → TokenBucket
new capacity refill_per_sec now = record {
  capacity = capacity;
  refill_per_sec = refill_per_sec;
  tokens = capacity;
  last_refill = now;
}

unfoldable pub set_rate : ℕ → TokenBucket → TokenBucket
set_rate refill_per_sec g = record g { refill_per_sec = refill_per_sec }

unfoldable pub set_capacity : ℕ → TokenBucket → TokenBucket
set_capacity capacity g = record g {
  capacity = capacity;
  tokens = if ltb capacity g.tokens then capacity else g.tokens;
}

-- `(nanos * refill_per_sec as u128) / 1_000_000_000`, where the product wraps at `u128`.
unfoldable pub earned_tokens : ℕ → ℕ → ℕ
earned_tokens nanos rate = nanos * rate % u128_mod / nanos_per_sec

-- `earned as u64` cuts to 64 bits.
unfoldable pub refill : ℕ → TokenBucket → TokenBucket
refill now g =
    if leb now g.last_refill
    then g
    else (let earned = earned_tokens (now - g.last_refill) g.refill_per_sec in
        if ltb 0 earned
        then record g {
          tokens = min_of (saturating_add64 g.tokens (earned % u64_mod)) g.capacity;
          last_refill = now;
        }
        else g)

-- What `try_consume_at` does after the refill.
unfoldable pub spend : ℕ → TokenBucket → Consumed × TokenBucket
spend n g =
    if leb n g.tokens
    then (granted, record g { tokens = g.tokens - n })
    else if g.refill_per_sec == 0
    then (retry_after (3600 * nanos_per_sec), g)
    else (retry_after (min_of ((n - g.tokens) * nanos_per_sec / g.refill_per_sec) (u64_mod - 1)), g)

unfoldable pub try_consume_at : ℕ → ℕ → TokenBucket → Consumed × TokenBucket
try_consume_at n now g = spend n (refill now g)

-- The calls of the public interface, each with the instant that `Instant::now` gives it.
pub data Call : Type 0 where
  rate capacity : ℕ → Call
  consume : ℕ → ℕ → Call

unfoldable pub apply : Call → TokenBucket → TokenBucket
unfolding set_rate set_capacity
apply (Call.rate r) g = set_rate r g
apply (Call.capacity c) g = set_capacity c g
apply (Call.consume n now) g = (try_consume_at n now g).1

unfoldable pub run : List Call → TokenBucket → TokenBucket
run [] g = g
run (c ∷ cs) g = run cs (apply c g)
