-- ===== src/Throttle/Tests.antt =====
-- The bucket at concrete instants.
use hyper_pod.Base.{◌+◌, ◌-◌, ◌*◌, ◌≤◌, ◌^◌, ◌≡◌, ◌≢◌, refl, [], ◌∷◌, arith}
use hyper_pod.Throttle.{
  TokenBucket, Call, granted, nanos_per_sec, refill, spend, earned_tokens, try_consume_at, run,
}
use hyper_pod.Throttle.Invariant.{IsValid, run-IsValid}
use hyper_pod.Throttle.Rate.{total_granted, rate_limit}
use hyper_pod.Throttle.Retry.{retry_succeeds, retry_too_early, refill_lost}

-- Ten tokens, three of them left, at seven a second.
abbrev bucket : TokenBucket
bucket = record { capacity = 10; refill_per_sec = 7; tokens = 3; last_refill = 1000 }

bucket-IsValid : IsValid bucket
bucket-IsValid = record { fits = omega arith; rate_fits = omega arith; within = omega arith }

run-IsValid_example : IsValid (
    run
      (Call.consume 2 1000 ∷ Call.capacity 5 ∷ Call.rate 9 ∷ Call.consume 4 2000000000 ∷ [])
      bucket)
run-IsValid_example =
    run-IsValid
      (Call.consume 2 1000 ∷ Call.capacity 5 ∷ Call.rate 9 ∷ Call.consume 4 2000000000 ∷ []) bucket
      (omega arith, (omega arith, (omega arith, (omega arith, tt)))) bucket-IsValid

rate_limit_example :
    total_granted ((2, 1000) ∷ (5, 500000000) ∷ (4, 2000000000) ∷ []) bucket * nanos_per_sec
    ≤ 3 * nanos_per_sec + (2000000000 - 1000) * 7
rate_limit_example =
    rate_limit 2000000000 ((2, 1000) ∷ (5, 500000000) ∷ (4, 2000000000) ∷ []) bucket
      (omega arith, (omega arith, (omega arith, tt)))

-- Five tokens are asked for, two are missing: 285714285 nanoseconds, rounded down.
retry_succeeds_example : (try_consume_at 5 285715286 bucket).0 ≡ granted
unfolding try_consume_at spend refill earned_tokens
retry_succeeds_example =
    retry_succeeds 5 1000 285715286 285714285 bucket bucket bucket-IsValid (omega arith)
      (omega arith) (omega arith) refl (omega arith) (omega arith) (omega arith)

retry_too_early_example : (try_consume_at 5 285715285 bucket).0 ≢ granted
unfolding try_consume_at spend refill earned_tokens
retry_too_early_example =
    retry_too_early 5 1000 285714285 bucket bucket (omega arith) refl refl (omega arith)
      (omega arith)

-- At 2^62 tokens a second, four seconds earn 2^64.
abbrev fast : TokenBucket
fast = record { capacity = 10; refill_per_sec = 2 ^ 62; tokens = 3; last_refill = 0 }

refill_lost_example :
    ((refill 4000000000 fast).tokens ≡ 3) × ((refill 4000000000 fast).last_refill ≡ 4000000000)
refill_lost_example =
    refill_lost 4000000000 0 fast
      (record { fits = omega arith; rate_fits = omega arith; within = omega arith }) (omega arith)
      (omega arith) (omega arith)
