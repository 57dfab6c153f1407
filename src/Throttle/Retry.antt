-- ===== src/Throttle/Retry.antt =====
-- The delay that a refused request is given, and what a retry finds after it.
use native.Mathlib.Nat.{lt-mul-div-succ, mul-le-mul_right, div-mul-le_self, div-add-mod'}
use hyper_pod.Base.{ℕ, ◌+◌, ◌-◌, ◌*◌, ◌/◌, ◌%◌, ◌≤◌, ◌<◌, ◌≡◌, ◌≢◌, subst, arith, u64_mod, u128_mod}
use hyper_pod.Throttle.{
  TokenBucket, granted, retry_after, nanos_per_sec, earned_tokens, refill, spend, try_consume_at,
}
use hyper_pod.Throttle.Invariant.{IsValid, refill-IsValid}
use hyper_pod.Throttle.Rate.{refill-le, settings-refill, last_refill-refill}

-- While the product fits `u128`, earning is the exact quotient.
earned_tokens_exact :
    (nanos rate : ℕ)
    → nanos * rate < u128_mod
    → earned_tokens nanos rate ≡ nanos * rate / nanos_per_sec
unfolding earned_tokens
earned_tokens_exact nanos rate h = ground arith

-- When what is earned fits `u64`, a refill at a later instant brings `k` tokens, up to the
-- capacity, if the rate earns at least `k` in the time since the last one.
refill-covers :
    (now k : ℕ) (g : TokenBucket)
    → IsValid g
    → (now - g.last_refill) * g.refill_per_sec < u64_mod * nanos_per_sec
    → k * nanos_per_sec ≤ (now - g.last_refill) * g.refill_per_sec
    → g.tokens + k ≤ g.capacity
    → g.tokens + k ≤ (refill now g).tokens
unfolding refill
refill-covers now k g v small covers room =
    ground (arith, earned_tokens_exact (now - g.last_refill) g.refill_per_sec)

-- A delay of `d` from a refused request means that the missing tokens take longer than `d`
-- nanoseconds by less than one.
refused :
    (n d : ℕ) (g g' : TokenBucket)
    → 0 < g.refill_per_sec
    → d < u64_mod - 1
    → spend n g ≡ (retry_after d, g')
    → (g' ≡ g)
      × (g.tokens < n)
      × ((n - g.tokens) * nanos_per_sec < (d + 1) * g.refill_per_sec)
      × (d * g.refill_per_sec ≤ (n - g.tokens) * nanos_per_sec)
unfolding spend
refused n d g g' pos unclamped h =
    let missing = (n - g.tokens) * nanos_per_sec in
    ground (
      arith,
      div-mul-le_self missing g.refill_per_sec,
      lt-mul-div-succ missing {b = g.refill_per_sec} pos,
    )

spend_grants : (n : ℕ) (g : TokenBucket) → n ≤ g.tokens → (spend n g).0 ≡ granted
unfolding spend
spend_grants n g h = ground arith

-- After more than `d` nanoseconds the missing tokens are there.
waited_long_enough :
    (n later d : ℕ) (g : TokenBucket)
    → IsValid g
    → n ≤ g.capacity
    → g.tokens < n
    → (n - g.tokens) * nanos_per_sec < (d + 1) * g.refill_per_sec
    → g.last_refill + d < later
    → (later - g.last_refill) * g.refill_per_sec < u64_mod * nanos_per_sec
    → (try_consume_at n later g).0 ≡ granted
unfolding try_consume_at
waited_long_enough n later d g v fits short missing late small =
    let waited : (d + 1) * g.refill_per_sec ≤ (later - g.last_refill) * g.refill_per_sec =
      mul-le-mul_right g.refill_per_sec (omega arith) in
    spend_grants n (refill later g)
      (omega (arith, refill-covers later (n - g.tokens) g v small (omega arith) (omega arith)))

-- The delay is long enough but for the rounding: a retry later than the delay is granted, if the
-- request fits the capacity, the delay was not cut to `u64`, and the clock went forward by a time
-- whose earnings fit `u64`.
pub retry_succeeds :
    (n now later d : ℕ) (g g' : TokenBucket)
    → IsValid g
    → 0 < g.refill_per_sec
    → n ≤ g.capacity
    → g.last_refill ≤ now
    → try_consume_at n now g ≡ (retry_after d, g')
    → d < u64_mod - 1
    → now + d < later
    → (later - g.last_refill) * g.refill_per_sec < u64_mod * nanos_per_sec
    → (try_consume_at n later g').0 ≡ granted
retry_succeeds n now later d g g' v pos fits clock h unclamped late small =
    let (rate, capacity) = settings-refill now g in
    let (forward, when) = last_refill-refill now g in
    let spent : spend n (refill now g) ≡ (retry_after d, g') = unfold try_consume_at in h in
    let (same, short, missing, _) = refused n d (refill now g) g' (rw rate pos) unclamped spent in
    let shorter =
      mul-le-mul_right {m = later - (refill now g).last_refill} {n = later - g.last_refill}
        g.refill_per_sec (omega arith) in
    rw same (
      waited_long_enough n later d (refill now g) (refill-IsValid now g v) (rw capacity fits) short
        missing (omega arith) (rw rate (omega arith)))

-- Where the division leaves a rest, the delay is too short for the missing tokens.
refused_uneven :
    (n d : ℕ) (g g' : TokenBucket)
    → 0 < g.refill_per_sec
    → d < u64_mod - 1
    → spend n g ≡ (retry_after d, g')
    → (n - g.tokens) * nanos_per_sec % g.refill_per_sec ≢ 0
    → d * g.refill_per_sec < (n - g.tokens) * nanos_per_sec
unfolding spend
refused_uneven n d g g' pos unclamped h uneven =
    ground (arith, div-add-mod' ((n - g.tokens) * nanos_per_sec) g.refill_per_sec)

spend_refuses : (n : ℕ) (g : TokenBucket) → g.tokens < n → (spend n g).0 ≢ granted
unfolding spend
spend_refuses n g h = ground arith

retry_refused :
    (n d : ℕ) (g g' : TokenBucket)
    → 0 < g.refill_per_sec
    → spend n g ≡ (retry_after d, g')
    → d < u64_mod - 1
    → (n - g.tokens) * nanos_per_sec % g.refill_per_sec ≢ 0
    → (try_consume_at n (g.last_refill + d) g').0 ≢ granted
unfolding try_consume_at
retry_refused n d g g' pos h unclamped uneven =
    let (same, short, _, _) = refused n d g g' pos unclamped h in
    let rest = refused_uneven n d g g' pos unclamped h uneven in
    let now = g.last_refill + d in
    let (forward, when) = last_refill-refill now g in
    let span =
      mul-le-mul_right {m = (refill now g).last_refill - g.last_refill} {n = d} g.refill_per_sec
        (omega arith) in
    rw same (spend_refuses n (refill now g) (omega (arith, refill-le now g)))

-- A retry after exactly the reported delay is refused again, when the refused call had refilled the
-- bucket at its own instant and the rate does not divide the time of the missing tokens.
pub retry_too_early :
    (n now d : ℕ) (g g' : TokenBucket)
    → 0 < g.refill_per_sec
    → try_consume_at n now g ≡ (retry_after d, g')
    → (refill now g).last_refill ≡ now
    → d < u64_mod - 1
    → (n - (refill now g).tokens) * nanos_per_sec % g.refill_per_sec ≢ 0
    → (try_consume_at n (now + d) g').0 ≢ granted
retry_too_early n now d g g' pos h fresh unclamped uneven =
    let (rate, capacity) = settings-refill now g in
    let spent : spend n (refill now g) ≡ (retry_after d, g') = unfold try_consume_at in h in
    subst (λ t. (try_consume_at n (t + d) g').0 ≢ granted) fresh
      (retry_refused n d (refill now g) g' (rw rate pos) spent unclamped (rw rate uneven))

-- At rates so high that the tokens earned in one interval pass `u64`, the cut drops them: where
-- the earned number is a multiple of 2^64, time moves on and not one token is added.
pub refill_lost :
    (now k : ℕ) (g : TokenBucket)
    → IsValid g
    → g.last_refill < now
    → (now - g.last_refill) * g.refill_per_sec < u128_mod
    → (now - g.last_refill) * g.refill_per_sec / nanos_per_sec ≡ (k + 1) * u64_mod
    → ((refill now g).tokens ≡ g.tokens) × ((refill now g).last_refill ≡ now)
unfolding refill
refill_lost now k g v later small multiple =
    ground (arith, earned_tokens_exact (now - g.last_refill) g.refill_per_sec)
