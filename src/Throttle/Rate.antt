-- ===== src/Throttle/Rate.antt =====
-- How much a bucket grants in a span of time.
use hyper_pod.Base.{ℕ, ◌+◌, ◌-◌, ◌*◌, ◌≤◌, ◌≡◌, ◌⊎◌, inl, inr, ap, List, [], ◌∷◌, arith}
use hyper_pod.Throttle.{
  TokenBucket, Consumed, granted, retry_after, nanos_per_sec, earned_tokens, refill, spend,
  try_consume_at,
}

-- Earning rounds down, and the cuts to machine widths only lose tokens.
pub earned_tokens-le : (nanos rate : ℕ) → earned_tokens nanos rate * nanos_per_sec ≤ nanos * rate
unfolding earned_tokens
earned_tokens-le nanos rate = omega arith

-- A refill adds no more than the rate allows for the time that it accounts for.
pub refill-le :
    (now : ℕ) (g : TokenBucket)
    → (refill now g).tokens * nanos_per_sec
      ≤ g.tokens * nanos_per_sec + ((refill now g).last_refill - g.last_refill) * g.refill_per_sec
unfolding refill
refill-le now g = ground (arith, earned_tokens-le (now - g.last_refill) g.refill_per_sec)

-- The refill clock goes forward, and never past the present.
pub last_refill-refill :
    (now : ℕ) (g : TokenBucket)
    → (g.last_refill ≤ (refill now g).last_refill)
      × (((refill now g).last_refill ≡ g.last_refill) ⊎ ((refill now g).last_refill ≡ now))
unfolding refill
last_refill-refill now g = ground arith

pub settings-refill :
    (now : ℕ) (g : TokenBucket)
    → ((refill now g).refill_per_sec ≡ g.refill_per_sec) × ((refill now g).capacity ≡ g.capacity)
unfolding refill
settings-refill now g = ground arith

-- Requests in the order of their arrival: the tokens asked for, and the instant.
abbrev pub Requests : Type 0
Requests = List (ℕ × ℕ)

-- What a reply hands out, of the `n` tokens that were asked for.
abbrev pub handed : ℕ → Consumed → ℕ
handed n granted = n
handed n (retry_after _) = 0

-- The tokens that a run of requests is granted in all.
pub total_granted : Requests → TokenBucket → ℕ
total_granted [] g = 0
total_granted ((n, now) ∷ rest) g =
    let (reply, g') = try_consume_at n now g in handed n reply + total_granted rest g'

-- Every instant of the requests is at most `t`.
abbrev pub Until : ℕ → Requests → Type 0
Until t [] = Unit
Until t ((n, now) ∷ rest) = (now ≤ t) × Until t rest

spend_conserves :
    (n : ℕ) (g : TokenBucket)
    → (handed n (spend n g).0 + (spend n g).1.tokens ≡ g.tokens)
      × ((spend n g).1.last_refill ≡ g.last_refill)
      × ((spend n g).1.refill_per_sec ≡ g.refill_per_sec)
unfolding spend
spend_conserves n g = ground arith

-- Two spans of time one after the other earn what the whole span earns.
span_add : (a b t r : ℕ) → a ≤ b → (b ≡ a) ⊎ (b ≤ t) → (b - a) * r + (t - b) * r ≡ (t - a) * r
span_add a b t r h (inl e) = let gone : a - a ≡ 0 = omega arith in rw e (rw gone (omega arith))
span_add a b t r h (inr k) =
    let e : t - a ≡ (b - a) + (t - b) = omega arith in omega (arith, ap (λ (x : ℕ). x * r) e)

-- One request uses up tokens and time by no more than it hands out.
module _ (n now : ℕ) (g : TokenBucket) where
  abbrev after : TokenBucket
  after = (try_consume_at n now g).1

  step_budget :
      (handed n (try_consume_at n now g).0 + after.tokens) * nanos_per_sec
      ≤ g.tokens * nanos_per_sec + (after.last_refill - g.last_refill) * g.refill_per_sec
  unfolding try_consume_at
  step_budget =
      let (paid, same_time, _) = spend_conserves n (refill now g) in
      rw (paid, same_time) (refill-le now g)

  step_time :
      (g.last_refill ≤ after.last_refill)
      × ((after.last_refill ≡ g.last_refill) ⊎ (after.last_refill ≡ now))
      × (after.refill_per_sec ≡ g.refill_per_sec)
  unfolding try_consume_at
  step_time =
      ground
        (arith, spend_conserves n (refill now g), last_refill-refill now g, settings-refill now g)

-- Up to any instant `t`, the requests are granted in all no more than the tokens that were there
-- and those that the rate earns in the time since the last refill.
pub rate_limit :
    (t : ℕ) (rs : Requests) (g : TokenBucket)
    → Until t rs
    → total_granted rs g * nanos_per_sec
      ≤ g.tokens * nanos_per_sec + (t - g.last_refill) * g.refill_per_sec
unfolding total_granted
rate_limit t [] g h = omega arith
rate_limit t ((n, now) ∷ rest) g h =
    let g' = (try_consume_at n now g).1 in
    let (forward, when, same_rate) = step_time n now g in
    omega (
      arith,
      rate_limit t rest g' h.1,
      ap (λ (r : ℕ). (t - g'.last_refill) * r) same_rate,
      step_budget n now g,
      span_add g.last_refill g'.last_refill t g.refill_per_sec forward
          (elim when [ inl e ↦ inl e | inr e ↦ inr (omega arith) ]),
    )
