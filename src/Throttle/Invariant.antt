-- ===== src/Throttle/Invariant.antt =====
-- The capacity of the bucket, and the two outcomes of a request.
use hyper_pod.Base.{
  ℕ, ◌-◌, ◌≤◌, ◌<◌, ◌≡◌, List, [], ◌∷◌, arith, u64_mod, ◌*◌, ◌/◌, min_of, ◌⊎◌, inl, inr, leb, ◌==◌,
  Bool-cases,
}
use hyper_pod.Throttle.{
  TokenBucket, nanos_per_sec, granted, retry_after, Call, new, refill, spend, try_consume_at, apply,
  run,
}

pub record IsValid (g : TokenBucket) : Type 0 where
  pub fits : g.capacity < u64_mod
  pub rate_fits : g.refill_per_sec < u64_mod
  pub within : g.tokens ≤ g.capacity

-- The `u64` arguments of a call.
abbrev pub InRange : Call → Type 0
InRange (Call.rate r) = r < u64_mod
InRange (Call.capacity c) = c < u64_mod
InRange (Call.consume n now) = n < u64_mod

abbrev pub AllInRange : List Call → Type 0
AllInRange [] = Unit
AllInRange (c ∷ cs) = InRange c × AllInRange cs

pub new-IsValid : (c r now : ℕ) → c < u64_mod → r < u64_mod → IsValid (new c r now)
unfolding new
new-IsValid c r now hc hr = ground arith

pub refill-IsValid : (now : ℕ) (g : TokenBucket) → IsValid g → IsValid (refill now g)
unfolding refill
refill-IsValid now g v = ground arith

spend-IsValid : (n : ℕ) (g : TokenBucket) → IsValid g → IsValid (spend n g).1
unfolding spend
spend-IsValid n g v = ground arith

pub try_consume_at-IsValid :
    (n now : ℕ) (g : TokenBucket) → IsValid g → IsValid (try_consume_at n now g).1
unfolding try_consume_at
try_consume_at-IsValid n now g v = spend-IsValid n (refill now g) (refill-IsValid now g v)

pub apply-IsValid : (c : Call) (g : TokenBucket) → InRange c → IsValid g → IsValid (apply c g)
unfolding apply
apply-IsValid (Call.rate r) g h v = ground arith
apply-IsValid (Call.capacity c) g h v = ground arith
apply-IsValid (Call.consume n now) g h v = try_consume_at-IsValid n now g v

-- From a valid bucket, any calls with 64-bit arguments, in any order, leave a valid one, of at most
-- `capacity` tokens.
pub run-IsValid :
    (cs : List Call) (g : TokenBucket) → AllInRange cs → IsValid g → IsValid (run cs g)
unfolding run
run-IsValid [] g h v = v
run-IsValid (c ∷ cs) g h v = run-IsValid cs (apply c g) h.1 (apply-IsValid c g h.0 v)

-- A request is granted exactly when the refilled bucket covers it, and then takes just what it
-- asked for; a refused one takes nothing.
pub try_consume_at-cases :
    (n now : ℕ) (g : TokenBucket)
    → let r = refill now g in
      ((n ≤ r.tokens) × (try_consume_at n now g ≡ (granted, record r { tokens = r.tokens - n })))
      ⊎ ((r.tokens < n) × (d : ℕ) × (try_consume_at n now g ≡ (retry_after d, r)))
unfolding try_consume_at spend
try_consume_at-cases n now g = elim (Bool-cases (leb n (refill now g).tokens)) [
  | inl covered ↦ inl (ground arith)
  | inr short ↦ elim (Bool-cases ((refill now g).refill_per_sec == 0)) [
    | inl still ↦ inr (ground arith, 3600 * nanos_per_sec, ground arith)
    | inr flows ↦
        let r = refill now g in
        inr (
          ground arith,
          min_of ((n - r.tokens) * nanos_per_sec / r.refill_per_sec) (u64_mod - 1),
          ground arith,
        )
  ]
]
