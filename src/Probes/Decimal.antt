-- ===== src/Probes/Decimal.antt =====
-- The decimal numbers that the share sink writes, `set_shares` of hyperpod/src/scaling/probes.rs.
use hyper_pod.Base.{
  ℕ, zero, suc, ◌+◌, ◌-◌, ◌*◌, ◌/◌, ◌%◌, ◌^◌, ◌<◌, ◌≡◌, ◌∙◌, List, [], ◌∷◌, arith, ltb, Bool,
  Bool-cases, inl, inr, ap, min_of, max_of,
}
use hyper_pod.Scaling.{clamp_shares}
use hyper_pod.Probes.Linux.{decimal_fuel, set_shares}

-- A reader of digits, after a number that it has read.
unfoldable pub number_from : ℕ → List ℕ → ℕ
number_from n [] = n
number_from n (c ∷ cs) = number_from (n * 10 + (c - 48)) cs

tenth : (n fuel : ℕ) → n < 10 ^ suc fuel → n / 10 < 10 ^ fuel
tenth n fuel h = omega arith

number_from-decimal_fuel :
    (fuel n : ℕ) (after : List ℕ)
    → n < 10 ^ fuel
    → number_from 0 (decimal_fuel fuel n after) ≡ number_from n after
unfolding number_from decimal_fuel
number_from-decimal_fuel zero n after h = ground arith
number_from-decimal_fuel (suc fuel) n after h = elim (Bool-cases (ltb n 10)) [
  | inl small ↦ rw small (ap (λ k. number_from k after) (omega arith))
  | inr large ↦ rw large (
      number_from-decimal_fuel fuel (n / 10) ((48 + n % 10) ∷ after) (tenth n fuel h)
      ∙ ap (λ k. number_from k after) (omega arith))
]

clamp_shares-bound : (shares : ℕ) → clamp_shares shares < 10 ^ 20
unfolding clamp_shares
clamp_shares-bound shares = ground arith

clamp_shares-nearest :
    (shares : ℕ) → number_from (clamp_shares shares) [] ≡ min_of (max_of shares 1) 10000
unfolding clamp_shares number_from
clamp_shares-nearest shares = ground arith

-- The text that the sink writes, whatever shares it is told, is the decimal form of the nearest number
-- between 1 and 10000.
pub number_from-set_shares :
    (accepted : Bool) (shares : ℕ)
    → number_from 0 (set_shares accepted shares).1 ≡ min_of (max_of shares 1) 10000
unfolding set_shares clamp_shares
number_from-set_shares accepted shares =
    number_from-decimal_fuel 20 (clamp_shares shares) [] (clamp_shares-bound shares)
    ∙ clamp_shares-nearest shares
