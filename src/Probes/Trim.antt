-- ===== src/Probes/Trim.antt =====
-- The length of a text is fuel enough to strip a prefix from it as often as it comes.
use hyper_pod.Base.{
  ℕ, zero, suc, ◌+◌, ◌≤◌, ◌≡◌, refl, true, false, Option, none, some, List, [], ◌∷◌, length, arith,
  Option-cases, ap, ◌∙◌, inl, inr,
}
use hyper_pod.Probes.Text.{strip_prefix, starts_with, strip_fuel, strip_all}

strip_prefix-shorter :
    (p s rest : List ℕ) → strip_prefix p s ≡ some rest → length rest + length p ≤ length s
unfolding strip_prefix
strip_prefix-shorter [] s rest h = ground arith
strip_prefix-shorter (c ∷ cs) [] rest h = absurd (ground (arith, h))
strip_prefix-shorter (c ∷ cs) (d ∷ ds) rest h =
    let shorter = strip_prefix-shorter cs ds rest in ground arith

strip_fuel-none :
    (fuel : ℕ) (p s : List ℕ) → strip_prefix p s ≡ none → strip_fuel (suc fuel) p s ≡ s
unfolding strip_fuel
strip_fuel-none fuel p s e =
    ap (λ (o : Option (List ℕ)). elim o [ none ↦ s | some rest ↦ strip_fuel fuel p rest ]) e

strip_fuel-some :
    (fuel : ℕ) (p s rest : List ℕ)
    → strip_prefix p s ≡ some rest
    → strip_fuel (suc fuel) p s ≡ strip_fuel fuel p rest
unfolding strip_fuel
strip_fuel-some fuel p s rest e =
    ap (λ (o : Option (List ℕ)). elim o [ none ↦ s | some left ↦ strip_fuel fuel p left ]) e

starts_with-none : (p s : List ℕ) → strip_prefix p s ≡ none → starts_with p s ≡ false
unfolding starts_with
starts_with-none p s e = ap (λ (o : Option (List ℕ)). elim o [ none ↦ false | some rest ↦ true ]) e

strip_fuel-stripped :
    (fuel c : ℕ) (cs s : List ℕ)
    → length s ≤ fuel
    → starts_with (c ∷ cs) (strip_fuel fuel (c ∷ cs) s) ≡ false
unfolding strip_fuel starts_with strip_prefix
strip_fuel-stripped zero c cs [] h = refl
strip_fuel-stripped zero c cs (d ∷ ds) h = absurd (omega (arith, h))
strip_fuel-stripped (suc fuel) c cs s h =
    let p = c ∷ cs in
    elim (Option-cases (strip_prefix p s)) [
      | inl e ↦ ap (starts_with p) (strip_fuel-none fuel p s e) ∙ starts_with-none p s e
      | inr (rest, e) ↦
          let shorter = strip_prefix-shorter p s rest e in
          ap (starts_with p) (strip_fuel-some fuel p s rest e)
          ∙ strip_fuel-stripped fuel c cs rest (omega arith)
    ]

-- What is left begins with the prefix no more.
pub strip_all-stripped :
    (c : ℕ) (cs s : List ℕ) → starts_with (c ∷ cs) (strip_all (c ∷ cs) s) ≡ false
strip_all-stripped c cs s = strip_fuel-stripped (length s) c cs s (omega arith)
