-- ===== src/Base/Action.antt =====
-- Code that changes a state of type `S` and may fail: the state comes back with every outcome,
-- since what was written before an error stays written.
use mathlib.Core.Path.{◌≡◌, refl, ap}
use native.Mathlib.Omega.{arith}
use hyper_pod.Base.Results.{Error, Outcome, ok, err, panic}

abbrev pub Action {ℓ} : Type ℓ → Type ℓ → Type ℓ
Action S A = S → Outcome A × S

module _ {ℓ} {S A : Type ℓ} where
  abbrev pub pure : A → Action S A
  pure a s = (ok a, s)

  abbrev pub raise : Error → Action S A
  raise e s = (err e, s)

  -- A function that reads the state and does not change it.
  abbrev pub reads : (S → Outcome A) → Action S A
  reads f s = (f s, s)

infixl 5 ◌>>=◌ ◌>>◌
abbrev pub ◌>>=◌ {ℓ} : {S A B : Type ℓ} → Action S A → (A → Action S B) → Action S B
◌>>=◌ m f s =
    let (r, s') = m s in elim r [ ok a ↦ f a s' | err e ↦ (err e, s') | panic ↦ (panic, s') ]

abbrev pub ◌>>◌ : {S B : Type 0} → Action S (Unit {0}) → Action S B → Action S B
m >> k = m >>= λ _. k

-- A first step that returns hands over to the rest.
pub >>=-ok {ℓ} :
    {S A B : Type ℓ} (m : Action S A) (f : A → Action S B) (s : S) {a : A} {s' : S}
    → m s ≡ (ok a, s')
    → (m >>= f) s ≡ f a s'
>>=-ok m f s h = ground arith

-- A block that returned has a first step that returned, and a rest that did.
bind_inversion {ℓ} :
    {S A B : Type ℓ} (r : Outcome A) (s' : S) (f : A → Action S B) {b : B} {t : S}
    → ((λ _. (r, s')) >>= f) s' ≡ (ok b, t)
    → (a : A) × (r ≡ ok a) × (f a s' ≡ (ok b, t))
bind_inversion (ok a) s' f h = (a, refl, h)
bind_inversion (err e) s' f h = cc
bind_inversion panic s' f h = cc

pub >>=-eq-ok {ℓ} :
    {S A B : Type ℓ} (m : Action S A) (f : A → Action S B) (s : S) {b : B} {t : S}
    → (m >>= f) s ≡ (ok b, t)
    → (a : A) × (s' : S) × (m s ≡ (ok a, s')) × (f a s' ≡ (ok b, t))
>>=-eq-ok m f s h =
    let (r, s') = m s in
    let (a, returned, rest) = bind_inversion r s' f h in (a, s', ap (λ x. (x, s')) returned, rest)
