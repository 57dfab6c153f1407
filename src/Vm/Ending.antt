-- ===== src/Vm/Ending.antt =====
-- Code that may not have come to its end yet, since the guest decides how long it runs: it changes a
-- state, and when it ends, it ends as Rust code does.
use hyper_pod.Base.{Outcome, ok, err, panic}

pub data Ending {ℓ} (A : Type ℓ) : Type ℓ where
  still_running : Ending A
  returned : Outcome A → Ending A

abbrev pub Run {ℓ} : Type ℓ → Type ℓ → Type ℓ
Run S A = S → Ending A × S

abbrev pub lift {ℓ} : {S A : Type ℓ} → Outcome A → Run S A
lift r s = (returned r, s)

abbrev pub pass_on {ℓ} : {S A B : Type ℓ} → Ending A × S → (A → Run S B) → Ending B × S
pass_on (still_running, s) f = (still_running, s)
pass_on (returned (ok a), s) f = f a s
pass_on (returned (err e), s) f = (returned (err e), s)
pass_on (returned panic, s) f = (returned panic, s)

infixl 5 ◌>>=◌ ◌>>◌
abbrev pub ◌>>=◌ {ℓ} : {S A B : Type ℓ} → Run S A → (A → Run S B) → Run S B
◌>>=◌ m f s = pass_on (m s) f

abbrev pub ◌>>◌ : {S B : Type 0} → Run S (Unit {0}) → Run S B → Run S B
m >> k = m >>= λ _. k
