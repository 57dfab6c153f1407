-- ===== src/Boot/Region.antt =====
-- Writers of one region of guest memory: what they leave there, and that they leave the rest alone.
use hyper_pod.Base.{ℕ, ◌≤◌, ◌<◌, ◌≡◌, ◌⊎◌, Outcome, ok, arith}
use hyper_pod.Ram.{GuestRam}

-- `P` speaks of the bytes from `lo` up to `hi` only.
abbrev pub IsLocal : ℕ → ℕ → ((ℕ → ℕ) → Type 0) → Type 0
IsLocal lo hi P = (c d : ℕ → ℕ) → ((a : ℕ) → lo ≤ a → a < hi → d a ≡ c a) → P c → P d

-- `result` is a normal return with `P` in memory, and nothing outside of the region changed.
pub record Puts (lo hi : ℕ) (P : (ℕ → ℕ) → Type 0) (ram : GuestRam)
    (result : Outcome (Unit {0}) × GuestRam) : Type 0 where
  pub after : ℕ → ℕ
  pub returns : result ≡ (ok tt, record ram { cell = after })
  pub holds : P after
  pub outside : (a : ℕ) → (a < lo) ⊎ (hi ≤ a) → after a ≡ ram.cell a

-- What holds of a region still does after a writer of a region apart from it.
pub Puts-keeps :
    {lo hi l h : ℕ} {P Q : (ℕ → ℕ) → Type 0} {ram : GuestRam}
    {result : Outcome (Unit {0}) × GuestRam} (p : Puts lo hi P ram result)
    → IsLocal l h Q
    → (hi ≤ l) ⊎ (h ≤ lo)
    → Q ram.cell
    → Q p.after
Puts-keeps {ram = ram} p local apart q =
    local ram.cell p.after (λ a from to. p.outside a (ground arith)) q
