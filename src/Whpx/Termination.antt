-- ===== src/Whpx/Termination.antt =====
-- When the exit loop of hyperpod/src/vmm/windows/vm.rs is left.
use hyper_pod.Base.{
  ℕ, zero, suc, ◌≤◌, ◌≡◌, refl, ap, ◌∙◌, Bool, true, false, List, [], ◌∷◌, length, ok, any, arith,
}
use hyper_pod.Vm.Ending.{returned}
use hyper_pod.Whpx.Partition.{
  Exit, none, halt, unrecoverable, canceled, other, io, memory, Platform, Host,
}
use hyper_pod.Whpx.Loop.{handle_exit, run_loop}
use hyper_pod.Whpx.Rounds.{
  IsWilling, Exits, handle_exit-io, handle_exit-memory, round-goes_on, round-ends,
}

-- The exits after which the loop returns.
unfoldable pub ends_loop : Exit → Bool
ends_loop halt = true
ends_loop unrecoverable = true
ends_loop other = true
ends_loop _ = false

-- Let every call of the hypervisor succeed, and let the processor exit, in turn, with `es`, of which
-- one is a halt, an unrecoverable exception or an exit that the loop does not know. Then the loop
-- returns, and in success, within as many rounds as there are exits, however many more it may have.
pub run_loop-returns :
    (host : Host) (es : List Exit) (rounds : ℕ) (p : Platform)
    → IsWilling host
    → Exits host es p
    → any ends_loop es ≡ true
    → length es ≤ rounds
    → (run_loop host rounds p).0 ≡ returned (ok tt)
unfolding Exits ends_loop handle_exit
run_loop-returns host [] rounds p willing exits last enough = absurd (ground (arith, last))
run_loop-returns host (e ∷ es) zero p willing exits last enough = absurd (omega (arith, enough))
run_loop-returns host (halt ∷ es) (suc rounds) p willing exits last enough =
    ap (λ r. r.0) (round-ends host willing halt (rounds) p exits.0 refl)
run_loop-returns host (unrecoverable ∷ es) (suc rounds) p willing exits last enough =
    ap (λ r. r.0) (round-ends host willing unrecoverable (rounds) p exits.0 refl)
run_loop-returns host (other ∷ es) (suc rounds) p willing exits last enough =
    ap (λ r. r.0) (round-ends host willing other (rounds) p exits.0 refl)
run_loop-returns host (none ∷ es) (suc rounds) p willing exits last enough =
    ap (λ r. r.0) (round-goes_on host willing none (rounds) p exits.0 refl)
    ∙ run_loop-returns host es rounds _ willing exits.1 last (omega (arith, enough))
run_loop-returns host (canceled ∷ es) (suc rounds) p willing exits last enough =
    ap (λ r. r.0) (round-goes_on host willing canceled (rounds) p exits.0 refl)
    ∙ run_loop-returns host es rounds _ willing exits.1 last (omega (arith, enough))
run_loop-returns host (memory gpa rip size ∷ es) (suc rounds) p willing exits last enough =
    ap (λ r. r.0)
      (round-goes_on host willing (memory gpa rip size) (rounds) p exits.0
        (ap (λ r. r.0) (handle_exit-memory host willing gpa rip size _)))
    ∙ run_loop-returns host es rounds _ willing exits.1 last (omega (arith, enough))
run_loop-returns host (io port raw_info rax rip size ∷ es) (suc rounds) p willing exits last
      enough =
    ap (λ r. r.0)
      (round-goes_on host willing (io port raw_info rax rip size) (rounds) p exits.0
        (ap (λ r. r.0) (handle_exit-io host willing port raw_info rax rip size _)))
    ∙ run_loop-returns host es rounds _ willing exits.1 last (omega (arith, enough))
