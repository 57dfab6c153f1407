-- ===== src/Scaling/Threads/Bounds.antt =====
-- The policy's bounds at every step of the two threads (hyperpod/src/scaling/mod.rs).
use hyper_pod.Base.{ℕ, ◌≤◌, sym, subst, arith}
use hyper_pod.Scaling.{ScalingPolicy, new, set_shares}
use hyper_pod.Scaling.Range.{Within, IsValid, next_shares-Within}
use hyper_pod.Scaling.Threads.{
  Shared, Pc, starting, checking, measuring, sleeping, stopped, choosing, storing, Move, floors,
  goes_on, stops, fails, keeps, chooses, is_refused, is_taken, stores, wakes, Threads,
  monitor_moves, run_vm_ends, spawned, Steps, none_yet, one_more,
}

-- What the thread carries is within the bounds.
abbrev Carries : ScalingPolicy → Pc → Type 0
Carries p (choosing next) = Within p next
Carries p (storing next) = Within p next
Carries p starting = Unit
Carries p checking = Unit
Carries p measuring = Unit
Carries p sleeping = Unit
Carries p stopped = Unit

Move-IsValid :
    {p : ScalingPolicy} {s s' : Shared} {pc pc' : Pc}
    → Move p s pc s' pc'
    → p.min_cpu_shares ≤ p.max_cpu_shares
    → IsValid p s.monitor
    → Carries p pc
    → IsValid p s'.monitor × Carries p pc'
unfolding set_shares
Move-IsValid (floors accepted) h v c = (
  record { shares_within = v.shares_within; writes_within = ((omega arith, h), v.writes_within) },
  tt,
)
Move-IsValid (goes_on e) h v c = (v, tt)
Move-IsValid (stops e) h v c = (v, tt)
Move-IsValid fails h v c = (v, tt)
Move-IsValid (keeps load e) h v c = (v, tt)
Move-IsValid {p} {s} (chooses load {next} e ne) h v c =
    (v, subst (Within p) (sym e) (next_shares-Within p load s.monitor.cpu_shares v.shares_within))
Move-IsValid is_refused h v c =
    (record { shares_within = v.shares_within; writes_within = (c, v.writes_within) }, tt)
Move-IsValid is_taken h v c =
    (record { shares_within = v.shares_within; writes_within = (c, v.writes_within) }, c)
Move-IsValid stores h v c = (record { shares_within = c; writes_within = v.writes_within }, tt)
Move-IsValid wakes h v c = (v, tt)

Steps-Carries :
    {p : ScalingPolicy} {n : ℕ} {t : Threads}
    → Steps p (spawned p) n t
    → p.min_cpu_shares ≤ p.max_cpu_shares
    → IsValid p t.shared.monitor × Carries p t.pc
unfolding new
Steps-Carries none_yet h = (record { shares_within = (omega arith, h); writes_within = tt }, tt)
Steps-Carries (one_more before (monitor_moves m)) h =
    let ih = Steps-Carries before h in Move-IsValid m h ih.0 ih.1
Steps-Carries (one_more before (run_vm_ends e)) h = Steps-Carries before h

-- If the policy's bounds are in order, then at every moment, in every order of the steps of the two
-- threads and whatever the probe measures and the sink answers, the shares are between the bounds,
-- and so is every value that the sink was told.
pub Steps-IsValid :
    (p : ScalingPolicy) {n : ℕ} {t : Threads}
    → p.min_cpu_shares ≤ p.max_cpu_shares
    → Steps p (spawned p) n t
    → IsValid p t.shared.monitor
Steps-IsValid p h steps = (Steps-Carries steps h).0
