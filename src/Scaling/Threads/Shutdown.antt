-- ===== src/Scaling/Threads/Shutdown.antt =====
-- What the monitor's thread still does once the flag is raised (hyperpod/src/scaling/mod.rs).
use hyper_pod.Base.{ℕ, suc, ◌+◌, ◌≤◌, ◌≡◌, ◌⊎◌, inl, inr, refl, true, length, arith, Bool-cases}
use hyper_pod.Scaling.{ScalingPolicy, set_shares}
use hyper_pod.Scaling.Threads.{
  Shared, Pc, starting, checking, measuring, sleeping, stopped, choosing, storing, Move, floors,
  goes_on, stops, fails, keeps, chooses, is_refused, is_taken, stores, wakes, Threads, Step,
  monitor_moves, run_vm_ends, Steps, none_yet, one_more,
}

-- The steps that are left at most, and the values that the sink can still be told.
abbrev pub steps_left : Pc → ℕ
steps_left starting = 2
steps_left checking = 1
steps_left measuring = 5
steps_left (choosing next) = 4
steps_left (storing next) = 3
steps_left sleeping = 2
steps_left stopped = 0

abbrev pub writes_left : Pc → ℕ
writes_left starting = 1
writes_left checking = 0
writes_left measuring = 1
writes_left (choosing next) = 1
writes_left (storing next) = 0
writes_left sleeping = 0
writes_left stopped = 0

-- Each move takes one of the steps that are left, and a write one of the writes.
Move-spends :
    {p : ScalingPolicy} {s s' : Shared} {pc pc' : Pc}
    → Move p s pc s' pc'
    → s.shutdown ≡ true
    → (s'.shutdown ≡ true)
      × (suc (steps_left pc') ≤ steps_left pc)
      × (length s'.monitor.writes + writes_left pc' ≤ length s.monitor.writes + writes_left pc)
unfolding set_shares
Move-spends (floors accepted) h = (h, omega arith, omega arith)
Move-spends (goes_on e) h = cc
Move-spends (stops e) h = (h, omega arith, omega arith)
Move-spends fails h = (h, omega arith, omega arith)
Move-spends (keeps load e) h = (h, omega arith, omega arith)
Move-spends (chooses load e ne) h = (h, omega arith, omega arith)
Move-spends is_refused h = (h, omega arith, omega arith)
Move-spends is_taken h = (h, omega arith, omega arith)
Move-spends stores h = (h, omega arith, omega arith)
Move-spends wakes h = (h, omega arith, omega arith)

Steps-spends :
    {p : ScalingPolicy} {t : Threads} {n : ℕ} {u : Threads}
    → Steps p t n u
    → t.shared.shutdown ≡ true
    → (u.shared.shutdown ≡ true)
      × (n + steps_left u.pc ≤ steps_left t.pc)
      × (length u.shared.monitor.writes + writes_left u.pc
          ≤ length t.shared.monitor.writes + writes_left t.pc)
Steps-spends none_yet h = (h, omega arith, omega arith)
Steps-spends (one_more before (monitor_moves m)) h =
    let ih = Steps-spends before h in
    let now = Move-spends m ih.0 in (now.0, omega arith, omega arith)
Steps-spends (one_more before (run_vm_ends e)) h = let ih = Steps-spends before h in cc

-- A thread that is not stopped has a move, whatever the flag is.
moves :
    (p : ScalingPolicy) (s : Shared) (pc : Pc)
    → (pc ≡ stopped) ⊎ ((s' : Shared) × (pc' : Pc) × Move p s pc s' pc')
moves p s starting = inr (_, _, floors true)
moves p s checking = elim (Bool-cases s.shutdown) [
  | inl e ↦ inr (_, _, stops e)
  | inr e ↦ inr (_, _, goes_on e)
]
moves p s measuring = inr (_, _, fails)
moves p s (choosing next) = inr (_, _, is_refused)
moves p s (storing next) = inr (_, _, stores)
moves p s sleeping = inr (_, _, wakes)
moves p s stopped = inl refl

goes : (p : ScalingPolicy) (u : Threads) → (u.pc ≡ stopped) ⊎ ((v : Threads) × Step p u v)
goes p u = elim (moves p u.shared u.pc) [
  | inl e ↦ inl e
  | inr (s, pc, m) ↦ inr (_, monitor_moves m)
]

at_most : (pc : Pc) → (steps_left pc ≤ 5) × (writes_left pc ≤ 1)
at_most starting = (omega arith, omega arith)
at_most checking = (omega arith, omega arith)
at_most measuring = (omega arith, omega arith)
at_most (choosing next) = (omega arith, omega arith)
at_most (storing next) = (omega arith, omega arith)
at_most sleeping = (omega arith, omega arith)
at_most stopped = (omega arith, omega arith)

-- Once the flag is raised, wherever the monitor's thread stands then, at most five more steps are
-- made, the sink is told at most one more value on the way, and as long as the thread is not stopped there is a
-- further step.
pub shutdown-Stops :
    (p : ScalingPolicy) (t u : Threads) {n : ℕ}
    → t.shared.shutdown ≡ true
    → Steps p t n u
    → (n ≤ 5)
      × (length u.shared.monitor.writes ≤ suc (length t.shared.monitor.writes))
      × ((u.pc ≡ stopped) ⊎ ((v : Threads) × Step p u v))
shutdown-Stops p t u h steps =
    let spent = Steps-spends steps h in
    let bound = at_most t.pc in (omega arith, omega arith, goes p u)
