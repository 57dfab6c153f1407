-- ===== src/Scaling/Threads/Order.antt =====
-- Whole rounds of the monitor's thread beside that of `run_vm` (hyperpod/src/scaling/mod.rs).
use hyper_pod.Base.{
  ℕ, ◌≡◌, ◌≢◌, ◌↔◌, refl, sym, subst, ◌∙◌, Bool, true, false, Option, none, some, List, [], ◌∷◌,
  ◌++◌, ◌⊎◌, inl, inr, All, arith, if◌then◌else◌,
}
use hyper_pod.Scaling.Float.{F64}
use hyper_pod.Scaling.{
  ScalingPolicy, Monitor, Round, new, next_shares, set_shares, tick, run_rounds, run_loop,
}
use hyper_pod.Scaling.Threads.{
  checking, stopped, choosing, floors, goes_on, stops, fails, keeps, chooses, is_refused, is_taken,
  stores, wakes, monitor_moves, run_vm_ends, spawned, Steps, none_yet, one_more,
}
use hyper_pod.Scaling.Threads.Refines.{IsRunning, Matches, Steps-Matches}

-- The round that finds the flag raised.
abbrev pub last_round : Round
last_round = record { shutdown = true; load = none; accepted = false }

-- The monitor's thread can end with `m`, whatever the other thread does beside it.
abbrev pub EndsWith : ScalingPolicy → Monitor → Type 0
EndsWith p m =
    (n : ℕ) × Steps p (spawned p) n
      (record { shared = record { monitor = m; shutdown = true }; pc = stopped })

-- The loop by itself leaves `m` after some rounds and one that finds the flag raised.
abbrev pub Leaves : ScalingPolicy → Monitor → Type 0
Leaves p m =
    (first : Bool) × (rs : List Round) × All IsRunning rs
    × (m ≡ run_loop p first (rs ++ last_round ∷ []) (new p))

run_rounds-last_round :
    (p : ScalingPolicy) (rs : List Round) (m : Monitor)
    → All IsRunning rs
    → run_rounds p (rs ++ last_round ∷ []) m ≡ run_rounds p rs m
unfolding run_rounds
run_rounds-last_round p [] m h = refl
run_rounds-last_round p (r ∷ rs) m (h, hs) =
    rw h (run_rounds-last_round p rs (tick p r.load r.accepted m) hs)

-- The thread is between two rounds, with `m`.
abbrev Reaches : ScalingPolicy → Monitor → Type 0
Reaches p m =
    (n : ℕ) × Steps p (spawned p) n
      (record { shared = record { monitor = m; shutdown = false }; pc = checking })

-- What a tick does with a measured load.
tick-cases :
    (p : ScalingPolicy) (load : F64) (accepted : Bool) (m : Monitor)
    → (next_shares p load m.cpu_shares ≡ m.cpu_shares) × (tick p (some load) accepted m ≡ m)
      ⊎ (next_shares p load m.cpu_shares ≢ m.cpu_shares)
        × (tick p (some load) accepted m ≡ (
            let told = set_shares (next_shares p load m.cpu_shares) accepted m in
            if accepted
            then record told { cpu_shares = next_shares p load m.cpu_shares }
            else told))
unfolding tick set_shares
tick-cases p load accepted m = ground arith

-- The thread has decided on `next`.
told :
    (p : ScalingPolicy) (accepted : Bool) (m : Monitor) (next : ℕ) {n : ℕ}
    → Steps p
        (spawned p)
        n
        (record { shared = record { monitor = m; shutdown = false }; pc = choosing next })
    → Reaches p (
        let told = set_shares next accepted m in
        if accepted then record told { cpu_shares = next } else told)
told p true m next before = (
  _,
  one_more (one_more (one_more before (monitor_moves is_taken)) (monitor_moves stores))
      (monitor_moves wakes),
)
told p false m next before =
    (_, one_more (one_more before (monitor_moves is_refused)) (monitor_moves wakes))

tick-Reaches :
    (p : ScalingPolicy) (load : Option F64) (accepted : Bool) (m : Monitor)
    → Reaches p m
    → Reaches p (tick p load accepted m)
unfolding tick
tick-Reaches p none accepted m (n, before) = (
  _,
  one_more (one_more (one_more before (monitor_moves (goes_on refl))) (monitor_moves fails))
      (monitor_moves wakes),
)
tick-Reaches p (some load) accepted m (n, before) = elim (tick-cases p load accepted m) [
  | inl (same, e) ↦ subst (Reaches p) (sym e) (
    _,
    one_more
        (one_more (one_more before (monitor_moves (goes_on refl)))
          (monitor_moves (keeps load same)))
        (monitor_moves wakes),
  )
  | inr (other, e) ↦ subst (Reaches p) (sym e) (
      told p accepted m _ (
        one_more (one_more before (monitor_moves (goes_on refl)))
          (monitor_moves (chooses load refl other))))
]

run_rounds-Reaches :
    (p : ScalingPolicy) (rs : List Round) (m : Monitor)
    → All IsRunning rs
    → Reaches p m
    → Reaches p (run_rounds p rs m)
unfolding run_rounds
run_rounds-Reaches p [] m h before = before
run_rounds-Reaches p (r ∷ rs) m (h, hs) before = rw h (
    run_rounds-Reaches p rs (tick p r.load r.accepted m) hs
      (tick-Reaches p r.load r.accepted m before))

run_loop-Reaches :
    (p : ScalingPolicy) (first : Bool) (rs : List Round)
    → All IsRunning rs
    → Reaches p (run_loop p first rs (new p))
unfolding run_loop
run_loop-Reaches p first rs h =
    run_rounds-Reaches p rs _ h (1, one_more none_yet (monitor_moves (floors first)))

EndsWith-Leaves : (p : ScalingPolicy) (m : Monitor) → EndsWith p m → Leaves p m
unfolding Matches run_loop
EndsWith-Leaves p m (n, before) =
    let (a, _) = Steps-Matches before in
    (a.first, a.rounds, a.running, a.same ∙ sym (run_rounds-last_round p a.rounds _ a.running))

Leaves-EndsWith : (p : ScalingPolicy) (m : Monitor) → Leaves p m → EndsWith p m
unfolding run_loop
Leaves-EndsWith p m (first, rs, running, e) =
    let (n, before) = run_loop-Reaches p first rs running in
    subst (EndsWith p) (sym (e ∙ run_rounds-last_round p rs _ running))
      (_, one_more (one_more before (run_vm_ends refl)) (monitor_moves (stops refl)))

-- However the steps of the monitor's thread and the end of `run_vm` are ordered, what the monitor
-- has and has told the sink when its thread is stopped is what `run_loop` makes by itself of some
-- rounds, the last of which finds the flag raised; and each such outcome of `run_loop` is reached by some order of the
-- steps.
pub EndsWith-iff : (p : ScalingPolicy) (m : Monitor) → EndsWith p m ↔ Leaves p m
EndsWith-iff p m = (EndsWith-Leaves p m, Leaves-EndsWith p m)
