-- ===== src/Scaling/Tests.antt =====
-- The scaler over concrete rounds.
use hyper_pod.Base.{
  ◌≡◌, ◌≤◌, ◌↔◌, ◌⊎◌, refl, true, false, none, some, List, [], ◌∷◌, arith, replicate,
}
use hyper_pod.Config.{Limits}
use hyper_pod.Config.Admission.{LimitsAreValid}
use hyper_pod.Scaling.Float.{F64, le64}
use hyper_pod.Scaling.{Monitor, Round, from_limits, new, set_shares, run_rounds}
use hyper_pod.Scaling.Range.{IsValid}
use hyper_pod.Scaling.Converge.{steady, reaches_maximum}
use hyper_pod.Scaling.Threads.{
  floors, spawned, Threads, Step, Steps, none_yet, one_more, monitor_moves, is_taken, stores, wakes,
  choosing, checking, stopped, tell, store_shares,
}
use hyper_pod.Scaling.Threads.Bounds.{Steps-IsValid}
use hyper_pod.Scaling.Threads.Order.{EndsWith, Leaves, EndsWith-iff}
use hyper_pod.Scaling.Threads.Shutdown.{shutdown-Stops}

abbrev limits : Limits
limits = record { min_ram = 64; max_ram = 128; min_cpu_shares = 100; max_cpu_shares = 140 }

limits_are_valid : LimitsAreValid limits
limits_are_valid = record {
  some_ram = omega arith;
  ram_ordered = omega arith;
  some_shares = omega arith;
  shares_ordered = omega arith;
  shares_bounded = omega arith;
}

-- 1.0, 0.5, 0.0
abbrev one : F64
one = 0x3ff0000000000000

abbrev half : F64
half = 0x3fe0000000000000

abbrev nothing : F64
nothing = 0

abbrev rounds : List Round
rounds =
    steady one
    ∷ record { shutdown = false; load = some one; accepted = false }
    ∷ record { shutdown = false; load = none; accepted = true }
    ∷ steady half
    ∷ steady nothing
    ∷ record { shutdown = true; load = some one; accepted = true }
    ∷ []

abbrev started : Monitor
started = record { cpu_shares = 100; writes = (100, true) ∷ [] }

reaches_maximum_example :
    (run_rounds (from_limits limits) (replicate 40 (steady one)) started).cpu_shares ≡ 140
unfolding from_limits le64
reaches_maximum_example =
    reaches_maximum (from_limits limits) one 40 started refl refl (omega arith, omega arith)
      (omega arith)

abbrev ended : Monitor
ended = record { cpu_shares = 110; writes = (110, true) ∷ (100, false) ∷ [] }

EndsWith-iff_example : EndsWith (from_limits limits) ended ↔ Leaves (from_limits limits) ended
EndsWith-iff_example = EndsWith-iff (from_limits limits) ended

-- The monitor decides on 110 while the flag is raised.
abbrev deciding : Threads
deciding = record { shared = record { monitor = started; shutdown = true }; pc = choosing 110 }

deciding-Steps :
    Steps
      (from_limits limits)
      deciding
      3
      (record { shared = store_shares 110 (tell 110 true deciding.shared); pc = checking })
deciding-Steps =
    one_more (one_more (one_more none_yet (monitor_moves is_taken)) (monitor_moves stores))
      (monitor_moves wakes)

shutdown-Stops_example :
    (3 ≤ 5)
    × (2 ≤ 2)
    × ((checking ≡ stopped)
        ⊎ ((v : Threads) × Step
              (from_limits limits)
              (record { shared = store_shares 110 (tell 110 true deciding.shared); pc = checking })
              v))
unfolding set_shares
shutdown-Stops_example = shutdown-Stops (from_limits limits) deciding _ refl deciding-Steps

abbrev floored : Threads
floored = record {
  shared = tell 100 true (record { monitor = new (from_limits limits); shutdown = false });
  pc = checking;
}

floored-Steps : Steps (from_limits limits) (spawned (from_limits limits)) 1 floored
unfolding from_limits
floored-Steps = one_more none_yet (monitor_moves (floors true))

Steps-IsValid_example : IsValid (from_limits limits) floored.shared.monitor
unfolding from_limits
Steps-IsValid_example = Steps-IsValid (from_limits limits) (omega arith) floored-Steps
