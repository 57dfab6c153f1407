-- ===== src/Scaling/Threads.antt =====
-- The monitor's thread beside the thread of `run_vm`, hyperpod/src/scaling/mod.rs: one step for each
-- access to what they share and for each call of the probe or the sink, in any order.
pub mod Refines
pub mod Order
pub mod Bounds
pub mod Shutdown
use hyper_pod.Base.{ℕ, suc, ◌≡◌, ◌≢◌, Bool, true, false}
use hyper_pod.Scaling.Float.{F64}
use hyper_pod.Scaling.{ScalingPolicy, Monitor, new, next_shares, set_shares}

-- `MonitorState` with what the sink was told.
pub record Shared : Type 0 where
  pub monitor : Monitor
  pub shutdown : Bool

-- Where the monitor stands, with the shares that `tick` goes for where it has decided.
pub data Pc : Type 0 where
  starting checking measuring sleeping stopped : Pc
  choosing storing : ℕ → Pc

abbrev pub tell : ℕ → Bool → Shared → Shared
tell shares accepted s = record s { monitor = set_shares shares accepted s.monitor }

abbrev pub store_shares : ℕ → Shared → Shared
store_shares shares s = record s { monitor = record s.monitor { cpu_shares = shares } }

-- One step of `run_loop` and of the `tick` in it.
pub data Move (p : ScalingPolicy) (s : Shared) : Pc → Shared → Pc → Type 0 where
  floors : (accepted : Bool) → Move p s starting (tell p.min_cpu_shares accepted s) checking
  goes_on : s.shutdown ≡ false → Move p s checking s measuring
  stops : s.shutdown ≡ true → Move p s checking s stopped
  fails : Move p s measuring s sleeping
  keeps :
      (load : F64)
      → next_shares p load s.monitor.cpu_shares ≡ s.monitor.cpu_shares
      → Move p s measuring s sleeping
  chooses :
      (load : F64) {next : ℕ}
      → next ≡ next_shares p load s.monitor.cpu_shares
      → next ≢ s.monitor.cpu_shares
      → Move p s measuring s (choosing next)
  is_refused : {next : ℕ} → Move p s (choosing next) (tell next false s) sleeping
  is_taken : {next : ℕ} → Move p s (choosing next) (tell next true s) (storing next)
  stores : {next : ℕ} → Move p s (storing next) (store_shares next s) sleeping
  wakes : Move p s sleeping s checking

pub record Threads : Type 0 where
  pub shared : Shared
  pub pc : Pc

-- Either thread moves. That of `run_vm` touches nothing of this but the flag, at its end.
pub data Step (p : ScalingPolicy) (t : Threads) : Threads → Type 0 where
  monitor_moves :
      {s : Shared} {pc : Pc} → Move p t.shared t.pc s pc → Step p t (record { shared = s; pc = pc })
  run_vm_ends :
      t.shared.shutdown ≡ false
      → Step p t (record t { shared = record t.shared { shutdown = true } })

-- What `start_scaling` spawns.
abbrev pub spawned : ScalingPolicy → Threads
spawned p = record { shared = record { monitor = new p; shutdown = false }; pc = starting }

-- `n` steps from one state to another.
pub data Steps (p : ScalingPolicy) (t : Threads) : ℕ → Threads → Type 0 where
  none_yet : Steps p t 0 t
  one_more : {n : ℕ} {u v : Threads} → Steps p t n u → Step p u v → Steps p t (suc n) v
