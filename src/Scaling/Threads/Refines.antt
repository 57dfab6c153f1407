-- ===== src/Scaling/Threads/Refines.antt =====
-- What each step of the monitor's thread makes of the shares, with the other thread beside it
-- (hyperpod/src/scaling/mod.rs).
use hyper_pod.Base.{
  ℕ, ◌≡◌, ◌≢◌, refl, sym, ap, ◌∙◌, Bool, true, false, Option, some, List, [], ◌∷◌, ◌++◌, All, arith,
}
use hyper_pod.Scaling.Float.{F64}
use hyper_pod.Scaling.{
  ScalingPolicy, Monitor, Round, new, next_shares, set_shares, tick, run_rounds,
}
use hyper_pod.Scaling.Threads.{
  Shared, Pc, starting, checking, measuring, sleeping, stopped, choosing, storing, Move, floors,
  goes_on, stops, fails, keeps, chooses, is_refused, is_taken, stores, wakes, Threads,
  monitor_moves, run_vm_ends, spawned, Steps, none_yet, one_more,
}

abbrev pub IsRunning : Round → Type 0
IsRunning r = r.shutdown ≡ false

-- `m` is what the loop leaves after some whole rounds.
pub record AfterRounds (p : ScalingPolicy) (m : Monitor) : Type 0 where
  pub first : Bool
  pub rounds : List Round
  pub running : All IsRunning rounds
  pub same : m ≡ run_rounds p rounds (set_shares p.min_cpu_shares first (new p))

run_rounds-snoc :
    (p : ScalingPolicy) (rs : List Round) (r : Round) (m : Monitor)
    → All IsRunning rs
    → IsRunning r
    → run_rounds p (rs ++ r ∷ []) m ≡ tick p r.load r.accepted (run_rounds p rs m)
unfolding run_rounds
run_rounds-snoc p [] r m h now = rw now refl
run_rounds-snoc p (x ∷ xs) r m (h, hs) now =
    rw h (run_rounds-snoc p xs r (tick p x.load x.accepted m) hs now)

All-snoc :
    (rs : List Round) (r : Round) → All IsRunning rs → IsRunning r → All IsRunning (rs ++ r ∷ [])
All-snoc [] r h now = (now, tt)
All-snoc (x ∷ xs) r (h, hs) now = (h, All-snoc xs r hs now)

-- One more round, with a probe that measures `load`.
tick-AfterRounds :
    (p : ScalingPolicy) (load : Option F64) (accepted : Bool) (m m' : Monitor)
    → AfterRounds p m
    → m' ≡ tick p load accepted m
    → AfterRounds p m'
tick-AfterRounds p load accepted m m' a e =
    let round : Round = record { shutdown = false; load = load; accepted = accepted } in
    record {
      first = a.first;
      rounds = a.rounds ++ round ∷ [];
      running = All-snoc a.rounds round a.running refl;
      same =
          e
          ∙ ap (tick p load accepted) a.same
          ∙ sym (run_rounds-snoc p a.rounds round _ a.running refl);
    }

-- `next` is what a tick goes for from `m` at some load.
abbrev Chosen : ScalingPolicy → Monitor → ℕ → Type 0
Chosen p m next = (load : F64) × (next ≡ next_shares p load m.cpu_shares) × (next ≢ m.cpu_shares)

-- The monitor is as after whole rounds, or in the middle of one.
unfoldable pub Matches : ScalingPolicy → Shared → Pc → Type 0
Matches p s starting = s.monitor ≡ new p
Matches p s (choosing next) = AfterRounds p s.monitor × Chosen p s.monitor next
Matches p s (storing next) =
    (m : Monitor) × AfterRounds p m × Chosen p m next × (s.monitor ≡ set_shares next true m)
Matches p s stopped = AfterRounds p s.monitor × (s.shutdown ≡ true)
Matches p s _ = AfterRounds p s.monitor

refused_tick :
    (p : ScalingPolicy) (m : Monitor) (next : ℕ) (c : Chosen p m next)
    → set_shares next false m ≡ tick p (some c.0) false m
unfolding tick set_shares
refused_tick p m next (load, e, ne) = ground (arith, e)

taken_tick :
    (p : ScalingPolicy) (m : Monitor) (next : ℕ) (c : Chosen p m next)
    → record (set_shares next true m) { cpu_shares = next } ≡ tick p (some c.0) true m
unfolding tick set_shares
taken_tick p m next (load, e, ne) = ground (arith, e)

Move-Matches :
    {p : ScalingPolicy} {s s' : Shared} {pc pc' : Pc}
    → Move p s pc s' pc'
    → Matches p s pc
    → Matches p s' pc'
unfolding Matches run_rounds
Move-Matches {p} {s} (floors accepted) h = record {
  first = accepted;
  rounds = [];
  running = tt;
  same = ap (set_shares p.min_cpu_shares accepted) h;
}
Move-Matches (goes_on e) h = h
Move-Matches (stops e) h = (h, e)
Move-Matches fails h = h
Move-Matches (keeps load e) h = h
Move-Matches (chooses load e ne) h = (h, (load, e, ne))
Move-Matches {p} {s} (is_refused {next}) (a, c) =
    tick-AfterRounds p (some c.0) false s.monitor _ a (refused_tick p s.monitor next c)
Move-Matches {p} {s} (is_taken {next}) (a, c) = (s.monitor, a, c, refl)
Move-Matches {p} {s} (stores {next}) (m, a, c, e) =
    tick-AfterRounds p (some c.0) true m _ a
      ((ap (λ (x : Monitor). record x { cpu_shares = next }) e) ∙ taken_tick p m next c)
Move-Matches wakes h = h

-- The end of `run_vm` leaves the monitor's thread where it is.
raised :
    (p : ScalingPolicy) (s : Shared) (pc : Pc)
    → s.shutdown ≡ false
    → Matches p s pc
    → Matches p (record s { shutdown = true }) pc
unfolding Matches
raised p s starting e h = h
raised p s checking e h = h
raised p s measuring e h = h
raised p s sleeping e h = h
raised p s stopped e h = cc
raised p s (choosing next) e h = h
raised p s (storing next) e h = h

pub Steps-Matches :
    {p : ScalingPolicy} {n : ℕ} {t : Threads} → Steps p (spawned p) n t → Matches p t.shared t.pc
unfolding Matches new
Steps-Matches none_yet = refl
Steps-Matches (one_more before (monitor_moves m)) = Move-Matches m (Steps-Matches before)
Steps-Matches (one_more {u = u} before (run_vm_ends e)) =
    raised _ u.shared u.pc e (Steps-Matches before)
