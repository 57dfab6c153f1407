-- ===== src/Probes/Elapsed.antt =====
-- The loads that the Windows probe reports, hyperpod/src/scaling/probes.rs.
use hyper_pod.Base.{
  ℕ, ◌+◌, ◌-◌, ◌*◌, ◌%◌, ◌^◌, ◌<◌, ◌≡◌, ◌∙◌, refl, ap, Option, none, some, List, [], ◌∷◌, ltb,
  if◌then◌else◌, arith, add64, u64_mod, Outcome, ok, err, system_times_failed,
}
use hyper_pod.Base.Bits.{bit_or_fields}
use hyper_pod.Scaling.Float.{F64, zero64, clamp01}
use hyper_pod.Probes.{
  FileTime, ft_to_u64, Times, snapshot, SystemTimes, since, load_of, finish, load_normalized,
}

-- The counters that the probe reads, from their two halves.
abbrev whole : FileTime → ℕ
whole ft = ft.high * 2 ^ 32 + ft.low

abbrev AreHalves : FileTime → Type 0
AreHalves ft = (ft.low < 2 ^ 32) × (ft.high < 2 ^ 32)

ft_to_u64-whole : (ft : FileTime) → ft.low < 2 ^ 32 → ft_to_u64 ft ≡ whole ft
unfolding ft_to_u64
ft_to_u64-whole ft low = bit_or_fields 32 ft.high ft.low low

-- The total time of a reading.
unfoldable pub total : Times → ℕ
total t = (whole t.kernel + whole t.user) % u64_mod

total-read :
    (t : Times)
    → AreHalves t.kernel
    → AreHalves t.user
    → add64 (ft_to_u64 t.kernel) (ft_to_u64 t.user) ≡ total t
unfolding total
total-read t kernel user =
    rw (ft_to_u64-whole t.kernel kernel.0, ft_to_u64-whole t.user user.0) refl

-- A reading as the two numbers that it stands for.
abbrev reading : Times → ℕ × ℕ
reading t = (whole t.idle, total t)

-- What the probe returns for the readings in turn; `none` is a reading that fails.
unfoldable pub reports : (ℕ → ℕ → F64) → List (Option Times) → SystemTimes → List (Outcome F64)
reports fraction [] p = []
reports fraction (t ∷ ts) p =
    (load_normalized fraction t p).0 ∷ reports fraction ts (load_normalized fraction t p).1

-- The load over the time from one reading to another: 0 when no time has passed, or it has gone back,
-- and else the busy part of it, where an idle time that has gone back counts as none.
unfoldable pub load_between : (ℕ → ℕ → F64) → ℕ × ℕ → ℕ × ℕ → F64
load_between fraction (idle_from, from) (idle_to, to) =
    if ltb from to then clamp01 (fraction (idle_to - idle_from) (to - from)) else zero64

-- The loads that are due: the readings that came off cut the time into pieces, and each piece has its
-- load; a reading that fails is an error and cuts nothing.
unfoldable pub due : (ℕ → ℕ → F64) → ℕ × ℕ → List (Option Times) → List (Outcome F64)
due fraction from [] = []
due fraction from (none ∷ ts) = err system_times_failed ∷ due fraction from ts
due fraction from (some t ∷ ts) =
    ok (load_between fraction from (reading t)) ∷ due fraction (reading t) ts

-- Every reading has its counters in halves of 32 bits.
unfoldable pub AreTimes : List (Option Times) → Type 0
AreTimes [] = Unit {0}
AreTimes (none ∷ ts) = AreTimes ts
AreTimes (some t ∷ ts) = (AreHalves t.idle × AreHalves t.kernel × AreHalves t.user) × AreTimes ts

load_of-load_between :
    (fraction : ℕ → ℕ → F64) (from to : ℕ × ℕ)
    → load_of fraction (since from to) ≡ load_between fraction from to
unfolding load_of since load_between
load_of-load_between fraction from to = ground arith

-- Of any number of readings of the system's times, each counter in halves of 32 bits, the probe reports
-- for each that comes off the load over the time since the reading before it that came off, or since the
-- times that it holds at first when there is none (idle time and total time being the counters put
-- together, the total that of the kernel and the user in 64 bits), and for each that fails an error,
-- which leaves the next load to be measured over the whole time.
pub reports-due :
    (fraction : ℕ → ℕ → F64) (ts : List (Option Times)) (p : SystemTimes)
    → AreTimes ts
    → reports fraction ts p ≡ due fraction p.last ts
unfolding AreTimes reports due load_normalized finish snapshot
reports-due fraction [] p times = refl
reports-due fraction (none ∷ ts) p times =
    ap (λ rest. err system_times_failed ∷ rest) (reports-due fraction ts p times)
reports-due fraction (some t ∷ ts) p ((idle, kernel, user), times) =
    rw (ft_to_u64-whole t.idle idle.0, total-read t kernel user)
      (ap (λ load. ok load ∷ reports fraction ts (record { last = reading t }))
          (load_of-load_between fraction p.last (reading t))
        ∙ ap (λ rest. ok (load_between fraction p.last (reading t)) ∷ rest)
            (reports-due fraction ts (record { last = reading t }) times))
