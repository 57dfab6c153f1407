-- ===== src/Ram/Buffer.antt =====
-- The host's buffer behind `GuestRam`, hyperpod/src/vmm/common/ram.rs: what `alloc`, `free` and
-- `Drop` make of the calls of the operating system, which are parameters.
pub mod Mappings
pub mod Balance
pub mod Sample
use hyper_pod.Base.{
  ℕ, zero, suc, ◌*◌, Option, none, some, List, [], ◌∷◌, get_elem?, ◌==◌, if◌then◌else◌, u64_mod,
  ◌-◌, checked_mul64, Outcome, ok, err, panic, or_err, size_overflow, alloc_failed, unsupported_os,
}
use hyper_pod.Base.Action.{Action, pure, raise, reads, ◌>>=◌}

-- The operating systems that the source tells apart.
pub data Os : Type 0 where
  windows linux other_os : Os

-- The calls for anonymous memory: `virtual_alloc size`, `virtual_free ptr size`, `mmap size` and
-- `munmap ptr size`, and the mappings of the process, each with its address and size.
pub record HostMemory : Type 1 where
  pub Host : Type 0
  pub mappings : Host → List (ℕ × ℕ)
  pub virtual_alloc : ℕ → Host → ℕ × Host
  pub virtual_free : ℕ → ℕ → Host → Host
  pub mmap : ℕ → Host → ℕ × Host
  pub munmap : ℕ → ℕ → Host → Host

abbrev pub null : ℕ
null = 0

-- `libc::MAP_FAILED`, which is -1 as a pointer.
abbrev pub map_failed : ℕ
map_failed = u64_mod - 1

-- The host's side of `GuestRam`.
pub record Buffer : Type 0 where
  pub base : ℕ
  pub size : ℕ

module _ (host : HostMemory) where
  open host use {Host, virtual_alloc, virtual_free, mmap, munmap}

  alloc_on_windows : ℕ → Action Host ℕ
  alloc_on_windows size h =
      let (p, h') = virtual_alloc size h in if p == null then (err alloc_failed, h') else (ok p, h')

  alloc_on_linux : ℕ → Action Host ℕ
  alloc_on_linux size h =
      let (p, h') = mmap size h in if p == map_failed then (err alloc_failed, h') else (ok p, h')

  unfoldable pub alloc : Os → ℕ → Action Host ℕ
  unfolding alloc_on_windows alloc_on_linux
  alloc windows size = alloc_on_windows size
  alloc linux size = alloc_on_linux size
  alloc other_os size = raise unsupported_os

  free_on_windows : ℕ → ℕ → Host → Host
  free_on_windows ptr size h = virtual_free ptr 0 h

  free_on_linux : ℕ → ℕ → Host → Host
  free_on_linux ptr size h = munmap ptr size h

  unfoldable pub free : Os → ℕ → ℕ → Host → Host
  unfolding free_on_windows free_on_linux
  free windows ptr size h = free_on_windows ptr size h
  free linux ptr size h = free_on_linux ptr size h
  free other_os ptr size h = h

  -- `GuestRam::new`.
  unfoldable pub new_buffer : Os → ℕ → Action Host Buffer
  new_buffer os size_mib = do
    size ← reads (λ _. or_err (checked_mul64 size_mib (1024 * 1024)) size_overflow)
    base ← alloc os size
    pure (record { base = base; size = size })

  -- `Drop` of `GuestRam`.
  unfoldable pub drop_buffer : Os → Buffer → Host → Host
  drop_buffer os b h = if b.base == null then h else free os b.base b.size h

-- What a program does with memories: it makes one, or the owner of one lets it go. The latest made
-- is number 0.
pub data Use : Type 0 where
  make let_go : ℕ → Use

-- The memories that have an owner.
pub record Owned (host : HostMemory) : Type 0 where
  pub live : List Buffer
  pub host_state : host.Host

abbrev pub erase : ℕ → List Buffer → List Buffer
erase i [] = []
erase zero (b ∷ bs) = bs
erase (suc i) (b ∷ bs) = b ∷ erase i bs

unfoldable pub owns : {host : HostMemory} → Outcome Buffer × host.Host → Owned host → Owned host
owns (ok b, h) w = record { live = b ∷ w.live; host_state = h }
owns (err e, h) w = record w { host_state = h }
owns (panic, h) w = record w { host_state = h }

module _ (host : HostMemory) (os : Os) where
  unfoldable pub lets_go : ℕ → Option Buffer → Owned host → Owned host
  lets_go i none w = w
  lets_go i (some b) w = record {
    live = erase i w.live;
    host_state = drop_buffer host os b w.host_state;
  }

  unfoldable pub run_use : Use → Owned host → Owned host
  run_use (make size_mib) w = owns (new_buffer host os size_mib w.host_state) w
  run_use (let_go i) w = lets_go i (get_elem? w.live i) w

  unfoldable pub run_uses : List Use → Owned host → Owned host
  run_uses [] w = w
  run_uses (u ∷ us) w = run_uses us (run_use u w)
