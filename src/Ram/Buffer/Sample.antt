-- ===== src/Ram/Buffer/Sample.antt =====
-- A host for the tests of hyperpod/src/vmm/common/ram.rs.
use hyper_pod.Base.{
  ℕ, ◌≢◌, ◌+◌, ◌≤◌, ◌<◌, ◌==◌, leb, if◌then◌else◌, refl, All, List, [], ◌∷◌, arith,
}
use hyper_pod.Ram.Buffer.{HostMemory, null, map_failed}
use hyper_pod.Ram.Buffer.Mappings.{remove, Comes, IsDocumented}

-- A host that maps at the first address past the sum of those in use.
abbrev pub past : List (ℕ × ℕ) → ℕ
past [] = 1
past (m ∷ ms) = m.0 + past ms

abbrev pub map_past : ℕ → ℕ → List (ℕ × ℕ) → ℕ × List (ℕ × ℕ)
map_past failure n ms =
    if n == 0
    then (failure, ms)
    else if leb map_failed (past ms)
    then (failure, ms)
    else (past ms, (past ms, n) ∷ ms)

abbrev pub host : HostMemory
host = record {
  Host = List (ℕ × ℕ);
  mappings = λ ms. ms;
  virtual_alloc = map_past null;
  virtual_free = λ p n. remove p;
  mmap = map_past map_failed;
  munmap = λ p n. remove p;
}

past_pos : (ms : List (ℕ × ℕ)) → 0 < past ms
past_pos [] = omega arith
past_pos (m ∷ ms) = omega (arith, past_pos ms)

past-apart : (ms : List (ℕ × ℕ)) (p : ℕ) → past ms ≤ p → All (λ m. m.0 ≢ p) ms
past-apart [] p h = tt
past-apart (m ∷ ms) p h =
    let pos = past_pos ms in ((λ e. absurd (omega arith)), past-apart ms p (omega arith))

map_past-Comes :
    (failure n : ℕ) (ms : List (ℕ × ℕ))
    → (map_past failure n ms).0 ≢ failure
    → Comes (map_past failure n ms).0 n ms (map_past failure n ms).1
map_past-Comes failure n ms h = let apart = past-apart ms (past ms) (omega arith) in ground arith

pub host-IsDocumented : IsDocumented host
host-IsDocumented = record {
  virtual_alloc_fails = λ n h e. let pos = past_pos h in ground arith;
  virtual_alloc_maps = map_past-Comes null;
  virtual_free_unmaps = λ p h. refl;
  mmap_fails = λ n h e. ground arith;
  mmap_maps = map_past-Comes map_failed;
  mmap_not_null = λ n h e. let pos = past_pos h in ground arith;
  munmap_unmaps = λ p n h e. refl;
}
