-- ===== src/Ram/Buffer/Mappings.antt =====
-- The mappings of the process and the memories that have an owner (hyperpod/src/vmm/common/ram.rs).
use hyper_pod.Base.{
  ℕ, zero, suc, ◌≡◌, ◌≢◌, Option, none, some, List, [], ◌∷◌, ◌++◌, map, All, All-get_elem?,
  get_elem?, ◌==◌, if◌then◌else◌, arith,
}
use hyper_pod.Ram.Buffer.{HostMemory, null, map_failed, Buffer, erase}

-- The mapping at `p` is taken away.
abbrev pub remove : ℕ → List (ℕ × ℕ) → List (ℕ × ℕ)
remove p [] = []
remove p (m ∷ ms) = if m.0 == p then ms else m ∷ remove p ms

abbrev pub size_at : ℕ → List (ℕ × ℕ) → Option ℕ
size_at p [] = none
size_at p (m ∷ ms) = if m.0 == p then some m.1 else size_at p ms

-- A mapping at `p` of `size` bytes comes to those that there are, none of which is there.
abbrev pub Comes : ℕ → ℕ → List (ℕ × ℕ) → List (ℕ × ℕ) → Type 0
Comes p size before after = (after ≡ (p, size) ∷ before) × All (λ m. m.0 ≢ p) before

-- What the manuals of the calls say: a call that fails maps nothing, one that succeeds maps fresh
-- memory, not at the null address, and the calls that take a mapping away take that one.
pub record IsDocumented (host : HostMemory) : Type 0 where
  pub virtual_alloc_fails :
      (n : ℕ) (h : host.Host)
      → (host.virtual_alloc n h).0 ≡ null
      → host.mappings (host.virtual_alloc n h).1 ≡ host.mappings h
  pub virtual_alloc_maps :
      (n : ℕ) (h : host.Host)
      → (host.virtual_alloc n h).0 ≢ null
      → Comes
          (host.virtual_alloc n h).0
          n
          (host.mappings h)
          (host.mappings (host.virtual_alloc n h).1)
  pub virtual_free_unmaps :
      (p : ℕ) (h : host.Host) → host.mappings (host.virtual_free p 0 h) ≡ remove p (host.mappings h)
  pub mmap_fails :
      (n : ℕ) (h : host.Host)
      → (host.mmap n h).0 ≡ map_failed
      → host.mappings (host.mmap n h).1 ≡ host.mappings h
  pub mmap_maps :
      (n : ℕ) (h : host.Host)
      → (host.mmap n h).0 ≢ map_failed
      → Comes (host.mmap n h).0 n (host.mappings h) (host.mappings (host.mmap n h).1)
  pub mmap_not_null : (n : ℕ) (h : host.Host) → (host.mmap n h).0 ≢ null
  pub munmap_unmaps :
      (p n : ℕ) (h : host.Host)
      → size_at p (host.mappings h) ≡ some n
      → host.mappings (host.munmap p n h) ≡ remove p (host.mappings h)

abbrev pub region : Buffer → ℕ × ℕ
region b = (b.base, b.size)

-- No two memories begin at the same address, and none at the null address.
abbrev pub AreApart : List Buffer → Type 0
AreApart [] = Unit
AreApart (b ∷ bs) = (b.base ≢ null) × All (λ c. c.base ≢ b.base) bs × AreApart bs

module _ (P : Buffer → Type 0) where
  All-erase : (bs : List Buffer) (i : ℕ) → All P bs → All P (erase i bs)
  All-erase [] i h = tt
  All-erase (b ∷ bs) zero h = h.1
  All-erase (b ∷ bs) (suc i) h = (h.0, All-erase bs i h.1)

pub AreApart-erase : (bs : List Buffer) (i : ℕ) → AreApart bs → AreApart (erase i bs)
AreApart-erase [] i h = tt
AreApart-erase (b ∷ bs) zero (_, _, h) = h
AreApart-erase (b ∷ bs) (suc i) (n, a, h) =
    (n, All-erase (λ c. c.base ≢ b.base) bs i a, AreApart-erase bs i h)

-- Which mapping a memory has, and what is left without it.
module _ (old : List (ℕ × ℕ)) where
  pub remove-erase :
      (bs : List Buffer) (i : ℕ) (b : Buffer)
      → AreApart bs
      → get_elem? bs i ≡ some b
      → remove b.base (map region bs ++ old) ≡ map region (erase i bs) ++ old
  remove-erase [] i b h e = cc
  remove-erase (x ∷ bs) zero b h e = ground arith
  remove-erase (x ∷ bs) (suc i) b (_, a, h) e =
      let ne = All-get_elem? (λ (c : Buffer). c.base ≢ x.base) bs i b a e in
      ground (arith, remove-erase bs i b h e)

  pub size_at-live :
      (bs : List Buffer) (i : ℕ) (b : Buffer)
      → AreApart bs
      → get_elem? bs i ≡ some b
      → size_at b.base (map region bs ++ old) ≡ some b.size
  size_at-live [] i b h e = cc
  size_at-live (x ∷ bs) zero b h e = ground arith
  size_at-live (x ∷ bs) (suc i) b (_, a, h) e =
      let ne = All-get_elem? (λ (c : Buffer). c.base ≢ x.base) bs i b a e in
      ground (arith, size_at-live bs i b h e)
