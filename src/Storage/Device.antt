-- ===== src/Storage/Device.antt =====
-- What a block backend promises: an array of sectors. `BlockBackend` is the trait of the source,
-- (hyperpod/src/vmm/common/storage/mod.rs), and `IsSectorArray` the contract for its clients.
pub mod Fulfils
pub mod Alike
use hyper_pod.Base.{
  ℕ, ◌≤◌, ◌<◌, ◌≡◌, ◌≢◌, refl, ap, ◌∙◌, List, [], ◌∷◌, arith, length, ◌==◌, if◌then◌else◌, Outcome,
  ok, err, Error, sector_out_of_range, ◌>>=◌, Bool-cases, ==_iff, inl, inr,
}
use hyper_pod.Storage.Sector.{sector_size}

-- `trait BlockBackend`, over the state that an implementation keeps.
pub record BlockBackend : Type 1 where
  pub Disk : Type 0
  pub sector_count : Disk → ℕ
  pub read_sector : Disk → ℕ → ℕ → Outcome (List ℕ)
  pub write_sector : Disk → ℕ → List ℕ → Outcome Disk

-- What a write of `buf` to sector `i` of `d` has to leave behind.
pub record Updates (b : BlockBackend) (IsGood : b.Disk → Type 0) (contents : b.Disk → ℕ → List ℕ)
    (d : b.Disk) (i : ℕ) (buf : List ℕ) : Type 0 where
  pub after : b.Disk
  pub returns : b.write_sector d i buf ≡ ok after
  pub good : IsGood after
  pub same_count : b.sector_count after ≡ b.sector_count d
  pub here : contents after i ≡ buf
  pub elsewhere : (j : ℕ) → j < b.sector_count d → j ≢ i → contents after j ≡ contents d j

-- The contract: on a good disk a sector in range reads as its contents, a write in range replaces
-- the contents of its sector and of no other, and a sector out of range is refused.
pub record IsSectorArray (b : BlockBackend) : Type 1 where
  pub IsGood : b.Disk → Type 0
  pub contents : b.Disk → ℕ → List ℕ
  pub reads :
      (d : b.Disk) (i : ℕ)
      → IsGood d
      → i < b.sector_count d
      → b.read_sector d i sector_size ≡ ok (contents d i)
  pub writes :
      (d : b.Disk) (i : ℕ) (buf : List ℕ)
      → IsGood d
      → i < b.sector_count d
      → length buf ≡ sector_size
      → Updates b IsGood contents d i buf
  pub refuses :
      (d : b.Disk) (i n : ℕ) (buf : List ℕ)
      → b.sector_count d ≤ i
      → (b.read_sector d i n ≡ err sector_out_of_range)
        × (b.write_sector d i buf ≡ err sector_out_of_range)

-- A client of the trait: a run of writes.
abbrev pub Writes : Type 0
Writes = List (ℕ × List ℕ)

module _ (b : BlockBackend) where
  unfoldable pub write_all : Writes → b.Disk → Outcome b.Disk
  write_all [] d = ok d
  write_all ((i, buf) ∷ ws) d = do d' ← b.write_sector d i buf; write_all ws d'

-- The specification: the array of sectors as a function, updated in the order of the writes.
unfoldable pub update_all : Writes → (ℕ → List ℕ) → ℕ → List ℕ
update_all [] f = f
update_all ((i, buf) ∷ ws) f = update_all ws (λ j. if i == j then buf else f j)

abbrev pub InRange : ℕ → Writes → Type 0
InRange count [] = Unit
InRange count ((i, buf) ∷ ws) = (i < count) × (length buf ≡ sector_size) × InRange count ws

-- Arrays that agree below `count` still do after the same writes.
update_all_ext :
    (ws : Writes) (count : ℕ) (f g : ℕ → List ℕ)
    → ((j : ℕ) → j < count → f j ≡ g j)
    → (j : ℕ) → j < count
    → update_all ws f j ≡ update_all ws g j
unfolding update_all
update_all_ext [] count f g h = h
update_all_ext ((i, buf) ∷ ws) count f g h =
    update_all_ext ws count (λ j. if i == j then buf else f j) (λ j. if i == j then buf else g j)
      (λ j p. elim (Bool-cases (i == j)) [ inl e ↦ rw e | inr e ↦ rw e (h j p) ])

module _ (b : BlockBackend) (a : IsSectorArray b) where
  -- One write as an update of the array.
  Updates-eq :
      (d : b.Disk) (i : ℕ) (buf : List ℕ) (u : Updates b a.IsGood a.contents d i buf) (j : ℕ)
      → j < b.sector_count d
      → a.contents u.after j ≡ (if i == j then buf else a.contents d j)
  Updates-eq d i buf u j p = elim (Bool-cases (i == j)) [
    | inl same ↦ rw (same, ← (==_iff i j).0 same) u.here
    | inr other ↦ rw other (u.elsewhere j p (ground arith))
  ]

  -- Every run of writes in range succeeds, and then a sector reads as the specification says.
  pub write_all-refines :
      (ws : Writes) (d : b.Disk) (j : ℕ)
      → a.IsGood d
      → InRange (b.sector_count d) ws
      → j < b.sector_count d
      → (d' : b.Disk) × (write_all b ws d ≡ ok d')
        × (b.read_sector d' j sector_size ≡ ok (update_all ws (a.contents d) j))
  unfolding write_all update_all
  write_all-refines [] d j good h q = (d, refl, a.reads d j good q)
  write_all-refines ((i, buf) ∷ ws) d j good (p, size, h) q =
      let u = a.writes d i buf good p size in
      let (d', done, reads) =
        write_all-refines ws u.after j u.good (rw u.same_count h) (rw u.same_count q) in
      let same =
        update_all_ext ws (b.sector_count d) (a.contents u.after)
          (λ k. if i == k then buf else a.contents d k) (Updates-eq d i buf u) j q in
      (d', rw u.returns done, reads ∙ ap ok same)
