-- ===== src/Storage/Device/Alike.antt =====
-- Two block backends that no client of the trait can tell apart
-- (hyperpod/src/vmm/common/storage/mod.rs).
use hyper_pod.Base.{ℕ, ◌≡◌, refl, ap, ap₂, List, [], ◌∷◌, Outcome, ok, err, panic}
use hyper_pod.Storage.Device.{BlockBackend}

-- What a client asks for: a read into a buffer of some length, or a write.
pub data Access : Type 0 where
  read_at : ℕ → ℕ → Access
  write_at : ℕ → List ℕ → Access

module _ (b : BlockBackend) where
  -- The answer to a write, and the disk after it: an error leaves it as it was.
  unfoldable pub written : b.Disk → Outcome b.Disk → Outcome (List ℕ) × b.Disk
  written d (ok d') = (ok [], d')
  written d (err e) = (err e, d)
  written d panic = (panic, d)

  unfoldable pub answer : Access → b.Disk → Outcome (List ℕ) × b.Disk
  answer (read_at i n) d = (b.read_sector d i n, d)
  answer (write_at i buf) d = written d (b.write_sector d i buf)

  -- All answers to a client that goes on after an error.
  unfoldable pub answers : List Access → b.Disk → List (Outcome (List ℕ))
  answers [] d = []
  answers (a ∷ rest) d = let (r, d') = answer a d in r ∷ answers rest d'

module _ (b c : BlockBackend) (Alike : b.Disk → c.Disk → Type 0) where
  -- Both fail in the same way, or both succeed and are alike again.
  unfoldable pub BothWrite : Outcome b.Disk → Outcome c.Disk → Type 0
  BothWrite (ok d) (ok d') = Alike d d'
  BothWrite (err e) (err e') = e ≡ e'
  BothWrite panic panic = Unit {0}
  BothWrite (ok d) (err e) = ⊥
  BothWrite (ok d) panic = ⊥
  BothWrite (err e) (ok d) = ⊥
  BothWrite (err e) panic = ⊥
  BothWrite panic (ok d) = ⊥
  BothWrite panic (err e) = ⊥

  pub record IsSimulation : Type 0 where
    pub reads :
        (d : b.Disk) (d' : c.Disk) (i n : ℕ)
        → Alike d d'
        → b.read_sector d i n ≡ c.read_sector d' i n
    pub writes :
        (d : b.Disk) (d' : c.Disk) (i : ℕ) (buf : List ℕ)
        → Alike d d'
        → BothWrite (b.write_sector d i buf) (c.write_sector d' i buf)

  written-Alike :
      (d : b.Disk) (d' : c.Disk) (o : Outcome b.Disk) (o' : Outcome c.Disk)
      → Alike d d'
      → BothWrite o o'
      → ((written b d o).0 ≡ (written c d' o').0) × Alike (written b d o).1 (written c d' o').1
  unfolding written BothWrite
  written-Alike d d' (ok x) (ok y) h both = (refl, both)
  written-Alike d d' (err e) (err e') h both = (ap err both, h)
  written-Alike d d' panic panic h both = (refl, h)
  written-Alike d d' (ok x) (err e) h both = elim both [ ]
  written-Alike d d' (ok x) panic h both = elim both [ ]
  written-Alike d d' (err e) (ok x) h both = elim both [ ]
  written-Alike d d' (err e) panic h both = elim both [ ]
  written-Alike d d' panic (ok x) h both = elim both [ ]
  written-Alike d d' panic (err e) h both = elim both [ ]

  -- Disks that are alike give the same answers to every client.
  pub answers-answers :
      (s : IsSimulation) (rest : List Access) (d : b.Disk) (d' : c.Disk)
      → Alike d d'
      → answers b rest d ≡ answers c rest d'
  unfolding answers answer
  answers-answers s [] d d' h = refl
  answers-answers s (read_at i n ∷ rest) d d' h =
      ap₂ ◌∷◌ (s.reads d d' i n h) (answers-answers s rest d d' h)
  answers-answers s (write_at i buf ∷ rest) d d' h =
      let both =
        written-Alike d d' (b.write_sector d i buf) (c.write_sector d' i buf) h
          (s.writes d d' i buf h) in
      ap₂ ◌∷◌ both.0 (answers-answers s rest _ _ both.1)
