-- ===== src/Ram/Patch.antt =====
-- Runs of integer writes: what a block of `write_obj` calls leaves in memory.
use hyper_pod.Base.{
  ℕ, zero, suc, ◌+◌, ◌^◌, ◌≤◌, ◌<◌, ◌≡◌, refl, sym, ap, ◌∙◌, ◌⊎◌, Bool, true, ◌&&◌, ◌||◌, some,
  List, [], ◌∷◌, ◌++◌, arith, ok, leb, get_elem?, drop, to_le_bytes, length-to_le_bytes,
}
use hyper_pod.Base.Action.{Action, pure, ◌>>=◌, ◌>>◌, >>=-ok}
use hyper_pod.Ram.{GuestRam, write_obj}
use hyper_pod.Ram.Memory.{
  overwrite, word_at, overwrite_outside, word_at-overwrite, word_at-overwrite_apart,
}
use hyper_pod.Ram.Access.{IsValid, write_obj_in_range}

-- One integer: its offset, its width in bytes, its value.
pub record Patch : Type 0 where
  pub off : ℕ
  pub width : ℕ
  pub val : ℕ

-- The memory after the writes, in their order.
unfoldable pub patched : (ℕ → ℕ) → List Patch → ℕ → ℕ
patched cell [] = cell
patched cell (p ∷ ps) = patched (overwrite cell p.off (to_le_bytes p.width p.val)) ps

-- Every write ends at or below `limit`.
abbrev pub Below : ℕ → List Patch → Type 0
Below limit [] = Unit
Below limit (p ∷ ps) = (p.off + p.width ≤ limit) × Below limit ps

-- No write touches the `width` bytes at `off`.
abbrev pub clear : List Patch → ℕ → ℕ → Bool
clear [] off width = true
clear (p ∷ ps) off width =
    (leb (off + width) p.off || leb (p.off + p.width) off) && clear ps off width

pub patched-append :
    (cell : ℕ → ℕ) (ps qs : List Patch) → patched cell (ps ++ qs) ≡ patched (patched cell ps) qs
unfolding patched
patched-append cell [] qs = refl
patched-append cell (p ∷ ps) qs =
    patched-append (overwrite cell p.off (to_le_bytes p.width p.val)) ps qs

pub Below-append :
    (limit : ℕ) (ps qs : List Patch) → Below limit (ps ++ qs) → Below limit ps × Below limit qs
Below-append limit [] qs h = (tt, h)
Below-append limit (p ∷ ps) qs h = let (hp, hq) = Below-append limit ps qs h.1 in ((h.0, hp), hq)

-- A word that no write touches is the old one.
pub word_at-patched-clear :
    (w off : ℕ) (cell : ℕ → ℕ) (ps : List Patch)
    → clear ps off w ≡ true
    → word_at w (patched cell ps) off ≡ word_at w cell off
unfolding patched
word_at-patched-clear w off cell [] h = refl
word_at-patched-clear w off cell (p ∷ ps) h =
    word_at-patched-clear w off (overwrite cell p.off (to_le_bytes p.width p.val)) ps (ground arith)
    ∙ word_at-overwrite_apart w p.width cell p.off p.val off (ground arith)

-- A word that a write sets, and that no later write touches, is the written one.
pub word_at-patched :
    (ps : List Patch) (k : ℕ) (cell : ℕ → ℕ) (p : Patch)
    → get_elem? ps k ≡ some p
    → clear (drop (suc k) ps) p.off p.width ≡ true
    → p.val < 256 ^ p.width
    → word_at p.width (patched cell ps) p.off ≡ p.val
unfolding patched
word_at-patched [] k cell p at later fits = absurd (ground arith)
word_at-patched (q ∷ ps) zero cell p at later fits =
    let same : q ≡ p = ground arith in
    rw same (
      word_at-patched-clear p.width p.off (overwrite cell p.off (to_le_bytes p.width p.val)) ps
        later
      ∙ word_at-overwrite p.width cell p.off p.val fits)
word_at-patched (q ∷ ps) (suc k) cell p at later fits =
    word_at-patched ps k (overwrite cell q.off (to_le_bytes q.width q.val)) p at later fits

-- Every write lies between `lo` and `hi`.
abbrev pub Within : ℕ → ℕ → List Patch → Type 0
Within lo hi [] = Unit
Within lo hi (p ∷ ps) = (lo ≤ p.off) × (p.off + p.width ≤ hi) × Within lo hi ps

-- Outside of that range the memory is the old one.
pub patched_outside :
    (lo hi : ℕ) (cell : ℕ → ℕ) (ps : List Patch) (a : ℕ)
    → Within lo hi ps
    → (a < lo) ⊎ (hi ≤ a)
    → patched cell ps a ≡ cell a
unfolding patched
patched_outside lo hi cell [] a h apart = refl
patched_outside lo hi cell (p ∷ ps) a h apart =
    patched_outside lo hi (overwrite cell p.off (to_le_bytes p.width p.val)) ps a h.2 apart
    ∙ overwrite_outside cell p.off (to_le_bytes p.width p.val) a
        (rw length-to_le_bytes (ground arith))

-- `m` makes the writes `ps` and returns `a`, in every memory that reaches that far.
pub record Writes {A : Type 0} (ps : List Patch) (a : A) (m : Action GuestRam A) : Type 0 where
  pub at :
      (ram : GuestRam)
      → IsValid ram
      → Below ram.size ps
      → m ram ≡ (ok a, record ram { cell = patched ram.cell ps })

pub Writes-pure : {A : Type 0} (a : A) → Writes [] a (pure a)
unfolding patched
Writes-pure a = record { at = λ ram v h. refl }

pub Writes-write_obj :
    (w off val : ℕ)
    → Writes (record { off = off; width = w; val = val } ∷ []) tt (write_obj w off val)
unfolding patched
Writes-write_obj w off val = record { at = λ ram v h. write_obj_in_range ram w off val v h.0 }

pub Writes-bind :
    {A B : Type 0} {ps qs : List Patch} {a : A} {b : B} (m : Action GuestRam A)
    (f : A → Action GuestRam B)
    → Writes ps a m
    → Writes qs b (f a)
    → Writes (ps ++ qs) b (m >>= f)
Writes-bind {ps = ps} {qs = qs} {b = b} m f wm wf = record {
  at = λ ram v h.
      let (below_m, below_f) = Below-append ram.size ps qs h in
      >>=-ok m f ram (wm.at ram v below_m)
      ∙ wf.at (record ram { cell = patched ram.cell ps }) v below_f
      ∙ ap (λ c. (ok b, record ram { cell = c })) (sym (patched-append ram.cell ps qs));
}

-- One more write in front of a block.
pub Writes-then :
    {A : Type 0} {ps : List Patch} {a : A} (w off val : ℕ) (k : Action GuestRam A)
    → Writes ps a k
    → Writes (record { off = off; width = w; val = val } ∷ ps) a (write_obj w off val >> k)
Writes-then w off val k wk =
    Writes-bind (write_obj w off val) (λ _. k) (Writes-write_obj w off val) wk
