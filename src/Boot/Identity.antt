-- ===== src/Boot/Identity.antt =====
-- What the processor's walk makes of the tables of `setup_page_tables`
-- (hyperpod/src/vmm/common/boot.rs).
use hyper_pod.Base.{
  ℕ, ◌+◌, ◌*◌, ◌/◌, ◌%◌, ◌^◌, ◌≤◌, ◌<◌, ◌≡◌, refl, ◌⊎◌, inl, inr, ap, ◌∙◌, none, some, arith,
  Outcome, ok, Bool-cases, bit_or, to_le_bytes, length-to_le_bytes, ltb, ltb→lt, le→ltb_false,
  if◌then◌else◌,
}
use hyper_pod.Base.Action.{>>=-ok, ◌>>◌}
use hyper_pod.Ram.{GuestRam, write_obj}
use hyper_pod.Ram.Memory.{word_at, overwrite_outside, word_at-overwrite, word_at_ext, word_at-zero}
use hyper_pod.Ram.Access.{IsValid, written, write_obj_in_range}
use hyper_pod.Boot.{pml4_start, pdpte_start, pde_start, pde, write_pdes, setup_page_tables}
use hyper_pod.Boot.Tables.{Fills, pde_lem, write_pdes-Fills}
use hyper_pod.Boot.Walk.{translate, entry_of, walk_pointers, walk_directory}

-- The addresses that `setup_page_tables` leaves alone.
abbrev pub Apart : ℕ → Type 0
Apart a =
    (a < pml4_start)
    ⊎ ((pml4_start + 8 ≤ a) × (a < pdpte_start))
    ⊎ ((pdpte_start + 8 ≤ a) × (a < pde_start))
    ⊎ (pde_start + 4096 ≤ a)

-- `result` is a normal return with the three tables in memory, and nothing else changed.
pub record Maps (ram : GuestRam) (result : Outcome (Unit {0}) × GuestRam) : Type 0 where
  pub after : ℕ → ℕ
  pub returns : result ≡ (ok tt, record ram { cell = after })
  pub root : word_at 8 after pml4_start ≡ pdpte_start + 3
  pub pointers : word_at 8 after pdpte_start ≡ pde_start + 3
  pub directory : (j : ℕ) → j < 512 → word_at 8 after (pde_start + j * 8) ≡ pde j
  pub outside : (a : ℕ) → Apart a → after a ≡ ram.cell a

-- In a buffer that reaches to the end of the directory, the tables are written.
pub setup_page_tables-Maps :
    (ram : GuestRam) → IsValid ram → pde_start + 4096 ≤ ram.size → Maps ram (setup_page_tables ram)
unfolding setup_page_tables
setup_page_tables-Maps ram v fits =
    let enter_root =
      >>=-ok (write_obj 8 pml4_start (bit_or pdpte_start 3))
        (λ _. write_obj 8 pdpte_start (bit_or pde_start 3) >> write_pdes 512 0) ram
        (write_obj_in_range ram 8 pml4_start (bit_or pdpte_start 3) v (omega arith)) in
    let enter_pointers =
      >>=-ok (write_obj 8 pdpte_start (bit_or pde_start 3)) (λ _. write_pdes 512 0) with_root
        (write_obj_in_range with_root 8 pdpte_start (bit_or pde_start 3) v (omega arith)) in
    record {
      after = rest.after;
      returns = enter_root ∙ enter_pointers ∙ rest.returns;
      root =
          word_at_ext 8 rest.after with_root.cell pml4_start
            (λ a p q. rest.outside a (inl (omega arith)) ∙ apart_pointers a (omega arith))
          ∙ word_at-overwrite 8 ram.cell pml4_start (pdpte_start + 3) (omega arith);
      pointers =
          word_at_ext 8 rest.after with_pointers.cell pdpte_start
            (λ a p q. rest.outside a (inl (omega arith)))
          ∙ word_at-overwrite 8 with_root.cell pdpte_start (pde_start + 3) (omega arith);
      directory = λ j h. rest.entries j (omega arith) (omega arith);
      outside = λ a h.
          rest.outside a (ground arith)
          ∙ apart_pointers a (ground arith)
          ∙ overwrite_outside ram.cell pml4_start (to_le_bytes 8 (pdpte_start + 3)) a
              (rw length-to_le_bytes (ground arith));
    }
  where
    with_root : GuestRam
    with_root = written ram pml4_start (to_le_bytes 8 (pdpte_start + 3))

    with_pointers : GuestRam
    with_pointers = written with_root pdpte_start (to_le_bytes 8 (pde_start + 3))

    rest : Fills 0 512 with_pointers (write_pdes 512 0 with_pointers)
    rest = write_pdes-Fills 512 0 with_pointers v (omega arith) fits

    apart_pointers :
        (a : ℕ)
        → (a < pdpte_start) ⊎ (pdpte_start + 8 ≤ a)
        → with_pointers.cell a ≡ with_root.cell a
    apart_pointers a h =
        overwrite_outside with_root.cell pdpte_start (to_le_bytes 8 (pde_start + 3)) a
          (rw length-to_le_bytes h)

-- An entry of a table whose other words are zero.
module _ (cell : ℕ → ℕ) (table : ℕ) (value : ℕ) where
  entry_first :
      (shift va : ℕ)
      → word_at 8 cell table ≡ value
      → va / 2 ^ shift % 512 ≡ 0
      → entry_of cell table shift va ≡ value
  entry_first shift va h e =
      let here : table + va / 2 ^ shift % 512 * 8 ≡ table = omega arith in
      ap (word_at 8 cell) here ∙ h

  entry_rest :
      (shift va : ℕ)
      → ((a : ℕ) → table + 8 ≤ a → a < table + 4096 → cell a ≡ 0)
      → 0 < va / 2 ^ shift % 512
      → entry_of cell table shift va ≡ 0
  entry_rest shift va h e =
      word_at-zero 8 cell (table + va / 2 ^ shift % 512 * 8)
        (λ a p q. h a (omega arith) (omega arith))

-- Where the tables are, the translation of an address below 1 GiB is the address itself.
module _ (cell : ℕ → ℕ)
    (directory : (j : ℕ) → j < 512 → word_at 8 cell (pde_start + j * 8) ≡ pde j) where
  walk_identity : (va : ℕ) → va < 2 ^ 30 → walk_directory cell pde_start va ≡ some va
  walk_identity va h =
      let j = va / 2 ^ 21 % 512 in let e = directory j (omega arith) ∙ pde_lem j in ground arith

  walk_pointers_identity :
      word_at 8 cell pdpte_start ≡ pde_start + 3
      → ((a : ℕ) → pdpte_start + 8 ≤ a → a < pde_start → cell a ≡ 0)
      → (va : ℕ) → va < 2 ^ 39
      → walk_pointers cell pdpte_start va ≡ (if ltb va (2 ^ 30) then some va else none)
  walk_pointers_identity pointer zeros va h = elim (Bool-cases (ltb va (2 ^ 30))) [
    | inl low ↦
        rw (low, entry_first cell pdpte_start (pde_start + 3) 30 va pointer (ground arith))
          (walk_identity va (ltb→lt va (2 ^ 30) low))
    | inr high ↦ rw (high, entry_rest cell pdpte_start 0 30 va zeros (ground arith))
  ]

-- The three tables, all of them: what the walk of a 48-bit address reads.
pub record AreTables (cell : ℕ → ℕ) : Type 0 where
  pub root : word_at 8 cell pml4_start ≡ pdpte_start + 3
  pub root_rest : (a : ℕ) → pml4_start + 8 ≤ a → a < pdpte_start → cell a ≡ 0
  pub pointers : word_at 8 cell pdpte_start ≡ pde_start + 3
  pub pointers_rest : (a : ℕ) → pdpte_start + 8 ≤ a → a < pde_start → cell a ≡ 0
  pub directory : (j : ℕ) → j < 512 → word_at 8 cell (pde_start + j * 8) ≡ pde j

pub Maps-AreTables :
    (ram : GuestRam) {result : Outcome (Unit {0}) × GuestRam} (m : Maps ram result)
    → ((a : ℕ) → pml4_start ≤ a → a < pde_start → ram.cell a ≡ 0)
    → AreTables m.after
Maps-AreTables ram m zeros = record {
  root = m.root;
  root_rest = λ a p q. m.outside a (ground arith) ∙ zeros a (omega arith) (omega arith);
  pointers = m.pointers;
  pointers_rest = λ a p q. m.outside a (ground arith) ∙ zeros a (omega arith) q;
  directory = m.directory;
}

-- The walk over the tables takes an address below 1 GiB to itself, and faults at every other.
pub translate-AreTables :
    (cell : ℕ → ℕ) (va : ℕ)
    → AreTables cell
    → va < 2 ^ 48
    → translate cell pml4_start va ≡ (if ltb va (2 ^ 30) then some va else none)
unfolding translate
translate-AreTables cell va t h = elim (Bool-cases (ltb va (2 ^ 39))) [
  | inl low ↦ rw (entry_first cell pml4_start (pdpte_start + 3) 39 va t.root (ground arith)) (
      walk_pointers_identity cell t.directory t.pointers t.pointers_rest va
        (ltb→lt va (2 ^ 39) low))
  | inr high ↦
      rw
        (
          le→ltb_false va (2 ^ 30) (ground arith),
          entry_rest cell pml4_start 0 39 va t.root_rest (ground arith),
        )
        refl
]

-- After `setup_page_tables` in memory whose root and pointer tables were zero, the processor's walk
-- takes every 48-bit address below 1 GiB to itself, and faults at every other.
pub translate-setup_page_tables :
    (ram : GuestRam) (va : ℕ)
    → IsValid ram
    → pde_start + 4096 ≤ ram.size
    → ((a : ℕ) → pml4_start ≤ a → a < pde_start → ram.cell a ≡ 0)
    → va < 2 ^ 48
    → translate (setup_page_tables ram).1.cell pml4_start va
      ≡ (if ltb va (2 ^ 30) then some va else none)
translate-setup_page_tables ram va v fits zeros h =
    let m = setup_page_tables-Maps ram v fits in
    rw m.returns (translate-AreTables m.after va (Maps-AreTables ram m zeros) h)
