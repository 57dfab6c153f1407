-- ===== src/Boot/Walk.antt =====
-- What the processor makes of page tables in memory: the four-level walk of x86-64 long mode, as
-- the architecture manuals describe it. It is the specification that the tables are held to.
use hyper_pod.Base.{ℕ, ◌+◌, ◌*◌, ◌/◌, ◌%◌, ◌^◌, Option, none, some, ◌==◌, if◌then◌else◌}
use hyper_pod.Ram.Memory.{word_at}

-- Bit 0: present; bit 7 of a directory entry: a 2 MiB page.
abbrev pub is_present : ℕ → ℕ
is_present entry = entry % 2

abbrev pub is_huge : ℕ → ℕ
is_huge entry = entry / 2 ^ 7 % 2

-- Bits 12 to 51 of an entry are the address of the next table.
abbrev pub next_table : ℕ → ℕ
next_table entry = entry / 2 ^ 12 % 2 ^ 40 * 2 ^ 12

-- The entry of a table that nine bits of the address, from `shift` on, select.
abbrev pub entry_of : (ℕ → ℕ) → ℕ → ℕ → ℕ → ℕ
entry_of cell table shift va = word_at 8 cell (table + va / 2 ^ shift % 512 * 8)

-- A directory entry for a 2 MiB page gives bits 21 to 51 of the physical address.
abbrev pub huge_page : ℕ → ℕ → ℕ
huge_page entry va = entry / 2 ^ 21 % 2 ^ 31 * 2 ^ 21 + va % 2 ^ 21

-- A page of 4 KiB, one level further down.
abbrev pub walk_table : (ℕ → ℕ) → ℕ → ℕ → Option ℕ
walk_table cell table va =
    let entry = entry_of cell table 12 va in
    if is_present entry == 0 then none else some (next_table entry + va % 2 ^ 12)

abbrev pub walk_directory : (ℕ → ℕ) → ℕ → ℕ → Option ℕ
walk_directory cell table va =
    let entry = entry_of cell table 21 va in
    if is_present entry == 0
    then none
    else if is_huge entry == 1
    then some (huge_page entry va)
    else walk_table cell (next_table entry) va

-- A page of 1 GiB gives bits 30 to 51.
abbrev pub walk_pointers : (ℕ → ℕ) → ℕ → ℕ → Option ℕ
walk_pointers cell table va =
    let entry = entry_of cell table 30 va in
    if is_present entry == 0
    then none
    else if is_huge entry == 1
    then some (entry / 2 ^ 30 % 2 ^ 22 * 2 ^ 30 + va % 2 ^ 30)
    else walk_directory cell (next_table entry) va

-- The physical address of a virtual one, from the root table on; `none` is a page fault.
unfoldable pub translate : (ℕ → ℕ) → ℕ → ℕ → Option ℕ
translate cell root va =
    let entry = entry_of cell root 39 va in
    if is_present entry == 0 then none else walk_pointers cell (next_table entry) va
