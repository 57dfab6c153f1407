-- ===== src/Elf/Sample.antt =====
-- A kernel file for tests: one segment of four bytes, with four zeros behind them, for the physical
-- address whose eight bytes are given. Its entry point is 0x200.
use hyper_pod.Base.{ℕ, List, [], ◌∷◌, ◌++◌, replicate}

-- Program headers at 64, of 56 bytes, one of them.
abbrev file_header : List ℕ
file_header =
    0x7f ∷ b'E' ∷ b'L' ∷ b'F' ∷ 2 ∷ 1 ∷ replicate 12 0
    ++ 62 ∷ 0 ∷ replicate 4 0
    ++ 0 ∷ 2 ∷ replicate 6 0
    ++ 64 ∷ replicate 21 0
    ++ 56 ∷ 0 ∷ 1 ∷ replicate 7 0

abbrev program_header : List ℕ → List ℕ
program_header paddr =
    1 ∷ replicate 7 0 ++ 120 ∷ replicate 15 0 ++ paddr ++ 4 ∷ replicate 7 0 ++ 8 ∷ replicate 15 0

abbrev pub file_at : List ℕ → List ℕ
file_at paddr = file_header ++ program_header paddr ++ 0xde ∷ 0xad ∷ 0xbe ∷ 0xef ∷ []
