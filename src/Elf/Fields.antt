-- ===== src/Elf/Fields.antt =====
-- The file header as `load` of hyperpod/src/vmm/common/elf.rs reads and checks it.
use hyper_pod.Base.{
  ℕ, ◌-◌, ◌^◌, List, [], ◌∷◌, length, ltb, leb, ◌==◌, if◌then◌else◌, bytes_eq, from_le_bytes, index,
  slice, Outcome, ok, err, ◌>>=◌, ◌>>◌, ensure, not_elf, not_elf64, not_little_endian, not_x86_64,
  bad_phentsize,
}

abbrev pub elfmag : List ℕ
elfmag = 0x7f ∷ b'E' ∷ b'L' ∷ b'F' ∷ []

abbrev pub elfclass64 : ℕ
elfclass64 = 2

abbrev pub elfdata2lsb : ℕ
elfdata2lsb = 1

abbrev pub em_x86_64 : ℕ
em_x86_64 = 62

abbrev pub pt_load : ℕ
pt_load = 1

-- The largest `Vec<u8>` is `isize::MAX` bytes; a larger one panics.
abbrev pub isize_max : ℕ
isize_max = 2 ^ 63 - 1

pub record LoadedKernel : Type 0 where
  pub entry : ℕ

-- The fields that `load` takes from the file header.
pub record Header : Type 0 where
  pub entry : ℕ
  pub phoff : ℕ
  pub phentsize : ℕ
  pub phnum : ℕ

-- `uN::from_le_bytes(bytes[a..b])`
unfoldable pub le_field : List ℕ → ℕ → ℕ → Outcome ℕ
le_field bytes a b = do field ← slice bytes a b; ok (from_le_bytes field)

-- The checks on the file header, up to the size of a program header.
unfoldable pub read_header : List ℕ → Outcome Header
read_header bytes = if ltb (length bytes) 64 then err not_elf else (do
  magic ← slice bytes 0 4
  ensure (bytes_eq magic elfmag) not_elf
  class ← index bytes 4
  ensure (class == elfclass64) not_elf64
  encoding ← index bytes 5
  ensure (encoding == elfdata2lsb) not_little_endian
  machine ← le_field bytes 18 20
  ensure (machine == em_x86_64) not_x86_64
  e_entry ← le_field bytes 24 32
  e_phoff ← le_field bytes 32 40
  e_phentsize ← le_field bytes 54 56
  e_phnum ← le_field bytes 56 58
  ensure (leb 56 e_phentsize) bad_phentsize
  ok (record { entry = e_entry; phoff = e_phoff; phentsize = e_phentsize; phnum = e_phnum }))
