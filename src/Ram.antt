-- ===== src/Ram.antt =====
-- Guest memory, hyperpod/src/vmm/common/ram.rs: `GuestRam` is a host buffer of `size` bytes, seen
-- as a function from offsets. The buffer is written through a shared reference, so a writer takes
-- the memory and returns it; what was written before an error stays written.
pub mod Memory
pub mod Access
pub mod Patch
pub mod Buffer
mod Tests
use hyper_pod.Base.{
  ℕ, ◌+◌, ◌*◌, ◌^◌, Option, none, some, List, length, ltb, if◌then◌else◌, checked_add64,
  checked_mul64, to_le_bytes, from_le_bytes, Outcome, ok, err, ◌>>=◌, or_err, size_overflow,
  alloc_failed, panic, write_overflow, write_out_of_bounds, read_overflow, read_out_of_bounds,
}
use Memory.{overwrite, bytes_at}

pub record GuestRam : Type 0 where
  pub size : ℕ
  pub cell : ℕ → ℕ

-- `GuestRam::new`: `alloc` is the operating system's allocation of so many bytes, with what the
-- fresh buffer holds.
unfoldable pub new : (ℕ → Option (ℕ → ℕ)) → ℕ → Outcome GuestRam
new alloc size_mib = do
  size ← or_err (checked_mul64 size_mib (1024 * 1024)) size_overflow
  cell ← or_err (alloc size) alloc_failed
  ok (record { size = size; cell = cell })

-- The bounds that `write_slice` checks before it copies.
write_range : GuestRam → ℕ → ℕ → Outcome ℕ
write_range ram off len = do
  end ← or_err (checked_add64 off len) write_overflow
  if ltb ram.size end then err write_out_of_bounds else ok end

unfoldable pub write_slice : ℕ → List ℕ → GuestRam → Outcome (Unit {0}) × GuestRam
unfolding write_range
write_slice gpa bytes ram = elim (write_range ram gpa (length bytes)) [
  | ok _ ↦ (ok tt, record ram { cell = overwrite ram.cell gpa bytes })
  | err e ↦ (err e, ram)
  | panic ↦ (panic, ram)
]

-- `write_obj::<T>` of an unsigned integer of `width` bytes.
unfoldable pub write_obj : ℕ → ℕ → ℕ → GuestRam → Outcome (Unit {0}) × GuestRam
write_obj width gpa val = write_slice gpa (to_le_bytes width val)

unfoldable pub read_slice : GuestRam → ℕ → ℕ → Outcome (List ℕ)
read_slice ram gpa len = do
  end ← or_err (checked_add64 gpa len) read_overflow
  if ltb ram.size end then err read_out_of_bounds else ok (bytes_at ram.cell gpa len)

-- `read_obj::<T>` of an unsigned integer of `width` bytes.
unfoldable pub read_obj : GuestRam → ℕ → ℕ → Outcome ℕ
read_obj ram width gpa = do buf ← read_slice ram gpa width; ok (from_le_bytes buf)
