-- ===== src/Ram/Access.antt =====
-- What the accessors of guest memory do: bounds, round trips, and what they leave alone.
use hyper_pod.Base.{
  ℕ, ◌+◌, ◌*◌, ◌^◌, ◌≤◌, ◌<◌, ◌≡◌, ◌↔◌, ◌⊎◌, List, arith, length, ok, err, Error, write_overflow,
  write_out_of_bounds, Bool-cases, ltb, inl, inr, u64_mod, to_le_bytes, length-to_le_bytes, Option,
}
use hyper_pod.Ram.{GuestRam, new, write_slice, write_obj, read_slice, read_obj}
use hyper_pod.Ram.Memory.{
  overwrite, word_at, bytes_at-overwrite, bytes_at-overwrite_apart, word_at-overwrite,
}

-- The size of an allocated buffer fits `usize`.
abbrev pub IsValid : GuestRam → Type 0
IsValid ram = ram.size < u64_mod

-- The memory after the copy that a write in range makes.
abbrev pub written : GuestRam → ℕ → List ℕ → GuestRam
written ram gpa bytes = record ram { cell = overwrite ram.cell gpa bytes }

pub write_slice_in_range :
    (ram : GuestRam) (gpa : ℕ) (bytes : List ℕ)
    → IsValid ram
    → gpa + length bytes ≤ ram.size
    → write_slice gpa bytes ram ≡ (ok tt, written ram gpa bytes)
unfolding write_slice
write_slice_in_range ram gpa bytes v h = ground arith

pub write_obj_in_range :
    (ram : GuestRam) (w gpa val : ℕ)
    → IsValid ram
    → gpa + w ≤ ram.size
    → write_obj w gpa val ram ≡ (ok tt, written ram gpa (to_le_bytes w val))
unfolding write_obj
write_obj_in_range ram w gpa val v h =
    write_slice_in_range ram gpa (to_le_bytes w val) v (omega (arith, length-to_le_bytes w val))

-- A write succeeds exactly when its range lies in the buffer; one that fails changes nothing.
pub write_slice_lem :
    (ram : GuestRam) (gpa : ℕ) (bytes : List ℕ)
    → IsValid ram
    → (((write_slice gpa bytes ram).0 ≡ ok tt) ↔ (gpa + length bytes ≤ ram.size))
      × (ram.size < gpa + length bytes → (write_slice gpa bytes ram).1 ≡ ram)
unfolding write_slice
write_slice_lem ram gpa bytes v = ground arith

-- A write copies its bytes and lies within the buffer, or it fails with an error and changes nothing.
pub write_slice-cases :
    (ram : GuestRam) (gpa : ℕ) (bytes : List ℕ)
    → ((write_slice gpa bytes ram ≡ (ok tt, written ram gpa bytes))
        × (gpa + length bytes ≤ ram.size))
      ⊎ ((e : Error) × (write_slice gpa bytes ram ≡ (err e, ram)))
unfolding write_slice
write_slice-cases ram gpa bytes = elim (Bool-cases (ltb (gpa + length bytes) u64_mod)) [
  | inl fits ↦ elim (Bool-cases (ltb ram.size (gpa + length bytes))) [
    | inl beyond ↦ inr (write_out_of_bounds, ground arith)
    | inr within ↦ inl (ground arith)
  ]
  | inr wraps ↦ inr (write_overflow, ground arith)
]

-- Reading the range that a successful write filled gives the written bytes.
pub read_slice-write_slice :
    (ram ram' : GuestRam) (gpa : ℕ) (bytes : List ℕ)
    → write_slice gpa bytes ram ≡ (ok tt, ram')
    → read_slice ram' gpa (length bytes) ≡ ok bytes
unfolding write_slice read_slice
read_slice-write_slice ram ram' gpa bytes h = ground (arith, bytes_at-overwrite ram.cell gpa bytes)

-- A write, whether it succeeds or not, changes no read of a range apart from its own.
pub read_slice-write_slice_apart :
    (ram : GuestRam) (gpa : ℕ) (bytes : List ℕ) (a n : ℕ)
    → (a + n ≤ gpa) ⊎ (gpa + length bytes ≤ a)
    → read_slice (write_slice gpa bytes ram).1 a n ≡ read_slice ram a n
unfolding write_slice read_slice
read_slice-write_slice_apart ram gpa bytes a n h =
    ground (arith, bytes_at-overwrite_apart ram.cell gpa bytes a n)

-- An integer that fits its width reads back from where it was written.
pub read_obj-write_obj :
    (ram ram' : GuestRam) (w gpa val : ℕ)
    → val < 256 ^ w
    → write_obj w gpa val ram ≡ (ok tt, ram')
    → read_obj ram' w gpa ≡ ok val
unfolding write_obj read_obj write_slice read_slice word_at
read_obj-write_obj ram ram' w gpa val fits h =
    ground (arith, word_at-overwrite w ram.cell gpa val, length-to_le_bytes w val)

-- Every buffer that `new` returns has the size that was asked for, and it fits `usize`.
pub new-IsValid :
    (alloc : ℕ → Option (ℕ → ℕ)) (size_mib : ℕ) (ram : GuestRam)
    → new alloc size_mib ≡ ok ram
    → IsValid ram × (ram.size ≡ size_mib * (1024 * 1024))
unfolding new
new-IsValid alloc size_mib ram h = ground arith
