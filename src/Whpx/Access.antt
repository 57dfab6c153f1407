-- ===== src/Whpx/Access.antt =====
-- What a guest's read of a port leaves in RAX on Windows, `run_loop` of hyperpod/src/vmm/windows/vm.rs.
use hyper_pod.Base.{
  ℕ, ◌+◌, ◌*◌, ◌/◌, ◌^◌, ◌<◌, ◌≡◌, ◌↔◌, ◌⊎◌, inl, inr, refl, sym, subst, replicate, [], ◌∷◌,
  from_le_bytes, arith, ◌==◌, if◌then◌else◌,
}
use hyper_pod.Serial.{read}
use hyper_pod.Whpx.Loop.{new_rax}

-- RAX after the processor's own IN of `n` bytes: four bytes clear the upper half of the register, one
-- or two leave the rest of it as it was.
unfoldable pub rax_after_in : ℕ → ℕ → ℕ → ℕ
rax_after_in rax n value = if n == 4 then value else rax / 256 ^ n * 256 ^ n + value

-- What the property below says of one size.
abbrev IsKept : ℕ → ℕ → ℕ → Type 0
IsKept port rax n =
    (new_rax port n ≡ rax_after_in rax n (from_le_bytes (read port (replicate n 0))))
    ↔ ((n ≡ 4) ⊎ (rax < 256 ^ n))

one_iff : (rax x : ℕ) → (x ≡ rax / 256 * 256 + x) ↔ ((◌≡◌ {A = ℕ} 1 4) ⊎ (rax < 256))
one_iff rax x = ground arith

two_iff : (rax x : ℕ) → (x ≡ rax / 65536 * 65536 + x) ↔ ((◌≡◌ {A = ℕ} 2 4) ⊎ (rax < 65536))
two_iff rax x = ground arith

from_le_bytes-pad : (x : ℕ) → from_le_bytes (x ∷ 0 ∷ 0 ∷ 0 ∷ []) ≡ from_le_bytes (x ∷ [])
unfolding from_le_bytes
from_le_bytes-pad x = omega arith

from_le_bytes-pad_two : (x : ℕ) → from_le_bytes (x ∷ 0 ∷ 0 ∷ 0 ∷ []) ≡ from_le_bytes (x ∷ 0 ∷ [])
unfolding from_le_bytes
from_le_bytes-pad_two x = omega arith

one-IsKept : (port rax : ℕ) → IsKept port rax 1
unfolding new_rax rax_after_in read
one-IsKept port rax = rw (from_le_bytes-pad _) (one_iff rax _)

two-IsKept : (port rax : ℕ) → IsKept port rax 2
unfolding new_rax rax_after_in read
two-IsKept port rax = rw (from_le_bytes-pad_two _) (two_iff rax _)

four-IsKept : (port rax : ℕ) → IsKept port rax 4
unfolding new_rax rax_after_in read
four-IsKept port rax = (λ e. inl refl, λ h. refl)

-- A read of one, two or four bytes leaves in RAX what the processor's own IN of the bytes that the port
-- answers leaves there if and only if it is of four bytes, or RAX had no bits beyond the bytes read.
pub new_rax_iff :
    (port rax n : ℕ)
    → (n ≡ 1) ⊎ ((n ≡ 2) ⊎ (n ≡ 4))
    → (new_rax port n ≡ rax_after_in rax n (from_le_bytes (read port (replicate n 0))))
      ↔ ((n ≡ 4) ⊎ (rax < 256 ^ n))
new_rax_iff port rax n (inl one) = subst (λ k. IsKept port rax k) (sym one) (one-IsKept port rax)
new_rax_iff port rax n (inr (inl two)) =
    subst (λ k. IsKept port rax k) (sym two) (two-IsKept port rax)
new_rax_iff port rax n (inr (inr four)) =
    subst (λ k. IsKept port rax k) (sym four) (four-IsKept port rax)
