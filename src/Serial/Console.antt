-- ===== src/Serial/Console.antt =====
-- A guest that prints through the port as drivers do.
use mathlib.Core.List.{append-nil, append_assoc}
use hyper_pod.Base.{
  ◌-◌, ◌⊎◌, inl, inr, Bool-cases, ℕ, ◌+◌, ◌≡◌, ◌∙◌, refl, sym, true, List, [], ◌∷◌, ◌++◌, arith,
  if◌then◌else◌, ◌==◌, bit_and,
}
use hyper_pod.Serial.{Serial, serial_port_base, reg_thr, reg_lsr, handles, write, read}

-- The guest's `putchar`: it reads the line status and, when the port can take a byte, writes it.
abbrev pub putchar : ℕ → Serial → Serial
putchar b s = elim (read (serial_port_base + reg_lsr) (0 ∷ [])) [
  | [] ↦ s
  | status ∷ _ ↦
      if bit_and status 0x20 == 0 then s else write (serial_port_base + reg_thr) (b ∷ []) s
]

unfoldable pub print : List ℕ → Serial → Serial
print [] s = s
print (b ∷ bs) s = print bs (putchar b s)

-- The port always reports that it can take a byte, so a guest that asks before each byte has its
-- whole text put out, in its order.
pub out-print : (text : List ℕ) (s : Serial) → (print text s).out ≡ s.out ++ text
unfolding print read write
out-print [] s = sym (append-nil s.out)
out-print (b ∷ bs) s =
    out-print bs (record { out = s.out ++ b ∷ [] }) ∙ append_assoc s.out (b ∷ []) bs

-- Nothing goes out through any port of the range but the first, and nothing without data.
pub out-write :
    (port : ℕ) (bytes : List ℕ) (s : Serial)
    → handles port ≡ true
    → ((write port bytes s).out ≡ s.out)
      ⊎ ((port ≡ serial_port_base)
          × (b : ℕ) × (rest : List ℕ) × (bytes ≡ b ∷ rest)
          × ((write port bytes s).out ≡ s.out ++ b ∷ []))
unfolding write handles
out-write port [] s h = inl refl
out-write port (b ∷ rest) s h = elim (Bool-cases (port - serial_port_base == reg_thr)) [
  | inl data_port ↦ inr (ground arith, b, rest, refl, ground arith)
  | inr other ↦ inl (ground arith)
]
