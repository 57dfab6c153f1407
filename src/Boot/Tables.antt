-- ===== src/Boot/Tables.antt =====
-- The page tables identity-map the first GiB, and nothing else of the 48-bit address space where
-- the memory was zero before.
use native.Mathlib.Decide.{dec_le}
use hyper_pod.Base.{
  ℕ, zero, suc, ◌+◌, ◌*◌, ◌^◌, ◌≤◌, ◌<◌, ◌≡◌, refl, ◌⊎◌, inl, ◌∙◌, arith, Outcome, ok, to_le_bytes,
  length-to_le_bytes,
}
use hyper_pod.Base.Bits.{bit_or_fields}
use hyper_pod.Base.Action.{>>=-ok}
use hyper_pod.Ram.{GuestRam, write_obj}
use hyper_pod.Ram.Memory.{overwrite, word_at, overwrite_outside, word_at-overwrite, word_at_ext}
use hyper_pod.Ram.Access.{IsValid, written, write_obj_in_range}
use hyper_pod.Boot.{pde_start, pde, write_pdes}

pub pde_lem : (i : ℕ) → pde i ≡ i * 2 ^ 21 + 0x83
pde_lem i = bit_or_fields 21 i 0x83 (omega arith)

-- `result` is a normal return that wrote the entries from `i` on, `left` of them, and nothing else.
pub record Fills (i left : ℕ) (ram : GuestRam) (result : Outcome (Unit {0}) × GuestRam)
    : Type 0 where
  pub after : ℕ → ℕ
  pub returns : result ≡ (ok tt, record ram { cell = after })
  pub entries : (j : ℕ) → i ≤ j → j < i + left → word_at 8 after (pde_start + j * 8) ≡ pde j
  pub outside :
      (a : ℕ) → (a < pde_start + i * 8) ⊎ (pde_start + (i + left) * 8 ≤ a) → after a ≡ ram.cell a

-- Entry `i` and then the rest.
Fills-suc :
    (i left : ℕ) (ram : GuestRam) (result : Outcome (Unit {0}) × GuestRam)
    → Fills (i + 1) left (written ram (pde_start + i * 8) (to_le_bytes 8 (pde i))) result
    → i + suc left ≤ 512
    → Fills i (suc left) ram result
Fills-suc i left ram result rest h = record {
  after = rest.after;
  returns = rest.returns;
  entries = λ j p q. elim (dec_le j i) [
    | yes le ↦ first j (omega arith)
    | no gt ↦ rest.entries j (omega arith) (omega arith)
  ];
  outside = λ a p.
      rest.outside a (ground arith)
      ∙ overwrite_outside ram.cell addr (to_le_bytes 8 (pde i)) a
          (rw length-to_le_bytes (ground arith));
}
  where
    addr : ℕ
    addr = pde_start + i * 8

    first : (j : ℕ) → j ≡ i → word_at 8 rest.after (pde_start + j * 8) ≡ pde j
    first j e = rw e (
        word_at_ext 8 rest.after (overwrite ram.cell addr (to_le_bytes 8 (pde i))) addr
          (λ a p q. rest.outside a (inl (omega arith)))
        ∙ word_at-overwrite 8 ram.cell addr (pde i) (omega (arith, pde_lem i)))

pub write_pdes-Fills :
    (left i : ℕ) (ram : GuestRam)
    → IsValid ram
    → i + left ≤ 512
    → pde_start + 4096 ≤ ram.size
    → Fills i left ram (write_pdes left i ram)
unfolding write_pdes
write_pdes-Fills zero i ram v h fits = record {
  after = ram.cell;
  returns = refl;
  entries = λ j p q. absurd (omega arith);
  outside = λ a p. refl;
}
write_pdes-Fills (suc left) i ram v h fits =
    let addr = pde_start + i * 8 in
    let ram' = written ram addr (to_le_bytes 8 (pde i)) in
    let entered =
      >>=-ok (write_obj 8 addr (pde i)) (λ _. write_pdes left (i + 1)) ram
        (write_obj_in_range ram 8 addr (pde i) v (omega arith)) in
    rw entered (Fills-suc i left ram _ (write_pdes-Fills left (i + 1) ram' v (omega arith) fits) h)
