-- ===== src/Boot/Cmdline.antt =====
-- The command line in memory, as the kernel reads it: the bytes up to the first zero.
use hyper_pod.Base.{
  ◌≤◌, ℕ, zero, suc, ◌+◌, ◌<◌, ◌≡◌, refl, ap, inl, ◌∙◌, ◌==◌, if◌then◌else◌, List, [], ◌∷◌, All,
  arith, length, get_or, ok, to_le_bytes, length-to_le_bytes, ne→==_false,
}
use hyper_pod.Base.Action.{>>=-ok}
use hyper_pod.Ram.{GuestRam, write_slice, write_obj}
use hyper_pod.Ram.Memory.{overwrite_inside, overwrite_outside}
use hyper_pod.Ram.Access.{IsValid, written, write_slice_in_range, write_obj_in_range}
use hyper_pod.Boot.Region.{IsLocal, Puts}
use hyper_pod.Boot.{cmdline_start, write_cmdline}

-- The text at `off`, up to a zero byte, of at most `n` bytes.
unfoldable pub text_at : (ℕ → ℕ) → ℕ → ℕ → List ℕ
text_at cell off zero = []
text_at cell off (suc n) =
    let rest = text_at cell (off + 1) n in if cell off == 0 then [] else cell off ∷ rest

text_at-bytes :
    (cell : ℕ → ℕ) (off : ℕ) (bytes : List ℕ)
    → All (λ b. 0 < b) bytes
    → ((i : ℕ) → i < length bytes → cell (off + i) ≡ get_or bytes i 0)
    → cell (off + length bytes) ≡ 0
    → text_at cell off (suc (length bytes)) ≡ bytes
unfolding text_at
text_at-bytes cell off [] h agree end =
    let here : cell off ≡ 0 = ap cell {x = off} {y = off + 0} (omega arith) ∙ end in rw here refl
text_at-bytes cell off (b ∷ bs) h agree end =
    let first : cell off ≡ b =
      ap cell {x = off} {y = off + 0} (omega arith) ∙ agree 0 (omega arith) in
    let rest =
      text_at-bytes cell (off + 1) bs h.1
        (λ i p.
          ap cell {x = off + 1 + i} {y = off + suc i} (omega arith) ∙ agree (suc i) (omega arith))
        (ap cell {x = off + 1 + length bs} {y = off + suc (length bs)} (omega arith) ∙ end) in
    rw (first, ne→==_false b 0 (omega (arith, h.0)), rest) refl

-- The text of the command line, with its end.
unfoldable pub IsCmdline : List ℕ → (ℕ → ℕ) → Type 0
IsCmdline bytes cell = text_at cell cmdline_start (suc (length bytes)) ≡ bytes

text_at_ext :
    (c d : ℕ → ℕ) (off n : ℕ)
    → ((a : ℕ) → off ≤ a → a < off + n → d a ≡ c a)
    → text_at d off n ≡ text_at c off n
unfolding text_at
text_at_ext c d off zero h = refl
text_at_ext c d off (suc n) h =
    rw
      (
        h off (omega arith) (omega arith),
        text_at_ext c d (off + 1) n (λ a p q. h a (omega arith) (omega arith)),
      )
      refl

pub IsCmdline-IsLocal :
    (bytes : List ℕ) → IsLocal cmdline_start (cmdline_start + length bytes + 1) (IsCmdline bytes)
unfolding IsCmdline
IsCmdline-IsLocal bytes c d h text =
    text_at_ext c d cmdline_start (suc (length bytes)) (λ a p q. h a p (omega arith)) ∙ text

pub write_cmdline-Puts :
    (bytes : List ℕ) (ram : GuestRam)
    → IsValid ram
    → cmdline_start + length bytes < ram.size
    → All (λ b. 0 < b) bytes
    → Puts cmdline_start
        (cmdline_start + length bytes + 1)
        (IsCmdline bytes)
        ram
        (write_cmdline bytes ram)
unfolding write_cmdline to_le_bytes IsCmdline
write_cmdline-Puts bytes ram v room h = record {
  after = after.cell;
  returns =
      >>=-ok (write_slice cmdline_start bytes) (λ _. write_obj 1 end 0) ram
        (write_slice_in_range ram cmdline_start bytes v (omega arith))
      ∙ write_obj_in_range with_text 1 end 0 v (omega arith);
  holds =
      text_at-bytes after.cell cmdline_start bytes h
        (λ i p.
          overwrite_outside with_text.cell end (to_le_bytes 1 0) (cmdline_start + i)
            (inl (omega arith))
          ∙ overwrite_inside ram.cell cmdline_start bytes i p)
        (ap after.cell {x = end} {y = end + 0} (omega arith)
          ∙ overwrite_inside with_text.cell end (to_le_bytes 1 0) 0
              (omega (arith, length-to_le_bytes 1 0)));
  outside = λ a apart.
      overwrite_outside with_text.cell end (to_le_bytes 1 0) a
        (ground (arith, length-to_le_bytes 1 0))
      ∙ overwrite_outside ram.cell cmdline_start bytes a (ground arith);
}
  where
    end : ℕ
    end = cmdline_start + length bytes

    with_text : GuestRam
    with_text = written ram cmdline_start bytes

    after : GuestRam
    after = written with_text end (to_le_bytes 1 0)

-- In memory that reaches past it, `write_cmdline` returns, and leaves the text at `cmdline_start`
-- with a zero behind it: if the text has no zero byte, it is read back as it is.
pub write_cmdline-text :
    (bytes : List ℕ) (ram : GuestRam)
    → IsValid ram
    → cmdline_start + length bytes < ram.size
    → All (λ b. 0 < b) bytes
    → (ram' : GuestRam) × (write_cmdline bytes ram ≡ (ok tt, ram'))
      × (text_at ram'.cell cmdline_start (suc (length bytes)) ≡ bytes)
unfolding IsCmdline
write_cmdline-text bytes ram v room h =
    let p = write_cmdline-Puts bytes ram v room h in
    (record ram { cell = p.after }, p.returns, p.holds)
