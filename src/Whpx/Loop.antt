-- ===== src/Whpx/Loop.antt =====
-- The exit loop, `run_loop` of hyperpod/src/vmm/windows/vm.rs.
use hyper_pod.Base.{
  ℕ, zero, suc, ◌-◌, Bool, true, false, not, ◌&&◌, ◌==◌, if◌then◌else◌, [], ◌∷◌, ◌++◌, take,
  replicate, min_of, max_of, bit_and, ◌>>>◌, add64, to_le_bytes, from_le_bytes, ok,
}
use hyper_pod.Vm.Ending.{still_running, Run, lift, ◌>>=◌, ◌>>◌}
use hyper_pod.Serial.{handles, write, read}
use hyper_pod.Whpx.{Name, reg64}
use hyper_pod.Whpx.Partition.{
  Exit, none, halt, unrecoverable, canceled, other, io, memory, Platform, Host, set_registers, call,
  run_once,
}

-- `(raw_info & 1) != 0`
abbrev pub is_write : ℕ → Bool
is_write raw_info = not (bit_and raw_info 1 == 0)

-- `((raw_info >> 1) & 0x7)`, then `.min(4).max(1)`
abbrev pub access_bytes : ℕ → ℕ
access_bytes raw_info = max_of (min_of (bit_and (raw_info >>> 1) 0x7) 4) 1

-- The value that a read of `n` bytes puts into RAX.
unfoldable pub new_rax : ℕ → ℕ → ℕ
new_rax port n = from_le_bytes (read port (replicate n 0) ++ replicate (4 - n) 0)

module _ (host : Host) where
  abbrev advance_rip : ℕ → ℕ → Run Platform (Unit {0})
  advance_rip rip length = call host (set_registers ((Name.rip, reg64 (add64 rip length)) ∷ []))

  unfoldable pub port_access : ℕ → ℕ → ℕ → ℕ → ℕ → Run Platform (Unit {0})
  port_access port raw_info rax rip length p =
      if handles port && is_write raw_info
      then advance_rip rip length (record p {
        serial = write port (take (access_bytes raw_info) (to_le_bytes 8 rax)) p.serial;
      })
      else if handles port
      then call host
          (set_registers (
            (Name.rax, reg64 (new_rax port (access_bytes raw_info)))
            ∷ (Name.rip, reg64 (add64 rip length))
            ∷ []))
          p
      else advance_rip rip length p

  -- One exit; returns whether the loop is to go on.
  unfoldable pub handle_exit : Exit → Run Platform Bool
  handle_exit none = lift (ok true)
  handle_exit halt = lift (ok false)
  handle_exit unrecoverable = lift (ok false)
  handle_exit (io port raw_info rax rip length) = do
    port_access port raw_info rax rip length
    lift (ok true)
  handle_exit (memory gpa rip length) = do advance_rip rip length; lift (ok true)
  handle_exit canceled = lift (ok true)
  handle_exit other = lift (ok false)

  -- At most `rounds` rounds of the loop.
  unfoldable pub run_loop : ℕ → Run Platform (Unit {0})
  run_loop zero p = (still_running, p)
  run_loop (suc rounds) p =
      (run_once host >>= λ exit.
      handle_exit exit >>= λ goes_on. if goes_on then run_loop rounds else lift (ok tt))
        p
