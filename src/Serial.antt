-- ===== src/Serial.antt =====
-- The serial port, hyperpod/src/vmm/common/serial.rs. The bytes that it has put out are its state.
pub mod Console
use hyper_pod.Base.{ℕ, ◌+◌, ◌-◌, Bool, ◌&&◌, List, [], ◌∷◌, ◌++◌, leb, ◌==◌, if◌then◌else◌, bit_or}

abbrev pub serial_port_base : ℕ
serial_port_base = 0x3f8

abbrev pub serial_port_end : ℕ
serial_port_end = 0x3ff

abbrev pub reg_thr : ℕ
reg_thr = 0

abbrev pub reg_lsr : ℕ
reg_lsr = 5

abbrev pub lsr_thre : ℕ
lsr_thre = 0x20

abbrev pub lsr_temt : ℕ
lsr_temt = 0x40

pub record Serial : Type 0 where
  pub out : List ℕ

unfoldable pub handles : ℕ → Bool
handles port = leb serial_port_base port && leb port serial_port_end

-- `write`, on a port that it handles: the first byte goes out.
unfoldable pub write : ℕ → List ℕ → Serial → Serial
write port [] s = s
write port (b ∷ rest) s =
    if (port - serial_port_base) == reg_thr then record { out = s.out ++ b ∷ [] } else s

-- `read`, on a port that it handles: the buffer afterwards.
unfoldable pub read : ℕ → List ℕ → List ℕ
read port [] = []
read port (b ∷ rest) =
    (if (port - serial_port_base) == reg_lsr then bit_or lsr_thre lsr_temt else 0) ∷ rest
