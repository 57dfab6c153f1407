-- ===== src/Whpx/Sample.antt =====
-- A guest that reads the line status, puts out a byte, and halts, on a hypervisor that does as it is told.
use hyper_pod.Base.{ℕ, refl, List, [], ◌∷◌, length, leb, if◌then◌else◌}
use hyper_pod.Whpx.Partition
use hyper_pod.Whpx.Partition.{Exit, io, Platform, Host, check, call}
use hyper_pod.Whpx.Loop.{port_access, handle_exit}
use hyper_pod.Whpx.Rounds.{Exits}

-- IN AL, DX and OUT DX, AL of a byte.
abbrev pub status : Exit
status = io 0x3fd 0b10 0x1234 0x1000 1

abbrev pub put : Exit
put = io 0x3f8 0b11 0x41 0x1001 1

-- A round of the loop records two events.
abbrev pub exits : ℕ → Exit
exits n = if leb n 1 then status else if leb n 3 then put else Partition.halt

abbrev pub host : Host
host = record { hresult = λ _ _. 0; exit = λ es. exits (length es); handle = 7 }

abbrev pub guest : List Exit
guest = status ∷ put ∷ Partition.halt ∷ []

abbrev pub idle : Platform
idle = record { events = []; serial = record { out = [] } }

pub guest-Exits : Exits host guest idle
unfolding Exits handle_exit port_access call check hyper_pod.Serial.handles
guest-Exits = (refl, (refl, (refl, tt)))
