-- ===== src/Ram/Tests.antt =====
-- Guest memory of one page.
use hyper_pod.Base.{ℕ, ◌≡◌, ◌^◌, map, ◌++◌, Option, some, List, [], ◌∷◌}
use hyper_pod.Ram.{GuestRam}
use hyper_pod.Ram.Buffer.{linux, Use, make, let_go, run_uses}
use hyper_pod.Ram.Buffer.Mappings.{region}
use hyper_pod.Ram.Buffer.Sample.{host, host-IsDocumented}
use hyper_pod.Ram.Buffer.Balance.{run_uses-mappings}

abbrev page : GuestRam
page = record { size = 0x1000; cell = λ _. 0 }

abbrev bytes : List ℕ
bytes = 7 ∷ 8 ∷ 9 ∷ []

-- An allocation that always succeeds, with zeros.
abbrev alloc : ℕ → Option (ℕ → ℕ)
alloc n = some λ _. 0

abbrev uses : List Use
uses = make 64 ∷ make 0 ∷ make 128 ∷ let_go 1 ∷ make (2 ^ 44) ∷ []

run_uses-mappings_example :
    (let w = run_uses host linux uses (record { live = []; host_state = (7, 9) ∷ [] }) in
      host.mappings w.host_state ≡ map region w.live ++ (7, 9) ∷ [])
run_uses-mappings_example = run_uses-mappings host host-IsDocumented linux uses ((7, 9) ∷ [])
