-- ===== src/Config/Tests.antt =====
-- A HyperPod file that is admitted.
use hyper_pod.Base.{
  ℕ, ◌≡◌, ◌↔◌, Bool, true, false, Option, none, some, List, [], ◌∷◌, ok, bytes_eq, if◌then◌else◌,
}
use hyper_pod.Config.{GpuPolicy, HyperPodFile, load}
use hyper_pod.Config.Admission.{IsAdmissible, load_iff}

abbrev file : HyperPodFile
file = record {
  rootfs_path = b'r' ∷ [];
  kernel_path = b'k' ∷ [];
  cmdline = 32 ∷ b'q' ∷ [];
  limits = record { min_ram = 64; max_ram = 128; min_cpu_shares = 100; max_cpu_shares = 400 };
  gpu = some (GpuPolicy.credits 5 50);
}

-- Two regular files, and a directory.
abbrev metadata : List ℕ → Option Bool
metadata path =
    if bytes_eq path (b'r' ∷ [])
    then some true
    else if bytes_eq path (b'k' ∷ [])
    then some true
    else if bytes_eq path (b'd' ∷ [])
    then some false
    else none

abbrev read_to_string : List ℕ → Option (List ℕ)
read_to_string path = some path

abbrev from_str : List ℕ → Option HyperPodFile
from_str text = if bytes_eq text (b'h' ∷ []) then some file else none

load_iff_example : (load metadata read_to_string from_str (b'h' ∷ []) ≡ ok file) ↔ (
    (text : List ℕ) × (read_to_string (b'h' ∷ []) ≡ some text)
    × (from_str text ≡ some file)
    × IsAdmissible metadata file)
load_iff_example = load_iff metadata read_to_string from_str (b'h' ∷ []) file
