-- ===== src/Config/Admission.antt =====
-- Which HyperPod files are admitted.
use hyper_pod.Base.{
  ℕ, ◌≤◌, ◌<◌, ◌≡◌, ◌⊎◌, ◌↔◌, refl, Bool, true, false, Option, none, some, List, [], ◌∷◌, arith,
  Error, ok, PathField, kernel_path_field, rootfs_path_field, ensure,
}
use hyper_pod.Config.{
  Limits, GpuPolicy, HyperPodFile, is_whitespace, is_blank, check_limits, check_gpu,
  ensure_file_exists, validate, load,
}

pub record LimitsAreValid (l : Limits) : Type 0 where
  pub some_ram : 0 < l.min_ram
  pub ram_ordered : l.min_ram ≤ l.max_ram
  pub some_shares : 0 < l.min_cpu_shares
  pub shares_ordered : l.min_cpu_shares ≤ l.max_cpu_shares
  pub shares_bounded : l.max_cpu_shares ≤ 10000

unfoldable pub GpuIsValid : Option GpuPolicy → Type 0
GpuIsValid none = Unit
GpuIsValid (some GpuPolicy.full) = Unit
GpuIsValid (some (GpuPolicy.credits per_second maximum)) = (0 < per_second) × (0 < maximum)

ensure-eq-ok : (b : Bool) (e : Error) → (ensure b e ≡ ok tt) ↔ (b ≡ true)
ensure-eq-ok b e = ground arith

check_limits_iff : (l : Limits) → (check_limits l ≡ ok tt) ↔ LimitsAreValid l
unfolding check_limits
check_limits_iff l = ground arith

check_gpu_iff : (g : Option GpuPolicy) → (check_gpu g ≡ ok tt) ↔ GpuIsValid g
unfolding check_gpu GpuIsValid
check_gpu_iff none = (λ _. tt, λ _. refl)
check_gpu_iff (some GpuPolicy.full) = (λ _. tt, λ _. refl)
check_gpu_iff (some (GpuPolicy.credits per_second maximum)) = ground arith

unfoldable pub HasText : List ℕ → Type 0
HasText [] = ⊥
HasText (c ∷ cs) = (is_whitespace c ≡ false) ⊎ HasText cs

not_blank_iff : (s : List ℕ) → (is_blank s ≡ false) ↔ HasText s
unfolding is_blank HasText
not_blank_iff [] = ground arith
not_blank_iff (c ∷ cs) = let rest = not_blank_iff cs in ground arith

module _ (metadata : List ℕ → Option Bool) where
  pub record IsAdmissible (file : HyperPodFile) : Type 0 where
    pub kernel_is_file : metadata file.kernel_path ≡ some true
    pub rootfs_is_file : metadata file.rootfs_path ≡ some true
    pub says_something : HasText file.cmdline
    pub limits_valid : LimitsAreValid file.limits
    pub gpu_valid : GpuIsValid file.gpu

  ensure_file_exists_iff :
      (path : List ℕ) (field : PathField)
      → (ensure_file_exists metadata path field ≡ ok tt) ↔ (metadata path ≡ some true)
  unfolding ensure_file_exists
  ensure_file_exists_iff path field = ground arith

  -- A file passes the checks exactly when both paths lead to regular files, the command line has
  -- a character that is not white space, and the limits and the GPU credits are in their ranges.
  pub validate_iff : (file : HyperPodFile) → (validate metadata file ≡ ok tt) ↔ IsAdmissible file
  unfolding validate
  validate_iff file = ground (
    arith,
    ensure_file_exists_iff file.kernel_path kernel_path_field,
    ensure_file_exists_iff file.rootfs_path rootfs_path_field,
    not_blank_iff file.cmdline,
    check_limits_iff file.limits,
    check_gpu_iff file.gpu,
  )

  module _ (read_to_string : List ℕ → Option (List ℕ))
      (from_str : List ℕ → Option HyperPodFile) where
    -- Loading returns a file exactly when the path can be read, the parser makes that file of its text,
    -- and the file is admissible.
    pub load_iff :
        (path : List ℕ) (file : HyperPodFile)
        → (load metadata read_to_string from_str path ≡ ok file) ↔ (
            (text : List ℕ) × (read_to_string path ≡ some text)
            × (from_str text ≡ some file)
            × IsAdmissible file)
    unfolding load
    load_iff path file = ground (arith, validate_iff file)
