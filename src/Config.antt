-- ===== src/Config.antt =====
-- The HyperPod file, hyperpod/src/config.rs: what is loaded, and the checks it has to pass. The
-- file system and the TOML parser are parameters.
pub mod Admission
mod Tests
use hyper_pod.Base.{
  ℕ, Bool, true, not, ◌&&◌, ◌||◌, Option, none, some, List, all, ltb, leb, ◌==◌, Outcome, ok, ◌>>=◌,
  ◌>>◌, ensure, or_err, PathField, kernel_path_field, rootfs_path_field, config_unreadable,
  config_unparsable, not_accessible, not_regular_file, cmdline_empty, min_ram_zero,
  max_ram_below_min, min_shares_zero, max_shares_below_min, shares_out_of_range, credits_zero,
}

pub record Limits : Type 0 where
  pub min_ram : ℕ
  pub max_ram : ℕ
  pub min_cpu_shares : ℕ
  pub max_cpu_shares : ℕ

pub data GpuPolicy : Type 0 where
  -- `credits_per_second`, `max_credits`
  credits : ℕ → ℕ → GpuPolicy
  full : GpuPolicy

-- Paths and text are lists of code points.
pub record HyperPodFile : Type 0 where
  pub rootfs_path : List ℕ
  pub kernel_path : List ℕ
  pub cmdline : List ℕ
  pub limits : Limits
  pub gpu : Option GpuPolicy

-- `char::is_whitespace`: the code points with the Unicode property White_Space.
unfoldable pub is_whitespace : ℕ → Bool
is_whitespace c =
    leb 9 c && leb c 13
    || c == 32
    || c == 133
    || c == 160
    || c == 5760
    || leb 8192 c && leb c 8202
    || c == 8232
    || c == 8233
    || c == 8239
    || c == 8287
    || c == 12288

-- `s.trim().is_empty()`
unfoldable pub is_blank : List ℕ → Bool
is_blank s = all is_whitespace s

unfoldable pub check_limits : Limits → Outcome (Unit {0})
check_limits l = do
  ensure (not (l.min_ram == 0)) min_ram_zero
  ensure (not (ltb l.max_ram l.min_ram)) max_ram_below_min
  ensure (not (l.min_cpu_shares == 0)) min_shares_zero
  ensure (not (ltb l.max_cpu_shares l.min_cpu_shares)) max_shares_below_min
  ensure (not (ltb 10000 l.min_cpu_shares || ltb 10000 l.max_cpu_shares)) shares_out_of_range

unfoldable pub check_gpu : Option GpuPolicy → Outcome (Unit {0})
check_gpu none = ok tt
check_gpu (some GpuPolicy.full) = ok tt
check_gpu (some (GpuPolicy.credits per_second maximum)) =
    ensure (not (per_second == 0 || maximum == 0)) credits_zero

-- `fs::metadata(path)`: `none` when it fails, and otherwise `meta.is_file()`.
module _ (metadata : List ℕ → Option Bool) where
  unfoldable pub ensure_file_exists : List ℕ → PathField → Outcome (Unit {0})
  ensure_file_exists path field = do
    is_file ← or_err (metadata path) (not_accessible field)
    ensure is_file (not_regular_file field)

  unfoldable pub validate : HyperPodFile → Outcome (Unit {0})
  validate file = do
    ensure_file_exists file.kernel_path kernel_path_field
    ensure_file_exists file.rootfs_path rootfs_path_field
    ensure (not (is_blank file.cmdline)) cmdline_empty
    check_limits file.limits
    check_gpu file.gpu

  -- `fs::read_to_string` and `toml::from_str`
  module _ (read_to_string : List ℕ → Option (List ℕ))
      (from_str : List ℕ → Option HyperPodFile) where
    unfoldable pub load : List ℕ → Outcome HyperPodFile
    load path = do
      contents ← or_err (read_to_string path) config_unreadable
      parsed ← or_err (from_str contents) config_unparsable
      validate parsed
      ok parsed
