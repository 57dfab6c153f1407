-- ===== src/Base/Results.antt =====
-- What a fallible Rust function does: it returns, it returns an `anyhow::Error`, or it panics.
use mathlib.Core.Bool.{Bool, true, false}
use mathlib.Core.Path.{◌≡◌, refl}
use mathlib.Core.Logic.{◌⊎◌, inl, inr}
use mathlib.Core.Option.{Option, none, some}

-- The `field` of `ensure_file_exists`.
pub data PathField : Type 0 where
  kernel_path_field rootfs_path_field : PathField

-- The `bail!` and `context` messages of the source, in the order of its files.
pub data Error : Type 0 where
  size_overflow alloc_failed write_overflow write_out_of_bounds : Error
  read_overflow read_out_of_bounds : Error
  kernel_unreadable not_elf not_elf64 not_little_endian not_x86_64 bad_phentsize : Error
  phdr_overflow phdr_past_end segment_out_of_bounds no_load_segments : Error
  image_unreadable vhd_too_small no_footer_cookie unsupported_disk_type : Error
  dynamic_vhd differencing_vhd vhdx_unsupported : Error
  empty_image misaligned_image sector_out_of_range bad_buffer_size unexpected_eof : Error
  config_unreadable config_unparsable : Error
  not_accessible not_regular_file : PathField → Error
  cmdline_empty min_ram_zero max_ram_below_min min_shares_zero max_shares_below_min : Error
  shares_out_of_range credits_zero : Error
  descriptor_out_of_range chain_too_long : Error
  kvm_unavailable kvm_api_version kvm_create_vm kvm_set_tss_addr kvm_set_region : Error
  kvm_create_vcpu kvm_cpuid kvm_set_cpuid kvm_get_sregs kvm_set_sregs kvm_get_regs kvm_set_regs
        kvm_run :
      Error
  unsupported_os hypervisor_failed thread_pool_failed system_times_failed : Error
  proc_unreadable loadavg_empty loadavg_unparsed no_cgroup_line : Error
  share_file_missing share_file_not_writable share_write_failed : Error
  create_job_failed assign_job_failed set_rate_failed : Error
  zero_original_size original_size_past_end misaligned_original_size : Error

pub data Outcome {ℓ} (A : Type ℓ) : Type ℓ where
  ok : A → Outcome A
  err : Error → Outcome A
  panic : Outcome A

infixl 5 ◌>>=◌ ◌>>◌
abbrev pub ◌>>=◌ {ℓ κ} : {A : Type ℓ} {B : Type κ} → Outcome A → (A → Outcome B) → Outcome B
ok a >>= f = f a
err e >>= f = err e
panic >>= f = panic

abbrev pub ◌>>◌ {ℓ} : {B : Type ℓ} → Outcome (Unit {0}) → Outcome B → Outcome B
m >> k = m >>= λ _. k

-- `if !test { bail!(e) }`
abbrev pub ensure : Bool → Error → Outcome (Unit {0})
ensure true e = ok tt
ensure false e = err e

-- `option.context(e)`
abbrev pub or_err {ℓ} : {A : Type ℓ} → Option A → Error → Outcome A
or_err none e = err e
or_err (some a) e = ok a

-- The three ways in which a function ends.
pub Outcome-cases {ℓ} :
    {A : Type ℓ} (o : Outcome A)
    → ((a : A) × (o ≡ ok a)) ⊎ (((e : Error) × (o ≡ err e)) ⊎ (o ≡ panic))
Outcome-cases (ok a) = inl (a, refl)
Outcome-cases (err e) = inr (inl (e, refl))
Outcome-cases panic = inr (inr refl)
