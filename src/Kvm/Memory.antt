-- ===== src/Kvm/Memory.antt =====
-- The guest's memory over the whole of `run_vm`, hyperpod/src/vmm/linux/vm.rs: the host's buffer is a
-- local value, which is dropped when the function returns.
use hyper_pod.Base.{
  ℕ, ◌*◌, ◌≡◌, ◌≢◌, ◌∙◌, ◌⊎◌, inl, inr, refl, sym, ap, subst, Option, none, some, [], ◌∷◌,
  Bool-cases, ltb, ◌==◌, u64_mod, alloc_failed, size_overflow, Outcome, ok, err, panic, Error,
  arith,
}
use hyper_pod.Vm.Ending.{Ending, still_running, returned, Run, lift, ◌>>=◌}
use hyper_pod.Config.{HyperPodFile}
use hyper_pod.Ram.{GuestRam, new}
use hyper_pod.Ram.Buffer.{linux, HostMemory, Buffer, map_failed, alloc, new_buffer, drop_buffer}
use hyper_pod.Ram.Buffer.Mappings.{IsDocumented, region}
use hyper_pod.Ram.Buffer.Balance.{new_buffer-cases, drop_buffer-unmaps}
use hyper_pod.Storage.{Backend, open_image}
use hyper_pod.Kvm.Run.{Process, System, run_memory, run_vm}

-- `contents` is what fresh memory at an address holds.
module _ (host : HostMemory) (contents : ℕ → ℕ → ℕ) (sys : System) (cfg : HyperPodFile) where
  open host use {Host, mappings}

  -- `GuestRam` behind its host pointer.
  abbrev guest_ram : Buffer → GuestRam
  guest_ram b = record { size = b.size; cell = contents b.base }

  -- The end of the scope of the memory.
  unfoldable pub leave :
      Buffer → Host → Ending (Unit {0}) × Process → Ending (Unit {0}) × (Host × Process)
  leave b h (still_running, q) = (still_running, (h, q))
  leave b h (returned r, q) = (returned r, (drop_buffer host linux b h, q))

  unfoldable pub with_memory :
      Outcome Buffer × Host → Process → Ending (Unit {0}) × (Host × Process)
  with_memory (ok b, h) p = leave b h (run_memory sys cfg (guest_ram b) p)
  with_memory (err e, h) p = (returned (err e), (h, p))
  with_memory (panic, h) p = (returned panic, (h, p))

  -- `run_vm` with the host that it runs on.
  unfoldable pub run_vm_on : Run (Host × Process) (Unit {0})
  run_vm_on = do
    _ ← lift (open_image (sys.rootfs cfg.rootfs_path))
    λ s. with_memory (new_buffer host linux cfg.limits.min_ram s.0) s.1

  -- The allocation that `run_vm` sees on that host.
  unfoldable pub alloc_on : Host → ℕ → Option (ℕ → ℕ)
  alloc_on h size = elim (alloc host linux size h).0 [
    | ok p ↦ some (contents p)
    | err e ↦ none
    | panic ↦ none
  ]

  -- A guest that runs has its memory mapped, and only that has come to the mappings there were; code
  -- that has returned leaves the mappings that there were.
  unfoldable pub Frees : Host → Ending (Unit {0}) × (Host × Process) → Type 0
  Frees h (still_running, s) =
      (b : Buffer) × (b.size ≡ cfg.limits.min_ram * (1024 * 1024))
      × (mappings s.0 ≡ region b ∷ mappings h)
  Frees h (returned r, s) = mappings s.0 ≡ mappings h

  module _ (laws : IsDocumented host) where
    leave-Frees :
        (h h' : Host) (b : Buffer) (r : Ending (Unit {0}) × Process)
        → b.base ≢ 0
        → b.size ≡ cfg.limits.min_ram * (1024 * 1024)
        → mappings h' ≡ region b ∷ mappings h
        → Frees h (leave b h' r)
    unfolding Frees leave
    leave-Frees h h' b (still_running, q) ne size same = (b, size, same)
    leave-Frees h h' b (returned r, q) ne size same =
        drop_buffer-unmaps host laws linux (mappings h) (b ∷ []) 0 b h' (ne, tt, tt) refl same
          (λ e. cc)

    made-Frees :
        (h : Host) (p : Process)
        → Frees h (with_memory (new_buffer host linux cfg.limits.min_ram h) p)
    unfolding Frees with_memory
    made-Frees h p = elim (new_buffer-cases host laws linux cfg.limits.min_ram h) [
      | inl (b, h', e, there, ne, size, comes) ↦
          subst (λ r. Frees h (with_memory r p)) (sym e)
            (leave-Frees h h' b (run_memory sys cfg (guest_ram b) p) ne size comes.0)
      | inr (x, h', e, same) ↦ subst (λ r. Frees h (with_memory r p)) (sym e) same
    ]

    opened-Frees :
        (o : Outcome Backend) (h : Host) (p : Process)
        → Frees h (
            (lift o >>= λ _ s. with_memory (new_buffer host linux cfg.limits.min_ram s.0) s.1)
              (h, p))
    unfolding Frees
    opened-Frees (ok b) h p = made-Frees h p
    opened-Frees (err e) h p = refl
    opened-Frees panic h p = refl

  -- What is left without the host.
  abbrev pub forget : Ending (Unit {0}) × (Host × Process) → Ending (Unit {0}) × Process
  forget o = (o.0, o.1.1)

  forget-leave :
      (b : Buffer) (h : Host) (r : Ending (Unit {0}) × Process) → forget (leave b h r) ≡ r
  unfolding leave
  forget-leave b h (still_running, q) = refl
  forget-leave b h (returned r, q) = refl

  alloc-linux :
      (size : ℕ) (h : Host)
      → ((p : ℕ) × (h' : Host) × (alloc host linux size h ≡ (ok p, h'))
          × (alloc_on h size ≡ some (contents p)))
        ⊎ ((h' : Host) × (alloc host linux size h ≡ (err alloc_failed, h'))
            × (alloc_on h size ≡ none))
  unfolding alloc alloc_on
  alloc-linux size h = elim (Bool-cases ((host.mmap size h).0 == map_failed)) [
    | inl failed ↦ inr ((host.mmap size h).1, rw failed refl, ground arith)
    | inr made ↦ inl ((host.mmap size h).0, (host.mmap size h).1, rw made refl, ground arith)
  ]

  -- The memory that the code has is the one that the host gave.
  new-new_buffer :
      (h : Host)
      → ((b : Buffer) × (h' : Host) × (new_buffer host linux cfg.limits.min_ram h ≡ (ok b, h'))
          × (new (alloc_on h) cfg.limits.min_ram ≡ ok (guest_ram b)))
        ⊎ ((e : Error) × (h' : Host) × (new_buffer host linux cfg.limits.min_ram h ≡ (err e, h'))
            × (new (alloc_on h) cfg.limits.min_ram ≡ err e))
  unfolding new new_buffer
  new-new_buffer h =
      let size = cfg.limits.min_ram * (1024 * 1024) in
      elim (Bool-cases (ltb size u64_mod)) [
        | inr large ↦ inr (size_overflow, h, ground arith, ground arith)
        | inl small ↦ elim (alloc-linux size h) [
          | inl (p, h', made, seen) ↦
              inl (record { base = p; size = size }, h', ground arith, ground arith)
          | inr (h', failed, seen) ↦ inr (alloc_failed, h', ground arith, ground arith)
        ]
      ]

  forget-with_memory :
      (h : Host) (p : Process)
      → forget (with_memory (new_buffer host linux cfg.limits.min_ram h) p)
        ≡ (lift (new (alloc_on h) cfg.limits.min_ram) >>= λ ram. run_memory sys cfg ram) p
  unfolding with_memory
  forget-with_memory h p = elim (new-new_buffer h) [
    | inl (b, h', made, seen) ↦
        rw (made, seen) (forget-leave b h' (run_memory sys cfg (guest_ram b) p))
    | inr (e, h', failed, seen) ↦ rw (failed, seen) refl
  ]

  opened-run_vm :
      (o : Outcome Backend) (h : Host) (p : Process)
      → forget (
          (lift o >>= λ _ s. with_memory (new_buffer host linux cfg.limits.min_ram s.0) s.1) (h, p))
        ≡ (lift o >>= λ _.
              lift (new (alloc_on h) cfg.limits.min_ram) >>= λ ram. run_memory sys cfg ram)
            p
  opened-run_vm (ok b) h p = forget-with_memory h p
  opened-run_vm (err e) h p = refl
  opened-run_vm panic h p = refl

  -- If the calls of the host do what their manuals say, and the allocation of `run_vm` is that of the host, then
  -- `run_vm` with the release of its memory ends as `run_vm` does and leaves the same process; as long as the guest runs,
  -- just one more mapping is there than before, of the size of the memory, and once the code has returned, in success, error or
  -- panic, the mappings are those that there were before.
  pub run_vm_on-Frees :
      (h : Host) (p : Process)
      → IsDocumented host
      → sys.alloc ≡ alloc_on h
      → (forget (run_vm_on (h, p)) ≡ run_vm sys cfg p) × Frees h (run_vm_on (h, p))
  unfolding run_vm_on run_vm
  run_vm_on-Frees h p laws same = (
    opened-run_vm (open_image (sys.rootfs cfg.rootfs_path)) h p
        ∙ ap
            (λ a.
              (lift (open_image (sys.rootfs cfg.rootfs_path)) >>= λ _.
              lift (new a cfg.limits.min_ram) >>= λ ram. run_memory sys cfg ram)
                p)
            (sym same),
    opened-Frees laws (open_image (sys.rootfs cfg.rootfs_path)) h p,
  )
