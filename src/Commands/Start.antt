-- ===== src/Commands/Start.antt =====
-- What `hyperpod start` runs, hyperpod/src/commands/start.rs.
use hyper_pod.Base.{ℕ, ◌≡◌, ◌≢◌, ◌⊎◌, inl, inr, refl, List, Outcome, ok, err, panic, Error, arith}
use hyper_pod.Vm.Ending.{Ending, returned, Run, lift, ◌>>=◌}
use hyper_pod.Config.{HyperPodFile, load}
use hyper_pod.Config.Admission.{IsAdmissible, load_iff}
use hyper_pod.Storage.{Format, detect_format}
use hyper_pod.Commands.{start, Files, run_start, main}

-- What starts from `s` is the machine, for a file that the path leads to and that is admissible, or is
-- over without success and with the state as it was.
abbrev pub IsGuarded :
    {S : Type 0}
    → Files
    → (HyperPodFile → Run S (Unit {0}))
    → List ℕ
    → S
    → Ending (Unit {0}) × S
    → Type 0
IsGuarded files run_vm path s o =
    ((cfg : HyperPodFile) × (load files.metadata files.read_to_string files.from_str path ≡ ok cfg)
      × IsAdmissible files.metadata cfg
      × (o ≡ run_vm cfg s))
    ⊎ ((r : Outcome (Unit {0})) × (r ≢ ok tt) × (o ≡ (returned r, s)))

module _ {S : Type 0} (files : Files) (run_vm : HyperPodFile → Run S (Unit {0})) (path : List ℕ)
    (s : S) where
  not_ok_err : (e : Error) → ◌≢◌ {A = Outcome (Unit {0})} (err e) (ok tt)
  not_ok_err e h = ground (arith, h)

  detected-IsGuarded :
      (cfg : HyperPodFile) (fmt : Outcome Format)
      → load files.metadata files.read_to_string files.from_str path ≡ ok cfg
      → IsGuarded files run_vm path s ((lift fmt >>= λ f. run_vm cfg) s)
  detected-IsGuarded cfg (ok f) loaded = inl (
    cfg,
    loaded,
    ((load_iff files.metadata files.read_to_string files.from_str path cfg).0 loaded).3,
    refl,
  )
  detected-IsGuarded cfg (err e) loaded = inr (err e, not_ok_err e, refl)
  detected-IsGuarded cfg panic loaded = inr (panic, (λ h. ground (arith, h)), refl)

  loaded-IsGuarded :
      (loaded : Outcome HyperPodFile)
      → load files.metadata files.read_to_string files.from_str path ≡ loaded
      → IsGuarded files run_vm path s (
          (lift loaded >>= λ cfg.
          lift (detect_format (files.image cfg.rootfs_path)) >>= λ f. run_vm cfg)
            s)
  loaded-IsGuarded (ok cfg) h =
      detected-IsGuarded cfg (detect_format (files.image cfg.rootfs_path)) h
  loaded-IsGuarded (err e) h = inr (err e, not_ok_err e, refl)
  loaded-IsGuarded panic h = inr (panic, (λ h. ground (arith, h)), refl)

  -- Whatever the machine of the operating system does, `start` either does just that, for the
  -- configuration that its path leads to, which is admissible, or ends without success and with
  -- everything as it was.
  pub main-IsGuarded : IsGuarded files run_vm path s (main files run_vm (start path) s)
  unfolding main run_start
  main-IsGuarded =
      loaded-IsGuarded (load files.metadata files.read_to_string files.from_str path) refl
