-- ===== src/Vm/Progress.antt =====
-- When what `run_vm` of hyperpod/src/vmm/linux/vm.rs and hyperpod/src/vmm/windows/vm.rs does to memory comes
-- to its end.
use hyper_pod.Base.{
  ℕ, ◌+◌, ◌*◌, ◌%◌, ◌^◌, ◌<◌, ◌≡◌, ◌≢◌, sym, subst, ap, ◌∙◌, Option, some, List, [], All, arith,
  length, ok, u64_mod,
}
use hyper_pod.Base.Action.{◌>>=◌, >>=-ok}
use hyper_pod.Base.Utf8.{utf8, utf8-pos}
use hyper_pod.Ram.{GuestRam, new}
use hyper_pod.Ram.Access.{new-IsValid}
use hyper_pod.Boot.{himem_start, cmdline_start}
use hyper_pod.Boot.Artefacts.{write_artefacts, write_artefacts-Puts}
use hyper_pod.Elf.{Header, read_header, load}
use hyper_pod.Elf.Loop.{segments}
use hyper_pod.Elf.Success.{AreLoadable, load-returns}
use hyper_pod.Vm.{prepare}
use hyper_pod.Vm.Ready.{new-zero}

-- In a machine with at least a MiB of memory and less than 2^63 bytes, fresh from the operating system,
-- the writers and the loader return with the entry point of the file, for every command line without
-- zero characters that ends below the first MiB, and every file of less than 2^63 bytes with an accepted
-- header whose program headers and segments lie within it, of which there is one at least, and whose
-- segments have their room in the memory.
pub prepare-returns :
    (alloc : ℕ → Option (ℕ → ℕ))
    → ((size : ℕ) (cell : ℕ → ℕ) → alloc size ≡ some cell → (a : ℕ) → cell a ≡ 0)
    → (cmdline : List ℕ) (min_ram : ℕ) (bytes : List ℕ) (hdr : Header) (ram : GuestRam)
    → new alloc min_ram ≡ ok ram
    → 0 < min_ram
    → ram.size < 2 ^ 63
    → All (λ c. 0 < c) cmdline
    → cmdline_start + length (utf8 cmdline) < himem_start
    → length bytes < 2 ^ 63
    → read_header bytes ≡ ok hdr
    → AreLoadable bytes hdr ram.size hdr.phnum 0
    → segments bytes hdr hdr.phnum 0 ≢ []
    → (prepare cmdline min_ram (some bytes) ram).0 ≡ ok (record { entry = hdr.entry })
unfolding prepare
prepare-returns alloc zeroed cmdline min_ram bytes hdr ram made some_ram small text short file_small
      header fits some_load =
    let (v, size) = new-IsValid alloc min_ram ram made in
    let p =
      write_artefacts-Puts (utf8 cmdline) ram.size ram v (omega (arith, size))
        (λ a _ _. new-zero alloc zeroed min_ram ram made a) short (utf8-pos cmdline text) v in
    let total : min_ram * 1024 * 1024 % u64_mod ≡ ram.size = omega (arith, size) in
    let written =
      >>=-ok (write_artefacts (utf8 cmdline) ram.size) (λ _. load (some bytes)) ram p.returns in
    subst
      (λ n.
        ((write_artefacts (utf8 cmdline) n >>= λ _. load (some bytes)) ram).0
        ≡ ok (record { entry = hdr.entry }))
      (sym total)
      (ap (λ r. r.0) written
        ∙ load-returns bytes hdr (record ram { cell = p.after }) small file_small header fits
            some_load)
