-- ===== src/Ram/Buffer/Balance.antt =====
-- The host's mappings as memories come and go (hyperpod/src/vmm/common/ram.rs).
use hyper_pod.Base.{
  ℕ, zero, suc, ◌*◌, ◌≡◌, ◌≢◌, ◌∙◌, ◌⊎◌, inl, inr, ap, sym, refl, Bool-cases, some, Option-cases,
  List, [], ◌∷◌, ◌++◌, map, subst, All, get_elem?, ok, err, arith, ne→==_false, ==_iff, ltb,
  u64_mod, Error, alloc_failed, unsupported_os, size_overflow,
}
use native.Mathlib.Decide.{ℕ_discrete}
use hyper_pod.Ram.Buffer.{
  Os, windows, linux, other_os, HostMemory, null, map_failed, Buffer, alloc, free, new_buffer,
  drop_buffer, Use, make, let_go, Owned, erase, owns, lets_go, run_use, run_uses,
}
use hyper_pod.Ram.Buffer.Mappings.{
  remove, size_at, Comes, IsDocumented, region, AreApart, AreApart-erase, remove-erase,
  size_at-live,
}

base_is_not_null :
    (bs : List Buffer) (i : ℕ) (b : Buffer) → AreApart bs → get_elem? bs i ≡ some b → b.base ≢ null
base_is_not_null [] i b h e = cc
base_is_not_null (x ∷ bs) zero b (ne, _, _) e = ground arith
base_is_not_null (x ∷ bs) (suc i) b (_, _, h) e = base_is_not_null bs i b h e

not_elsewhere : (bs : List Buffer) (i : ℕ) (b : Buffer) → bs ≡ [] → get_elem? bs i ≡ some b → ⊥
not_elsewhere [] i b h e = cc
not_elsewhere (x ∷ bs) i b h e = cc

region-apart :
    (bs : List Buffer) (old : List (ℕ × ℕ)) (p : ℕ)
    → All (λ m. m.0 ≢ p) (map region bs ++ old)
    → All (λ c. c.base ≢ p) bs
region-apart [] old p h = tt
region-apart (b ∷ bs) old p (ne, h) = (ne, region-apart bs old p h)

module _ (host : HostMemory) (laws : IsDocumented host) where
  open host use {Host, mappings, virtual_alloc, virtual_free, mmap, munmap}
  open laws use {
    virtual_alloc_fails, virtual_alloc_maps, virtual_free_unmaps, mmap_fails, mmap_maps,
    mmap_not_null, munmap_unmaps,
  }

  -- The allocation maps memory at an address that is not null, or fails and changes no mapping.
  alloc-cases :
      (os : Os) (size : ℕ) (h : Host)
      → ((p : ℕ) × (h' : Host) × (alloc host os size h ≡ (ok p, h'))
          × (os ≢ other_os)
          × (p ≢ null)
          × Comes p size (mappings h) (mappings h'))
        ⊎ ((e : Error) × (h' : Host) × (alloc host os size h ≡ (err e, h'))
            × (mappings h' ≡ mappings h))
  unfolding alloc
  alloc-cases windows size h = elim (ℕ_discrete (virtual_alloc size h).0 null) [
    | yes e ↦ inr (
      alloc_failed,
      (virtual_alloc size h).1,
      rw ((==_iff _ _).1 e) refl,
      virtual_alloc_fails size h e,
    )
    | no ne ↦ inl (_, _, rw (ne→==_false _ _ ne) refl, (λ e. cc), ne, virtual_alloc_maps size h ne)
  ]
  alloc-cases linux size h = elim (ℕ_discrete (mmap size h).0 map_failed) [
    | yes e ↦ inr (alloc_failed, (mmap size h).1, rw ((==_iff _ _).1 e) refl, mmap_fails size h e)
    | no ne ↦
        inl
          (_, _, rw (ne→==_false _ _ ne) refl, (λ e. cc), mmap_not_null size h, mmap_maps size h ne)
  ]
  alloc-cases other_os size h = inr (unsupported_os, h, refl, refl)

  pub new_buffer-cases :
      (os : Os) (mib : ℕ) (h : Host)
      → ((b : Buffer) × (h' : Host) × (new_buffer host os mib h ≡ (ok b, h'))
          × (os ≢ other_os)
          × (b.base ≢ null)
          × (b.size ≡ mib * (1024 * 1024))
          × Comes b.base b.size (mappings h) (mappings h'))
        ⊎ ((e : Error) × (h' : Host) × (new_buffer host os mib h ≡ (err e, h'))
            × (mappings h' ≡ mappings h))
  unfolding new_buffer
  new_buffer-cases os mib h = elim (alloc-cases os (mib * (1024 * 1024)) h) [
    | inl (p, h', e, there, ne, comes) ↦ elim (Bool-cases (ltb (mib * (1024 * 1024)) u64_mod)) [
      | inl small ↦ inl (
        record { base = p; size = mib * (1024 * 1024) },
        h',
        ground arith,
        there,
        ne,
        refl,
        comes,
      )
      | inr large ↦ inr (size_overflow, h, ground arith, refl)
    ]
    | inr (x, h', e, same) ↦ elim (Bool-cases (ltb (mib * (1024 * 1024)) u64_mod)) [
      | inl small ↦ inr (x, h', ground arith, same)
      | inr large ↦ inr (size_overflow, h, ground arith, refl)
    ]
  ]

  -- The process maps the memories that have an owner, and what it mapped before.
  pub record IsBalanced (os : Os) (old : List (ℕ × ℕ)) (w : Owned host) : Type 0 where
    pub apart : AreApart w.live
    pub none_elsewhere : os ≡ other_os → w.live ≡ []
    pub same : mappings w.host_state ≡ map region w.live ++ old

  pub drop_buffer-unmaps :
      (os : Os) (old : List (ℕ × ℕ)) (bs : List Buffer) (i : ℕ) (b : Buffer) (h : Host)
      → AreApart bs
      → get_elem? bs i ≡ some b
      → mappings h ≡ map region bs ++ old
      → os ≢ other_os
      → mappings (drop_buffer host os b h) ≡ map region (erase i bs) ++ old
  unfolding drop_buffer free
  drop_buffer-unmaps windows old bs i b h apart e same there =
      rw (ne→==_false b.base null (base_is_not_null bs i b apart e))
        (virtual_free_unmaps b.base h ∙ ap (remove b.base) same ∙ remove-erase old bs i b apart e)
  drop_buffer-unmaps linux old bs i b h apart e same there =
      let found = ap (size_at b.base) same ∙ size_at-live old bs i b apart e in
      rw (ne→==_false b.base null (base_is_not_null bs i b apart e)) (
        munmap_unmaps b.base b.size h found
        ∙ ap (remove b.base) same
        ∙ remove-erase old bs i b apart e)
  drop_buffer-unmaps other_os old bs i b h apart e same there = absurd (there refl)

  run_use-IsBalanced :
      (os : Os) (old : List (ℕ × ℕ)) (u : Use) (w : Owned host)
      → IsBalanced os old w
      → IsBalanced os old (run_use host os u w)
  unfolding run_use owns lets_go
  run_use-IsBalanced os old (make mib) w v = elim (new_buffer-cases os mib w.host_state) [
    | inl (b, h', e, there, ne, size, comes) ↦
        subst (λ r. IsBalanced os old (owns r w)) (sym e)
          (record {
            apart = (
              ne,
              region-apart w.live old b.base (subst (All (λ m. m.0 ≢ b.base)) v.same comes.1),
              v.apart,
            );
            none_elsewhere = λ elsewhere. absurd (there elsewhere);
            same = comes.0 ∙ ap (λ ms. region b ∷ ms) v.same;
          })
    | inr (x, h', e, same) ↦
        subst (λ r. IsBalanced os old (owns r w)) (sym e)
          (record { apart = v.apart; none_elsewhere = v.none_elsewhere; same = same ∙ v.same })
  ]
  run_use-IsBalanced os old (let_go i) w v = elim (Option-cases (get_elem? w.live i)) [
    | inl e ↦ subst (λ r. IsBalanced os old (lets_go host os i r w)) (sym e) v
    | inr (b, e) ↦
        subst (λ r. IsBalanced os old (lets_go host os i r w)) (sym e)
          (record {
            apart = AreApart-erase w.live i v.apart;
            none_elsewhere =
                λ elsewhere. absurd (not_elsewhere w.live i b (v.none_elsewhere elsewhere) e);
            same =
                drop_buffer-unmaps os old w.live i b w.host_state v.apart e v.same
                  (λ elsewhere. not_elsewhere w.live i b (v.none_elsewhere elsewhere) e);
          })
  ]

  run_uses-IsBalanced :
      (os : Os) (old : List (ℕ × ℕ)) (us : List Use) (w : Owned host)
      → IsBalanced os old w
      → IsBalanced os old (run_uses host os us w)
  unfolding run_uses
  run_uses-IsBalanced os old [] w v = v
  run_uses-IsBalanced os old (u ∷ us) w v =
      run_uses-IsBalanced os old us (run_use host os u w) (run_use-IsBalanced os old u w v)

  -- On each operating system, if its calls do what their manuals say, then, in whatever order a program makes memories and lets them go, the process maps
  -- just the memories that have an owner, each at its address and with its size, besides what it mapped before.
  pub run_uses-mappings :
      (os : Os) (us : List Use) (h : Host)
      → (let w = run_uses host os us (record { live = []; host_state = h }) in
          mappings w.host_state ≡ map region w.live ++ mappings h)
  run_uses-mappings os us h =
      (run_uses-IsBalanced os (mappings h) us (record { live = []; host_state = h })
        (record { apart = tt; none_elsewhere = λ e. refl; same = refl })).same
