-- ===== src/Mmio/Publish/Taken.antt =====
-- What `DescriptorChain::pop` takes of what a driver has published
-- (hyperpod/src/vmm/common/device/mmio.rs).
use hyper_pod.Base.{
  ℕ, suc, ◌+◌, ◌*◌, ◌%◌, ◌≤◌, ◌<◌, ◌≡◌, refl, ap, sym, subst, ◌∙◌, none, some, List, [], ◌∷◌, ◌++◌,
  map, All, length, arith, add64, u16_mod, ok,
}
use hyper_pod.Ram.{GuestRam, read_obj}
use hyper_pod.Ram.Memory.{word_at}
use hyper_pod.Ram.Patch.{Patch, patched, Below, Within, patched-append, word_at-patched}
use hyper_pod.Mmio.Queue.{VirtQueue, Descriptor, avail_ring_hdr}
use hyper_pod.Mmio.Pop.{advance, pop}
use hyper_pod.Mmio.Chain.{IsPending, pop_iff}
use hyper_pod.Mmio.Publish.{Slots, ring_slot, publish, table_patches, ring_patches, publish-Writes}
use hyper_pod.Mmio.Publish.Table.{
  FieldsFit, Holds, AreApart, table-Holds, table-Within, All-Holds-patched,
}
use hyper_pod.Mmio.Publish.Request.{
  AreLinked, IsSetUp, add64-eq, read_obj_in_range, AreLinked-Links, slot-lt, read_head-ring,
}

Within-Below : (lo hi limit : ℕ) (ps : List Patch) → hi ≤ limit → Within lo hi ps → Below limit ps
Within-Below lo hi limit [] h w = tt
Within-Below lo hi limit (p ∷ ps) h (from, to, w) = (omega arith, Within-Below lo hi limit ps h w)

Below-both :
    (limit : ℕ) (ps qs : List Patch) → Below limit ps → Below limit qs → Below limit (ps ++ qs)
Below-both limit [] qs h k = k
Below-both limit (p ∷ ps) qs (to, h) k = (to, Below-both limit ps qs h k)

-- What a request has to be: linked, at different indices of the table, with values that fit.
pub record IsRequest (queue : VirtQueue) (head : ℕ) (request : Slots) : Type 0 where
  pub linked : AreLinked request
  pub apart : AreApart request
  pub below : All (λ x. x.0 < queue.size) request
  pub fits : All (λ x. FieldsFit x.1) request
  pub short : length request ≤ queue.size
  pub head_fits : head < u16_mod

length-map_descriptors : (slots : Slots) → length (map (λ x. x.1) slots) ≡ length slots
length-map_descriptors [] = refl
length-map_descriptors (x ∷ slots) = ap suc (length-map_descriptors slots)

module _ (ram : GuestRam) (queue : VirtQueue) (h : IsSetUp ram queue) (head : ℕ) (d : Descriptor)
    (slots : Slots) where
  abbrev request : Slots
  request = (head, d) ∷ slots

  abbrev all_patches : List Patch
  all_patches = table_patches queue request ++ ring_patches queue head

  abbrev published : GuestRam
  published = record ram { cell = patched ram.cell all_patches }

  published-IsSetUp : IsSetUp published queue
  published-IsSetUp = record {
    valid = h.valid;
    is_ready = h.is_ready;
    has_size = h.has_size;
    table_fits = h.table_fits;
    ring_fits = h.ring_fits;
    apart = h.apart;
    idx_fits = h.idx_fits;
  }

  ring-Within :
      Within queue.avail_addr
        (queue.avail_addr + avail_ring_hdr + queue.size * 2)
        (ring_patches queue head)
  ring-Within = let slot = slot-lt ram queue h in let size = h.has_size in omega arith

  publish-returns :
      All (λ x. x.0 < queue.size) request → publish queue head request ram ≡ (ok tt, published)
  publish-returns below =
      let table =
        Within-Below _ _ ram.size (table_patches queue request) h.table_fits
          (table-Within queue request below) in
      let ring = Within-Below _ _ ram.size (ring_patches queue head) h.ring_fits ring-Within in
      (publish-Writes queue head request).at ram h.valid
        (Below-both ram.size (table_patches queue request) (ring_patches queue head) table ring)

  published-Holds :
      AreApart request
      → All (λ x. FieldsFit x.1) request
      → All (λ x. x.0 < queue.size) request
      → All (λ x. Holds published.cell queue x.0 x.1) request
  published-Holds apart fits below =
      subst (λ c. All (λ x. Holds c queue x.0 x.1) request)
        (sym (patched-append ram.cell (table_patches queue request) (ring_patches queue head)))
        (All-Holds-patched _ _ (patched ram.cell (table_patches queue request))
          (ring_patches queue head) queue request ring-Within h.apart below
          (table-Holds ram.cell queue request apart fits))

  published-head :
      head < u16_mod
      → word_at 2 published.cell (queue.avail_addr + avail_ring_hdr + ring_slot queue * 2) ≡ head
  published-head fits =
      ap (λ c. word_at 2 c (queue.avail_addr + avail_ring_hdr + ring_slot queue * 2))
        (patched-append ram.cell (table_patches queue request) (ring_patches queue head))
      ∙ word_at-patched (ring_patches queue head) 0 (patched ram.cell (table_patches queue request))
          _ refl (ground arith) (omega arith)

  published-idx :
      word_at 2 published.cell (queue.avail_addr + 2) ≡ (queue.last_avail_idx + 1) % u16_mod
  published-idx =
      ap (λ c. word_at 2 c (queue.avail_addr + 2))
        (patched-append ram.cell (table_patches queue request) (ring_patches queue head))
      ∙ word_at-patched (ring_patches queue head) 1 (patched ram.cell (table_patches queue request))
          _ refl refl (omega arith)

  read_idx :
      read_obj published 2 (add64 queue.avail_addr 2) ≡ ok ((queue.last_avail_idx + 1) % u16_mod)
  read_idx =
      let small = h.valid in
      let room = h.ring_fits in
      rw (add64-eq queue.avail_addr 2 ram.size (omega arith) (omega arith)) (
        read_obj_in_range published 2 (queue.avail_addr + 2) h.valid (omega arith)
        ∙ ap ok published-idx)

  -- Nothing is pending once the index has been read up to.
  pop-advance : pop published (advance queue) ≡ (ok none, advance queue)
  unfolding pop advance
  pop-advance = ground (arith, read_idx)

  published-IsPending : IsPending published queue
  published-IsPending = record {
    is_ready = h.is_ready;
    has_size = h.has_size;
    avail_idx = (queue.last_avail_idx + 1) % u16_mod;
    published = read_idx;
    moved = let fits = h.idx_fits in (λ e. absurd (omega arith));
  }

  -- Let a queue be set up, in a memory where its table and its ring have room apart from each other, and a
  -- request be of linked descriptors at different indices of the table, at most as many as the queue
  -- has, with values that fit their fields. When a driver has published the request, which succeeds, the next `pop`
  -- hands out just its descriptors, in their order, with the index of the first as the head, and after
  -- it `pop` finds nothing more.
  pub pop-publish :
      IsRequest queue head ((head, d) ∷ slots)
      → (ram' : GuestRam) × (publish queue head ((head, d) ∷ slots) ram ≡ (ok tt, ram'))
        × (pop ram' queue ≡ (
          ok (some (record { head_index = head; descriptors = d ∷ map (λ x. x.1) slots })),
          advance queue,
        ))
        × (pop ram' (advance queue) ≡ (ok none, advance queue))
  pop-publish r =
      let links =
        AreLinked-Links published queue published-IsSetUp head d slots r.linked r.below
          (published-Holds r.apart r.fits r.below) in
      let short : length (d ∷ map (λ x. x.1) slots) ≤ queue.size =
        omega (arith, length-map_descriptors slots, r.short) in
      (
        published,
        publish-returns r.below,
        (pop_iff published queue (advance queue)
              (record { head_index = head; descriptors = d ∷ map (λ x. x.1) slots })).1
            (
              published-IsPending,
              read_head-ring published queue published-IsSetUp head (published-head r.head_fits),
              links,
              short,
              refl,
            ),
        pop-advance,
      )
