-- ===== src/Memory/Release.antt =====
-- The steps of `Memory::deallocate` on the layout: joining with the neighbours, and giving back.
use solix.Prelude.{
  ℕ, ◌+◌, ◌-◌, ◌/◌, ◌^◌, ◌≤◌, ◌<◌, ◌≡◌, refl, ◌∙◌, ap, subst, ◌⊎◌, inl, inr, ◌∷◌, arith, ltb, ◌==◌,
  if◌then◌else◌, Bool-cases, Option-cases,
}
use solix.Outcome.{ok}
use solix.Word.{u32, u64}
use solix.Memory.Heap.{store, store_outside}
use solix.Memory.FreeLists.{Pairs, find, before, put, add, erase_key, erase_entry, keys}
use solix.Memory.State.{Memory, write_u32, sync_free_blocks}
use solix.Memory.Deallocate.{unlink, merge_next, merge_prev, place_free, release}
use solix.Memory.Blocks.{cover, entries_of_find, entries_of_before}
use solix.Memory.Tiling.{
  Tiled, free_block, first_block, Tiled-unlink, Tiled-link, Tiled-lower, Tiled-join, Tiled-of_cover,
}
use solix.Memory.Stored.{Keeps}
use solix.Memory.FreeSpace.{Layout, write-ok}

-- A step that moves free blocks leaves the bytes and the size alone.
pub record Merged (live : Pairs) (m : Memory) (header payload : ℕ) (m' : Memory) : Type 0 where
  pub layout : Layout ((header, payload) ∷ live) m'
  pub heap_kept : m'.heap ≡ m.heap
  pub size_kept : m'.heap_size ≡ m.heap_size

module _ (live : Pairs) (header payload : ℕ) (m : Memory)
    (t : Layout ((header, payload) ∷ live) m) where
  merge_next-Merged :
      let (payload', m') = merge_next header payload m in Merged live m header payload' m'
  unfolding merge_next unlink
  merge_next-Merged =
      let (lo, hi) = first_block t in
      let u : u32 (header + 8 + payload) ≡ header + 8 + payload = omega (arith, t.below, t.small) in
      elim (Option-cases (find (header + 8 + payload) m.free_by_addr)) [
        | inl e ↦ rw (u, e, merge_next) (record { layout = t; heap_kept = refl; size_kept = refl })
        | inr (q, e) ↦
            let i = entries_of_find (header + 8 + payload) q m.free_by_addr e in
            let b = free_block t (header + 8 + payload) q i in
            let v : u32 (payload + (8 + q)) ≡ payload + 8 + q = omega (arith, t.below, t.small) in
            rw (u, e, merge_next, v)
              (rw u (record {
                layout = Tiled-join (Tiled-unlink t (header + 8 + payload) q i);
                heap_kept = refl;
                size_kept = refl;
              }))
      ]

  merge_prev-Merged :
      let (header', payload', m') = merge_prev header payload m in Merged live m header' payload' m'
  unfolding merge_prev unlink cover
  merge_prev-Merged = elim (Option-cases (before header m.free_by_addr)) [
    | inl e ↦ rw (e, merge_prev) (record { layout = t; heap_kept = refl; size_kept = refl })
    | inr ((a, q), e) ↦
        let (lt, i) = entries_of_before header a q m.free_by_addr e in
        let b = free_block t a q i in
        let f = first_block t in
        let v : u32 (a + 8 + q) ≡ a + 8 + q = omega (arith, t.below, t.small) in
        elim (Bool-cases (a + 8 + q == header)) [
          | inr no_touch ↦
              rw (e, merge_prev, v, no_touch)
                (record { layout = t; heap_kept = refl; size_kept = refl })
          | inl touch ↦
              let w : u32 (payload + (8 + q)) ≡ q + 8 + payload = omega (arith, t.below, t.small) in
              let e' : header ≡ a + 8 + q = ground arith in
              rw (e, merge_prev, v, touch, w)
                (record {
                  layout = Tiled-join (
                      subst
                        (λ h.
                          Tiled ((h, payload) ∷ (a, q) ∷ live) m.heap_size m.next_free_dynamic
                            (erase_key a m.free_by_addr) (erase_entry q a m.free_by_size))
                        e' (Tiled-of_cover (Tiled-unlink t a q i) (λ x. omega arith)));
                  heap_kept = refl;
                  size_kept = refl;
                })
        ]
  ]

  -- Bytes of live blocks lie outside the block.
  pub outside : (x : ℕ) → 0 < cover x live → (x < header) ⊎ (header + 8 ≤ x)
  unfolding cover
  outside x i = let d = t.tile x in ground arith

  outside_header : (x : ℕ) → 0 < cover x live → (x < header + 0) ⊎ (header + 0 + 4 ≤ x)
  outside_header x i = let o = outside x i in ground arith

  place_free_lem :
      (m' : Memory) × (place_free header payload m ≡ ok m')
      × Layout live m'
      × Keeps live m.heap m'.heap
      × (m'.heap_size ≡ m.heap_size)
  unfolding place_free write_u32
  place_free_lem =
      let (lo, hi) = first_block t in
      let u : u32 (header + 8 + payload) ≡ header + 8 + payload = omega (arith, t.below, t.small) in
      elim (Bool-cases (header + 8 + payload == m.next_free_dynamic)) [
        | inl e ↦ (
          record m { next_free_dynamic = header },
          rw (u, e),
          Tiled-lower t (ground arith),
          (λ x i. refl),
          refl,
        )
        | inr e ↦ (
          record m {
            heap = store 4 (header + 0) payload m.heap;
            free_by_addr = put header payload m.free_by_addr;
            free_by_size = add payload header m.free_by_size;
          },
          rw (u, e, write-ok 4 header 0 payload m (omega (arith, t.below)) t.small),
          Tiled-link t,
          (λ x i. store_outside 4 (header + 0) payload m.heap x (outside_header x i)),
          refl,
        )
      ]

module _ (live : Pairs) (header payload : ℕ) (m : Memory)
    (t : Layout ((header, payload) ∷ live) m) where
  -- The block goes back to the free space, the other live blocks keep their bytes.
  pub release_lem :
      (m' : Memory) × (release header payload m ≡ ok m')
      × Layout live m'
      × Keeps live m.heap m'.heap
  unfolding release write_u32 sync_free_blocks
  release_lem =
      let (lo, hi) = first_block t in
      let m1 : Memory = record m {
        currently_used_words = u64 (m.currently_used_words + 2 ^ 64 - (payload + 8) / 8);
        live_objects_count =
            if ltb 0 m.live_objects_count then m.live_objects_count - 1 else m.live_objects_count;
      } in
      let u : u32 payload ≡ payload = omega (arith, t.below, t.small) in
      let m2 : Memory = record m1 { heap = store 4 (header + 4) 0 m.heap } in
      let w = write-ok 4 header 4 0 m1 (omega (arith, t.below)) t.small in
      let a = merge_next-Merged live header payload m2 t in
      let (p1, m3) = merge_next header payload m2 in
      let b = merge_prev-Merged live header p1 m3 a.layout in
      let (h2, p2, m4) = merge_prev header p1 m3 in
      let (m5, e, l, k, s) = place_free_lem live h2 p2 m4 b.layout in
      (
        record m5 { free_blocks = keys m5.free_by_addr },
        rw (w, u, e),
        l,
        λ x i.
            k x i
            ∙ ap (λ h. h x) (b.heap_kept ∙ a.heap_kept)
            ∙ store_outside 4 (header + 4) 0 m.heap x
                (let o = outside live header payload m t x i in ground arith),
      )
