-- ===== src/Memory/AllocateSafe.antt =====
-- `Memory::dynamic_allocation` as a whole, on the layout of the dynamic heap.
use solix.Prelude.{
  ℕ, ◌+◌, ◌-◌, ◌*◌, ◌^◌, ◌<◌, ◌≡◌, refl, sym, ap, subst, ◌⊎◌, inl, inr, ◌∷◌, ◌≢◌, arith,
}
use native.Mathlib.Decide.{dec_lt}
use solix.Outcome.{ok, throw, dynamic_heap_overflow}
use solix.Memory.BlockTag
use solix.Memory.FreeLists.{Pairs}
use solix.Memory.State.{Memory, tag_of}
use solix.Memory.Allocate.{
  take_fresh, start_dynamic, aligned_payload, payload_bytes, dynamic_allocation,
}
use solix.Memory.Blocks.{one, entries}
use solix.Memory.Tiling.{Tiled}
use solix.Memory.Stored.{Stored, Tiles, IsTiled, Stored-Keeps}
use solix.Memory.FreeSpace.{take_free_lem}
use solix.Memory.Allocation.{
  started, Allocated, write_block-Allocated, fresh_lem, freed_bytes-eq, payload-le-aligned,
}

abbrev pub block_bytes : ℕ → ℕ → ℕ
block_bytes tag count = aligned_payload (payload_bytes tag count)

take_fresh-found : (n : ℕ) (r : ℕ × Memory) → r.0 ≢ 0 → take_fresh r.0 n r.1 ≡ ok r
unfolding take_fresh
take_fresh-found n r h = ground arith

one_pos : (a p b q : ℕ) → 0 < one a p b q → (a ≡ b) × (p ≡ q)
one_pos a p b q h = ground arith

module _ (live : Pairs) (count tag : ℕ) (m : Memory) (t : Tiles live m) (c : count < 2 ^ 32)
    (g : tag < 16) (fits : m.heap_size + block_bytes tag count + 16 < 2 ^ 32) where
  -- In a heap whose dynamic part is tiled by live and free blocks, of any tags, an allocation with
  -- a count of 32 bits and a tag of 4, where the size of the heap, that of the new payload and 16
  -- add up to less than 2^32, throws the overflow error or succeeds, and accesses no byte outside
  -- the heap. On success the heap is tiled again with the new block beside the live ones, their
  -- bytes are kept, the payload is zero and the header holds count, tag and one reference.
  pub dynamic_allocation-Allocated :
      (dynamic_allocation count tag m ≡ throw dynamic_heap_overflow)
      ⊎ ((r : ℕ × Memory) × (dynamic_allocation count tag m ≡ ok r)
          × Allocated live count tag (block_bytes tag count) m r)
  unfolding dynamic_allocation start_dynamic
  dynamic_allocation-Allocated =
      let aligned : ℕ = block_bytes tag count in
      let m0 = start_dynamic m in
      elim (take_free_lem live aligned m0 t (omega (arith, fits))) [
        | inl e ↦ elim (fresh_lem live count tag m c g aligned m0 t (omega (arith, fits)) refl) [
          | inl e' ↦ inl (rw (e, e'))
          | inr (m2, e', l, k) ↦
              let (r, e2, a) =
                write_block-Allocated live count tag m c g aligned m0.next_free_dynamic m2 l
                  (λ x i. ap (λ h. h x) k) in
              inr (r, rw (e, e', e2), a)
        ]
        | inr (r, e, f) ↦
            let (r2, e2, a) =
              write_block-Allocated live count tag m c g aligned r.0 r.1 f.layout f.keeps in
            inr (r2, rw (e, take_fresh-found (aligned + 8) r f.not_null, e2), a)
      ]

module _ (live : Pairs) (count tag : ℕ) (m : Memory) (t : IsTiled live m) (c : count < 2 ^ 32)
    (g : tag < 16) (fits : m.heap_size + block_bytes tag count + 16 < 2 ^ 32) where
  stored_lem :
      (r : ℕ × Memory)
      → tag ≢ BlockTag.tuple
      → Allocated live count tag (block_bytes tag count) m r
      → Stored ((r.0 - 8, block_bytes tag count) ∷ live) r.1.heap
  unfolding entries
  stored_lem r n a b p i = elim (dec_lt 0 (entries b p live)) [
    | yes old ↦ Stored-Keeps live m.heap r.1.heap t.stored a.keeps b p old
    | no new ↦
        let (e, e') = one_pos b p (r.0 - 8) (block_bytes tag count) (omega arith) in
        let k : r.0 - 8 + 4 ≡ r.0 - 4 = omega (arith, a.past_header) in
        let g : tag_of (tag * 2 ^ 28 + 1) ≡ tag = omega arith in
        let f =
          freed_bytes-eq tag count n
            (omega (arith, payload-le-aligned (payload_bytes tag count), fits)) in
        rw (e, e', k, a.tag_stored, a.length_stored, g, f)
  ]

  -- The new block, unless it is a tuple, is released with the size that it was allocated with.
  Allocated-IsTiled :
      (r : ℕ × Memory)
      → tag ≢ BlockTag.tuple
      → Allocated live count tag (block_bytes tag count) m r
      → IsTiled ((r.0 - 8, block_bytes tag count) ∷ live) r.1
  unfolding entries
  Allocated-IsTiled r n a = record {
    layout =
        subst
          (λ n.
            Tiled ((r.0 - 8, block_bytes tag count) ∷ live) r.1.heap_size n r.1.free_by_addr
              r.1.free_by_size)
          (sym (started r.1 a.layout.room a.layout.small a.layout.above)) a.layout;
    stored = λ b p i. stored_lem r n a b p i;
  }

  -- Where the heap is tiled and the header of every live block stores the size of its payload as
  -- its release computes it, so that no tuple allocated with elements is live, an allocation of
  -- anything but a tuple, with a count of 32 bits and a tag of 4, where the size of the heap, that
  -- of the new payload and 16 add up to less than 2^32, throws the overflow error, or returns the
  -- address of a new block, and with this block too the heap is tiled and every live header stores
  -- such a size.
  pub dynamic_allocation-IsTiled :
      tag ≢ BlockTag.tuple
      → (dynamic_allocation count tag m ≡ throw dynamic_heap_overflow)
        ⊎ ((r : ℕ × Memory) × (dynamic_allocation count tag m ≡ ok r)
            × IsTiled ((r.0 - 8, block_bytes tag count) ∷ live) r.1)
  dynamic_allocation-IsTiled n =
      elim (dynamic_allocation-Allocated live count tag m t.layout c g fits) [
        | inl e ↦ inl e
        | inr (r, e, a) ↦ inr (r, e, Allocated-IsTiled r n a)
      ]
