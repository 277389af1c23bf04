-- ===== src/Memory/Allocation.antt =====
-- The steps of `Memory::dynamic_allocation` behind the choice of a block, on the layout.
use solix.Prelude.{
  ℕ, ◌+◌, ◌-◌, ◌*◌, ◌/◌, ◌^◌, ◌≤◌, ◌<◌, ◌≡◌, ◌∙◌, subst, ◌⊎◌, inl, inr, true, ◌∷◌, ◌≢◌, arith, leb,
  Bool-cases,
}
use native.Mathlib.Nat.{add-zero}
use solix.Outcome.{ok, throw, dynamic_heap_overflow}
use solix.Word.{u32, u64}
use solix.Memory.BlockTag
use solix.Memory.Heap.{
  Bytes, load, store, clear, store_outside, clear_outside, clear_inside, load-store, load_cong,
}
use solix.Memory.FreeLists.{Pairs, keys}
use solix.Memory.State.{Memory, write_u32, sync_free_blocks}
use solix.Memory.Allocate.{
  dynamic_start, raise_peak, take_fresh, write_block, start_dynamic, aligned_payload, payload_bytes,
}
use solix.Memory.Deallocate.{freed_bytes}
use solix.Memory.Blocks.{cover}
use solix.Memory.Tiling.{first_block, Tiled-raise}
use solix.Memory.Stored.{Keeps}
use solix.Memory.FreeSpace.{Layout, write-ok}

-- The first use of the dynamic heap sets its top once and for all.
pub started :
    (m : Memory)
    → 16 ≤ m.heap_size
    → m.heap_size < 2 ^ 32
    → dynamic_start m.heap_size ≤ m.next_free_dynamic
    → (start_dynamic m).next_free_dynamic ≡ m.next_free_dynamic
unfolding start_dynamic
started m r s h = ground arith

abbrev block_heap : ℕ → ℕ → ℕ → ℕ → Bytes → Bytes
block_heap count tag aligned header h =
    store 4 (header + 4) (tag * 2 ^ 28 + 1) (store 4 header count (clear (header + 8) aligned h))

-- The memory after `write_block`.
after_block : ℕ → ℕ → ℕ → ℕ → Memory → Memory
after_block count tag aligned header m =
    let m1 =
      raise_peak
        (record m { currently_used_words = u64 (m.currently_used_words + (aligned + 8) / 8) }) in
    record m1 {
      live_objects_count = u64 (m.live_objects_count + 1);
      heap = block_heap count tag aligned header m.heap;
      free_blocks = keys m.free_by_addr;
    }

module _ (live : Pairs) (count tag aligned header : ℕ) (m : Memory)
    (t : Layout ((header, aligned) ∷ live) m) (c : count < 2 ^ 32) (g : tag < 16) where
  write_block-ok :
      write_block count tag aligned header m
      ≡ ok (header + 8, after_block count tag aligned header m)
  unfolding write_block after_block write_u32 sync_free_blocks
  write_block-ok =
      let (lo, hi) = first_block t in
      let e : u32 (header + 8) ≡ header + 8 = omega (arith, t.below, t.small) in
      let b : leb (header + 8 + aligned) m.heap_size ≡ true = ground (arith, t.below) in
      let k : u32 count ≡ count = omega arith in
      let l : u32 (tag * 2 ^ 28) ≡ tag * 2 ^ 28 = omega arith in
      let m1 : Memory =
        raise_peak
          (record m { currently_used_words = u64 (m.currently_used_words + (aligned + 8) / 8) }) in
      let m2 : Memory = record m1 {
        live_objects_count = u64 (m.live_objects_count + 1);
        heap = clear (header + 8) aligned m.heap;
      } in
      let m3 : Memory = record m2 { heap = store 4 (header + 0) count m2.heap } in
      rw (
        e,
        b,
        k,
        l,
        write-ok 4 header 0 count m2 (omega (arith, t.below)) t.small,
        write-ok 4 header 4 (tag * 2 ^ 28 + 1) m3 (omega (arith, t.below)) t.small,
        add-zero,
      )

  block-Keeps : Keeps live m.heap (after_block count tag aligned header m).heap
  unfolding after_block cover
  block-Keeps x h =
      let d = t.tile x in
      let o : (x < header) ⊎ (header + 8 + aligned ≤ x) = ground arith in
      store_outside 4 (header + 4) (tag * 2 ^ 28 + 1) _ x (ground arith)
      ∙ store_outside 4 header count _ x (ground arith)
      ∙ clear_outside (header + 8) aligned m.heap x (ground arith)

  block-count : load 4 header (after_block count tag aligned header m).heap ≡ count
  unfolding after_block
  block-count =
      load_cong 4 header _ (store 4 header count (clear (header + 8) aligned m.heap))
        (λ x l u. store_outside 4 (header + 4) (tag * 2 ^ 28 + 1) _ x (ground arith))
      ∙ load-store 4 header count _ (omega arith)

  block-tag : load 4 (header + 4) (after_block count tag aligned header m).heap ≡ tag * 2 ^ 28 + 1
  unfolding after_block
  block-tag = load-store 4 (header + 4) (tag * 2 ^ 28 + 1) _ (omega arith)

  block_zeroed :
      (x : ℕ)
      → header + 8 ≤ x
      → x < header + 8 + aligned
      → (after_block count tag aligned header m).heap x ≡ 0
  unfolding after_block
  block_zeroed x l u =
      store_outside 4 (header + 4) (tag * 2 ^ 28 + 1) _ x (ground arith)
      ∙ store_outside 4 header count _ x (ground arith)
      ∙ clear_inside (header + 8) aligned m.heap x l u

-- The sizes that allocation and release compute agree, but for tuples.
pub freed_bytes-eq :
    (tag count : ℕ)
    → tag ≢ BlockTag.tuple
    → payload_bytes tag count < 2 ^ 32
    → freed_bytes tag count ≡ payload_bytes tag count
unfolding freed_bytes payload_bytes
freed_bytes-eq tag count n h = ground arith

pub payload-le-aligned : (p : ℕ) → p ≤ aligned_payload p
unfolding aligned_payload
payload-le-aligned p = ground arith

-- What a successful allocation has done.
pub record Allocated (live : Pairs) (count tag aligned : ℕ) (m : Memory) (r : ℕ × Memory)
    : Type 0 where
  pub layout : Layout ((r.0 - 8, aligned) ∷ live) r.1
  pub past_header : 16 ≤ r.0
  pub keeps : Keeps live m.heap r.1.heap
  pub zeroed : (x : ℕ) → r.0 ≤ x → x < r.0 + aligned → r.1.heap x ≡ 0
  pub length_stored : load 4 (r.0 - 8) r.1.heap ≡ count
  pub tag_stored : load 4 (r.0 - 4) r.1.heap ≡ tag * 2 ^ 28 + 1

module _ (live : Pairs) (count tag : ℕ) (m : Memory) (c : count < 2 ^ 32) (g : tag < 16) where
  pub write_block-Allocated :
      (aligned header : ℕ) (m2 : Memory)
      → Layout ((header, aligned) ∷ live) m2
      → Keeps live m.heap m2.heap
      → (r : ℕ × Memory) × (write_block count tag aligned header m2 ≡ ok r)
        × Allocated live count tag aligned m r
  write_block-Allocated aligned header m2 t k =
      let (lo, hi) = first_block t in
      let h : header ≡ header + 8 - 8 = omega arith in
      let h4 : header + 4 ≡ header + 8 - 4 = omega arith in
      let after = after_block count tag aligned header m2 in
      (
        (header + 8, after),
        write_block-ok live count tag aligned header m2 t c g,
        record {
          layout = (unfold after_block in subst (λ a. Layout ((a, aligned) ∷ live) after) h t);
          past_header = omega (arith, t.room, t.small);
          keeps = λ x i. block-Keeps live count tag aligned header m2 t c g x i ∙ k x i;
          zeroed = λ x l u. block_zeroed live count tag aligned header m2 t c g x l (omega arith);
          length_stored =
              subst (λ a. load 4 a after.heap ≡ count) h
                (block-count live count tag aligned header m2 t c g);
          tag_stored =
              subst (λ a. load 4 a after.heap ≡ tag * 2 ^ 28 + 1) h4
                (block-tag live count tag aligned header m2 t c g);
        },
      )

  -- Step 3 and the rest, at the top of the heap.
  pub fresh_lem :
      (aligned : ℕ) (m1 : Memory)
      → Layout live m1
      → m1.heap_size + aligned + 8 < 2 ^ 32
      → m1.heap ≡ m.heap
      → (take_fresh 0 (aligned + 8) m1 ≡ throw dynamic_heap_overflow)
        ⊎ ((m2 : Memory) × (take_fresh 0 (aligned + 8) m1 ≡ ok (m1.next_free_dynamic, m2))
            × Layout ((m1.next_free_dynamic, aligned) ∷ live) m2
            × (m2.heap ≡ m.heap))
  unfolding take_fresh
  fresh_lem aligned m1 t fits same =
      let u : u32 (m1.next_free_dynamic + u32 (aligned + 8)) ≡ m1.next_free_dynamic + 8 + aligned =
        omega (arith, t.below) in
      elim (Bool-cases (leb m1.heap_size (m1.next_free_dynamic + 8 + aligned))) [
        | inl e ↦ inl (rw (u, e))
        | inr e ↦ inr (
          record m1 { next_free_dynamic = m1.next_free_dynamic + 8 + aligned },
          rw (u, e),
          Tiled-raise t aligned (ground arith),
          same,
        )
      ]
