-- ===== src/Vm/LastReference.antt =====
-- Dropping the last reference to a block: `Memory::decrease_reference` with `Memory::deallocate`.
use solix.Prelude.{
  ℕ, zero, suc, ◌+◌, ◌-◌, ◌*◌, ◌/◌, ◌%◌, ◌^◌, ◌≤◌, ◌<◌, ◌≡◌, ◌≢◌, refl, ◌∙◌, ap, List, [], ◌∷◌,
  false, ◌||◌, arith, All, leb, ltb, ◌==◌,
}
use solix.Outcome.{ok}
use solix.Memory.BlockTag
use solix.Memory.Heap.{Bytes, load, store, update, load-store, store_outside, load_cong}
use solix.Memory.FreeLists.{Pairs}
use solix.Memory.State.{
  Memory, read_u32, write_u32, get_block_tag, get_block_ref_count, tag_of, ref_of, with_ref,
}
use solix.Memory.Allocate.{start_dynamic, aligned_payload}
use solix.Memory.Blocks.{cover, entries, cover_of_entries}
use solix.Memory.Tiling.{first_block, cover_first}
use solix.Memory.Stored.{Tiles, header_cong, header_payload}
use solix.Memory.FreeSpace.{write-ok}
use solix.Memory.Weak.{IsSlot, slots_of, zero_slots}
use solix.Memory.DeallocateSafe.{read-ok, Deallocated, deallocate-Deallocated}
use solix.Vm.State.{Vm}
use solix.Vm.Release.{Engine, set_ref, object_destructor, decrease_reference}
use solix.Vm.Counting.{HasHeader}

store_cong : (n i v : ℕ) (g h : Bytes) (x : ℕ) → g x ≡ h x → store n i v g x ≡ store n i v h x
unfolding store
store_cong zero i v g h x e = e
store_cong (suc n) i v g h x e =
    store_cong n (i + 1) (v / 256) (update g i (v % 256)) (update h i (v % 256)) x (ground arith)

zero_slots_cong :
    (slots : List ℕ) (g h : Bytes) (x : ℕ) → g x ≡ h x → zero_slots slots g x ≡ zero_slots slots h x
zero_slots_cong [] g h x e = e
zero_slots_cong (slot ∷ slots) g h x e =
    zero_slots_cong slots (store 8 slot 0 g) (store 8 slot 0 h) x (store_cong 8 slot 0 g h x e)

-- The heap with a new word of tag and count in the header of a block.
abbrev recount : ℕ → ℕ → Bytes → Bytes
recount header word h = store 4 (header + 4) word h

module _ (live : Pairs) (header payload tag : ℕ) (m : Memory) (g : tag < 16)
    (t : Tiles ((header, payload) ∷ live) m) (h : HasHeader (header + 8) tag 1 m.heap) where
  -- The other live blocks do not hold the header.
  recount_others : (x : ℕ) → 0 < cover x live → recount header (tag * 2 ^ 28) m.heap x ≡ m.heap x
  recount_others x i =
      store_outside 4 (header + 4) (tag * 2 ^ 28) m.heap x (let c = cover_first t x in ground arith)

  word_before : load 4 (header + 4) m.heap ≡ tag * 2 ^ 28 + 1
  word_before = ap (λ (a : ℕ). load 4 a m.heap) (omega arith) ∙ h

  recount_own :
      header_payload header (recount header (tag * 2 ^ 28) m.heap) ≡ header_payload header m.heap
  recount_own =
      let w = load-store 4 (header + 4) (tag * 2 ^ 28) m.heap (omega arith) in
      let c =
        load_cong 4 header (recount header (tag * 2 ^ 28) m.heap) m.heap
          (λ x l u. store_outside 4 (header + 4) (tag * 2 ^ 28) m.heap x (ground arith)) in
      let a : tag_of (tag * 2 ^ 28) ≡ tag = omega arith in
      let b : tag_of (tag * 2 ^ 28 + 1) ≡ tag = omega arith in rw (w, c, word_before, a, b) refl

  recount_sizes :
      (a p : ℕ)
      → 0 < entries a p live
      → header_payload a (recount header (tag * 2 ^ 28) m.heap) ≡ header_payload a m.heap
  recount_sizes a p i =
      header_cong a m.heap (recount header (tag * 2 ^ 28) m.heap)
        (λ x l u. recount_others x (let c = cover_of_entries x a p live i in ground arith))

  recount-Tiles :
      Tiles ((header, payload) ∷ live) (record m { heap = recount header (tag * 2 ^ 28) m.heap })
  unfolding start_dynamic
  recount-Tiles = t

-- A tag of blocks that hold no references and are not tuples.
abbrev pub IsPlain : ℕ → Type 0
IsPlain tag =
    ((tag ≢ BlockTag.object) × (tag ≢ BlockTag.array_ref))
    × ((tag ≢ BlockTag.closure) × (tag ≢ BlockTag.tuple))

tag_at :
    (address word : ℕ) (m : Memory)
    → 8 ≤ address
    → address ≤ m.heap_size
    → m.heap_size < 2 ^ 32
    → load 4 (address - 4 + 0) m.heap ≡ word
    → (get_block_tag address m ≡ ok (tag_of word))
      × (get_block_ref_count address m ≡ ok (ref_of word))
unfolding get_block_tag get_block_ref_count read_u32
tag_at address word m lo hi small h =
    let b : ltb address 4 ≡ false = ground arith in
    let r = read-ok 4 (address - 4) 0 m (omega arith) small in
    (rw (b, r, h) refl, rw (b, r, h) refl)

module _ (e : Engine) (live : Pairs) (header payload tag : ℕ) (s : Vm) (g : tag < 16)
    (plain : IsPlain tag) (t : Tiles ((header, payload) ∷ live) s.memory)
    (own : header_payload header s.memory.heap ≡ payload)
    (h : HasHeader (header + 8) tag 1 s.memory.heap)
    (w : All
      (IsSlot ((header, payload) ∷ live) s.memory.heap_size)
      (slots_of (header + 8) s.memory)) where
  released : Memory
  released = record s.memory { heap = recount header (tag * 2 ^ 28) s.memory.heap }

  bounds : header + 8 < s.memory.heap_size
  unfolding aligned_payload
  bounds = let (lo, hi) = first_block t in ground (arith, own, t.below)

  at_word :
      (get_block_tag (header + 8) released ≡ ok tag)
      × (get_block_ref_count (header + 8) released ≡ ok 0)
  unfolding released
  at_word =
      let a : header + 8 - 4 + 0 ≡ header + 4 = omega arith in
      let l =
        ap (λ (i : ℕ). load 4 i released.heap) a
        ∙ load-store 4 (header + 4) (tag * 2 ^ 28) s.memory.heap (omega arith) in
      let (p, q) =
        tag_at (header + 8) (tag * 2 ^ 28) released (omega arith) (omega (arith, bounds)) t.small
          l in
      let b : tag_of (tag * 2 ^ 28) ≡ tag = omega arith in
      let c : ref_of (tag * 2 ^ 28) ≡ 0 = omega arith in (p ∙ ap ok b, q ∙ ap ok c)

  no_destructor :
      object_destructor e (header + 8) (record s { memory = released })
      ≡ ok (record s { memory = released })
  unfolding object_destructor released get_block_tag
  no_destructor =
      let b : (header + 8 == 0 || leb s.memory.heap_size (header + 8)) ≡ false =
        ground (arith, bounds) in
      let o : (tag == BlockTag.object) ≡ false = ground arith in
      let r : (tag == BlockTag.array_ref) ≡ false = ground arith in
      let u : (tag == BlockTag.tuple) ≡ false = ground arith in rw (b, at_word.0, o, r, u) refl

  -- In a heap whose dynamic part is tiled by live and free blocks, dropping the last reference to
  -- a live block whose header stores the size of its payload as the release computes it, whose tag
  -- is not that of an object, an array of references, a closure or a tuple, and whose weak
  -- references are slots off the headers of the live blocks, releases the block: the heap is tiled
  -- by the other live blocks, of any tags, and the free space, these keep their bytes, but for the
  -- weak references to the block, which become null, and the sizes that their own release
  -- computes, and nothing else in the machine changes.
  pub decrease_reference-Deallocated :
      (m' : Memory) × (decrease_reference e (header + 8) s ≡ ok (record s { memory = m' }))
      × Deallocated live (slots_of (header + 8) s.memory) s.memory m'
  unfolding decrease_reference set_ref read_u32 write_u32 released
  decrease_reference-Deallocated =
      let m = s.memory in
      let (m', p, d) =
        deallocate-Deallocated live header payload released
          (recount-Tiles live header payload tag m g t h)
          (recount_own live header payload tag m g t h ∙ own) w in
      let b : (ltb (header + 8) 8 || leb m.heap_size (header + 8)) ≡ false =
        ground (arith, bounds) in
      let a : header + 8 - 8 ≡ header = omega arith in
      let k : ref_of (tag * 2 ^ 28 + 1) ≡ 1 = omega arith in
      let v : with_ref (tag * 2 ^ 28 + 1) 0 ≡ tag * 2 ^ 28 = omega arith in
      let f : tag_of (tag * 2 ^ 28 + 1) ≡ tag = omega arith in
      let c : (tag == BlockTag.closure) ≡ false = ground arith in
      (
        m',
        rw
            (
              b,
              a,
              read-ok 4 header 4 m (omega (arith, bounds)) t.small,
              word_before live header payload tag m g t h,
              k,
              v,
              write-ok 4 header 4 (tag * 2 ^ 28) m (omega (arith, bounds)) t.small,
              f,
              c,
              no_destructor,
              at_word.1,
              p,
            )
            refl,
        record {
          tiled = d.tiled;
          keeps = λ x i.
              d.keeps x i
              ∙ zero_slots_cong (slots_of (header + 8) m) released.heap m.heap x
                  (recount_others live header payload tag m g t h x i);
          weak_null = d.weak_null;
          sizes = λ a p i. d.sizes a p i ∙ recount_sizes live header payload tag m g t h a p i;
        },
      )
