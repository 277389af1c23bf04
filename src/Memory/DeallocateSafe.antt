-- ===== src/Memory/DeallocateSafe.antt =====
-- `Memory::deallocate` as a whole, on the layout of the dynamic heap.
use solix.Prelude.{
  ℕ, ◌+◌, ◌-◌, ◌^◌, ◌≤◌, ◌<◌, ◌≡◌, sym, ◌∙◌, subst, List, ◌∷◌, arith, All, false, ◌==◌,
}
use native.Mathlib.Nat.{add-zero}
use solix.Outcome.{ok}
use solix.Word.{u32}
use solix.Memory.Heap.{load}
use solix.Memory.FreeLists.{Pairs}
use solix.Memory.State.{Memory, read, read_u32}
use solix.Memory.Allocate.{start_dynamic}
use solix.Memory.Deallocate.{deallocate}
use solix.Memory.Blocks.{cover, entries, cover_of_entries}
use solix.Memory.Tiling.{Tiled, first_block}
use solix.Memory.Stored.{Keeps, Tiles, IsTiled, header_payload, header_cong, Stored-tail}
use solix.Memory.FreeSpace.{Layout}
use solix.Memory.Allocation.{started}
use solix.Memory.Release.{release_lem}
use solix.Memory.Weak.{
  IsSlot, InSlot, slots_of, zero_slots, zero_slots_inside, header_payload-zero_slots, after_clear,
  clear_weak-ok,
}

pub read-ok :
    (n address offset : ℕ) (m : Memory)
    → address + offset + n ≤ m.heap_size
    → m.heap_size < 2 ^ 32
    → read n address offset m ≡ ok (load n (address + offset) m.heap)
unfolding read
read-ok n address offset m h s =
    let e : u32 (address + offset) ≡ address + offset = omega arith in rw e (ground arith)

-- With a live block the dynamic heap has been started.
started_of_block :
    (header payload : ℕ) (live : Pairs) (m : Memory)
    → Tiles ((header, payload) ∷ live) m
    → (start_dynamic m).next_free_dynamic ≡ m.next_free_dynamic
unfolding start_dynamic
started_of_block header payload live m t =
    let (lo, hi) = first_block t in ground (arith, t.room, t.small)

-- What a release has done.
pub record Deallocated (live : Pairs) (slots : List ℕ) (m m' : Memory) : Type 0 where
  pub tiled : Tiles live m'
  pub keeps : Keeps live (zero_slots slots m.heap) m'.heap
  pub weak_null : (x : ℕ) → 0 < cover x live → InSlot x slots → m'.heap x ≡ 0
  pub sizes : (a p : ℕ) → 0 < entries a p live → header_payload a m'.heap ≡ header_payload a m.heap

module _ (live : Pairs) (header payload : ℕ) (m : Memory) (t : Tiles ((header, payload) ∷ live) m)
    (own : header_payload header m.heap ≡ payload)
    (w : All (IsSlot ((header, payload) ∷ live) m.heap_size) (slots_of (header + 8) m)) where
  first_entry : 0 < entries header payload ((header, payload) ∷ live)
  unfolding entries
  first_entry = ground arith

  more_entries : (a q : ℕ) → 0 < entries a q live → 0 < entries a q ((header, payload) ∷ live)
  unfolding entries
  more_entries a q i = omega arith

  -- In a heap whose dynamic part is tiled by live and free blocks, a live block whose header
  -- stores the size of its payload as the release computes it, which the header of a tuple that is
  -- not empty does not, and whose weak references are slots off the headers of the live blocks, is
  -- released without any access outside the heap. The heap is then tiled by the other live blocks,
  -- of any tags, and the free space, so no byte leaks. The other live blocks keep their bytes, but
  -- for the weak references to the block, which become null, and the sizes that their own release
  -- computes.
  pub deallocate-Deallocated :
      (m' : Memory) × (deallocate (header + 8) m ≡ ok m')
      × Deallocated live (slots_of (header + 8) m) m m'
  unfolding deallocate after_clear read_u32 start_dynamic
  deallocate-Deallocated =
      let st = started_of_block header payload live m t in
      let l : Layout ((header, payload) ∷ live) m =
        subst (λ n. Tiled ((header, payload) ∷ live) m.heap_size n m.free_by_addr m.free_by_size) st
          t in
      let (lo, hi) = first_block l in
      let m1 = after_clear (header + 8) m in
      let c = clear_weak-ok ((header, payload) ∷ live) (header + 8) m l.small w in
      let z1 =
        header_payload-zero_slots ((header, payload) ∷ live) m.heap_size (slots_of (header + 8) m)
          m.heap w in
      let p : header_payload header m1.heap ≡ payload = z1 header payload first_entry ∙ own in
      let (m', e, l', k) = release_lem live header payload m1 l in
      let z : (header + 8 == 0) ≡ false = ground arith in
      let u : u32 (header + 8 + 2 ^ 32 - 8) ≡ header = omega (arith, l.below, l.small) in
      let r0 = read-ok 4 header 0 m1 (omega (arith, l.below)) l.small in
      let r4 = read-ok 4 header 4 m1 (omega (arith, l.below)) l.small in
      (
        m',
        rw (z, c, u, r0, r4, add-zero) (rw p e),
        record {
          tiled =
              subst (λ n. Tiled live m'.heap_size n m'.free_by_addr m'.free_by_size)
                (sym (started m' l'.room l'.small l'.above)) l';
          keeps = k;
          weak_null = λ x i h. k x i ∙ zero_slots_inside m.heap h;
          sizes = λ a q i.
              header_cong a m1.heap m'.heap
                (λ x lx ux. k x (let c = cover_of_entries x a q live i in ground arith))
              ∙ z1 a q (more_entries a q i);
        },
      )

-- Where the heap is tiled and the header of every live block stores the size of its payload as its
-- release computes it, so that no tuple allocated with elements is live, the release of a live
-- block, whose weak references are slots off the headers of the live blocks, succeeds, and the
-- same holds of the heap and the other live blocks.
pub deallocate-IsTiled :
    (live : Pairs) (header payload : ℕ) (m : Memory)
    → IsTiled ((header, payload) ∷ live) m
    → All (IsSlot ((header, payload) ∷ live) m.heap_size) (slots_of (header + 8) m)
    → (m' : Memory) × (deallocate (header + 8) m ≡ ok m') × IsTiled live m'
unfolding entries
deallocate-IsTiled live header payload m t w =
    let (m', e, d) =
      deallocate-Deallocated live header payload m t.layout (t.stored header payload (ground arith))
        w in
    (
      m',
      e,
      record {
        layout = d.tiled;
        stored = λ a p i. d.sizes a p i ∙ Stored-tail header payload live m.heap t.stored a p i;
      },
    )
