-- ===== src/Memory/Tests.antt =====
-- Runs of the allocator on small heaps.
use solix.Prelude.{ℕ, ◌+◌, ◌-◌, ◌*◌, ◌^◌, ◌≤◌, ◌<◌, ◌≡◌, refl, ◌⊎◌, List, [], ◌∷◌, arith}
use solix.Outcome.{ok, throw, undefined, dynamic_heap_overflow, ◌>>=◌}
use solix.Memory.BlockTag
use solix.Memory.Heap.{store, load, clear}
use solix.Memory.FreeLists.{find, lower_bound, before, erase_key, erase_entry, put, add, keys}
use solix.Memory.State.{Memory, read, write, read_u32, write_u32, sync_free_blocks}
use solix.Memory.Allocate.{
  dynamic_allocation, start_dynamic, take_free, take_exact, split_block, take_fresh, write_block,
  aligned_payload, payload_bytes,
}
use solix.Memory.Deallocate.{
  deallocate, freed_bytes, clear_slots, clear_weak, unlink, merge_next, merge_prev, place_free,
  release,
}
use solix.Memory.Blocks.{cover, entries}
use solix.Memory.Stored.{IsTiled, header_payload}
use solix.Memory.Allocation.{Allocated}
use solix.Memory.AllocateSafe.{
  block_bytes, dynamic_allocation-Allocated, dynamic_allocation-IsTiled,
}
use solix.Memory.Weak.{slots_of}
use solix.Memory.DeallocateSafe.{Deallocated, deallocate-Deallocated, deallocate-IsTiled}
use solix.Memory.Limits.{allocation_overflow, tuple_shrinks}

-- A heap of 128 bytes before its first allocation.
abbrev fresh : Memory
fresh = record {
  heap = λ _. 0;
  heap_size = 128;
  next_free_static = 8;
  next_free_dynamic = 8;
  free_by_addr = [];
  free_by_size = [];
  free_blocks = [];
  weak_references = [];
  currently_used_words = 0;
  peak_used_words = 0;
  live_objects_count = 0;
}

fresh-IsTiled : IsTiled [] fresh
unfolding start_dynamic cover entries
fresh-IsTiled = record {
  layout = record {
    small = ground arith;
    room = ground arith;
    above = ground arith;
    below = ground arith;
    tile = λ x. ground arith;
    mirror = λ a p. refl;
  };
  stored = λ a p i. ground arith;
}

dynamic_allocation-Allocated_example :
    (dynamic_allocation 8 BlockTag.array_u8 fresh ≡ throw dynamic_heap_overflow)
    ⊎ ((r : ℕ × Memory) × (dynamic_allocation 8 BlockTag.array_u8 fresh ≡ ok r)
        × Allocated [] 8 BlockTag.array_u8 (block_bytes BlockTag.array_u8 8) fresh r)
dynamic_allocation-Allocated_example =
    dynamic_allocation-Allocated [] 8 BlockTag.array_u8 fresh fresh-IsTiled.layout (ground arith)
      (ground arith) (unfold aligned_payload payload_bytes in ground arith)

dynamic_allocation-IsTiled_example :
    (dynamic_allocation 8 BlockTag.array_u8 fresh ≡ throw dynamic_heap_overflow)
    ⊎ ((r : ℕ × Memory) × (dynamic_allocation 8 BlockTag.array_u8 fresh ≡ ok r)
        × IsTiled ((r.0 - 8, block_bytes BlockTag.array_u8 8) ∷ []) r.1)
dynamic_allocation-IsTiled_example =
    dynamic_allocation-IsTiled [] 8 BlockTag.array_u8 fresh fresh-IsTiled (ground arith)
      (ground arith) (unfold aligned_payload payload_bytes in ground arith) (ground arith)

-- The same heap with one array of eight bytes at its start.
abbrev pub one_block : Memory
one_block = record fresh {
  heap = store 4 68 (BlockTag.array_u8 * 2 ^ 28 + 1) (store 4 64 8 (λ _. 0));
  next_free_dynamic = 80;
}

stored_at : (a p : ℕ) → 0 < entries a p ((64, 8) ∷ []) → (a ≡ 64) × (p ≡ 8)
unfolding entries
stored_at a p h = ground arith

pub header_at : header_payload 64 one_block.heap ≡ 8
unfolding store load aligned_payload freed_bytes
header_at = refl

pub one_block-IsTiled : IsTiled ((64, 8) ∷ []) one_block
unfolding start_dynamic cover
one_block-IsTiled = record {
  layout = record {
    small = ground arith;
    room = ground arith;
    above = ground arith;
    below = ground arith;
    tile = λ x. ground arith;
    mirror = λ a p. unfold entries in ground arith;
  };
  stored = λ a p i. let (e, e') = stored_at a p i in rw (e, e') header_at;
}

deallocate-Deallocated_example :
    (m' : Memory) × (deallocate (64 + 8) one_block ≡ ok m')
    × Deallocated [] (slots_of (64 + 8) one_block) one_block m'
deallocate-Deallocated_example =
    deallocate-Deallocated [] 64 8 one_block one_block-IsTiled.layout header_at (unfold find in tt)

deallocate-IsTiled_example : (m' : Memory) × (deallocate (64 + 8) one_block ≡ ok m') × IsTiled [] m'
deallocate-IsTiled_example =
    deallocate-IsTiled [] 64 8 one_block one_block-IsTiled (unfold find in tt)

-- A heap of 128 bytes and an array of 2^29 numbers of 64 bits.
abbrev in_use : Memory
in_use = record fresh { next_free_dynamic = 64 }

allocation_overflow_example : dynamic_allocation (2 ^ 29) BlockTag.array_u64 in_use ≡ undefined
allocation_overflow_example =
    allocation_overflow (2 ^ 29) in_use (ground arith) refl (ground arith) (ground arith)
      (ground arith)

tuple_shrinks_example :
    aligned_payload (freed_bytes BlockTag.tuple 2) + 8 ≤ block_bytes BlockTag.tuple 2
tuple_shrinks_example = tuple_shrinks 2 (ground arith) (ground arith)

-- Allocate, release, and allocate again: the space is used again.
addresses : Memory → List ℕ
addresses m = elim (dynamic_allocation 8 BlockTag.array_u8 m) [
  | ok (a, m1) ↦ elim (dynamic_allocation 3 BlockTag.array_u64 m1) [
    | ok (b, m2) ↦ elim (do m3 ← deallocate a m2; dynamic_allocation 4 BlockTag.array_u16 m3) [
      | ok (c, m4) ↦ a ∷ b ∷ c ∷ m4.free_blocks
      | _ ↦ []
    ]
    | _ ↦ []
  ]
  | _ ↦ []
]

addresses_example : addresses fresh ≡ 72 ∷ 88 ∷ 72 ∷ []
unfolding addresses dynamic_allocation take_free take_exact split_block take_fresh write_block
    start_dynamic aligned_payload payload_bytes write_u32 read_u32 read write sync_free_blocks load
    store clear find lower_bound before erase_key erase_entry put add keys freed_bytes clear_slots
    clear_weak unlink merge_next merge_prev place_free release deallocate
addresses_example = refl
