-- ===== src/Memory/Deallocate.antt =====
-- `Memory::deallocate`: the weak references are cleared, the block joins its free neighbours, and
-- either goes to the free lists or lowers the top of the dynamic heap.
use solix.Prelude.{
  ℕ, ◌+◌, ◌-◌, ◌*◌, ◌/◌, ◌^◌, none, some, List, [], ◌∷◌, ◌==◌, ltb, ◌||◌, if◌then◌else◌,
}
use solix.Outcome.{Outcome, ok, ◌>>=◌}
use solix.Word.{u32, u64}
use solix.Memory.BlockTag
use solix.Memory.FreeLists.{find, before, erase_key, erase_entry, put, add}
use solix.Memory.State.{Memory, read_u32, write_u32, write_u64, sync_free_blocks, tag_of}
use solix.Memory.Allocate.{aligned_payload}

-- The size that `deallocate` computes from the header: a product of uint32_t, and no case for
-- tuples.
unfoldable pub freed_bytes : ℕ → ℕ → ℕ
freed_bytes tag count =
    if tag == BlockTag.array_u8 || tag == BlockTag.array_i8
    then u32 (count * 1)
    else if tag == BlockTag.array_u16 || tag == BlockTag.array_i16
    then u32 (count * 2)
    else if tag == BlockTag.array_u32 || tag == BlockTag.array_i32
    then u32 (count * 4)
    else if tag == BlockTag.array_u64 || tag == BlockTag.array_ref || tag == BlockTag.closure
    then u32 (count * 8)
    else count

-- `for (Address weak_slot : it->second) write_u64(weak_slot, 0, 0);`
unfoldable pub clear_slots : List ℕ → Memory → Outcome Memory
clear_slots [] m = ok m
clear_slots (slot ∷ slots) m = do m1 ← write_u64 slot 0 0 m; clear_slots slots m1

unfoldable pub clear_weak : ℕ → Memory → Outcome Memory
clear_weak address m = elim (find address m.weak_references) [
  | none ↦ ok m
  | some slots ↦ do
    m1 ← clear_slots slots m
    ok (record m1 { weak_references = erase_key address m1.weak_references })
]

-- Takes a free block out of both lists.
unfoldable pub unlink : ℕ → ℕ → Memory → Memory
unlink addr payload m = record m {
  free_by_size = erase_entry payload addr m.free_by_size;
  free_by_addr = erase_key addr m.free_by_addr;
}

-- The free block behind the one at `header` joins it.
unfoldable pub merge_next : ℕ → ℕ → Memory → ℕ × Memory
merge_next header free_payload m =
    let next_addr = u32 (header + 8 + free_payload) in
    elim (find next_addr m.free_by_addr) [
      | none ↦ (free_payload, m)
      | some next_payload ↦
          (u32 (free_payload + (8 + next_payload)), unlink next_addr next_payload m)
    ]

-- The free block before the one at `header` joins it.
unfoldable pub merge_prev : ℕ → ℕ → Memory → ℕ × ℕ × Memory
merge_prev header free_payload m = elim (before header m.free_by_addr) [
  | none ↦ (header, free_payload, m)
  | some (prev_addr, prev_payload) ↦
      if u32 (prev_addr + 8 + prev_payload) == header
      then (prev_addr, u32 (free_payload + (8 + prev_payload)), unlink prev_addr prev_payload m)
      else (header, free_payload, m)
]

-- At the top of the dynamic heap the block is given back to the uncommitted space.
unfoldable pub place_free : ℕ → ℕ → Memory → Outcome Memory
place_free header free_payload m =
    if u32 (header + 8 + free_payload) == m.next_free_dynamic
    then ok (record m { next_free_dynamic = header })
    else do
      m1 ← write_u32 header 0 free_payload m
      ok (record m1 {
        free_by_addr = put header free_payload m1.free_by_addr;
        free_by_size = add free_payload header m1.free_by_size;
      })

-- The block at `header` of `aligned` bytes is taken from the statistics and released.
unfoldable pub release : ℕ → ℕ → Memory → Outcome Memory
release header aligned m = do
  let m1 = record m {
    currently_used_words = u64 (m.currently_used_words + 2 ^ 64 - (aligned + 8) / 8);
    live_objects_count =
        if ltb 0 m.live_objects_count then m.live_objects_count - 1 else m.live_objects_count;
  }
  m2 ← write_u32 header 4 0 m1
  let (payload1, m3) = merge_next header (u32 aligned) m2
  let (header2, payload2, m4) = merge_prev header payload1 m3
  m5 ← place_free header2 payload2 m4
  ok (sync_free_blocks m5)

unfoldable pub deallocate : ℕ → Memory → Outcome Memory
deallocate address m = if address == 0 then ok m else do
  m1 ← clear_weak address m
  let header = u32 (address + 2 ^ 32 - 8)
  count ← read_u32 header 0 m1
  tag_and_ref ← read_u32 header 4 m1
  release header (aligned_payload (freed_bytes (tag_of tag_and_ref) count)) m1
