-- ===== src/Memory/Allocate.antt =====
-- `Memory::static_allocation` and `Memory::dynamic_allocation`.
use solix.Prelude.{
  ℕ, ◌+◌, ◌-◌, ◌*◌, ◌/◌, ◌^◌, Option, none, some, ◌==◌, leb, ltb, ◌||◌, if◌then◌else◌,
}
use solix.Outcome.{
  Outcome, ok, throw, undefined, static_heap_overflow, dynamic_heap_overflow, ◌>>=◌,
}
use solix.Word.{u32, u64, align8}
use solix.Memory.BlockTag
use solix.Memory.Heap.{clear}
use solix.Memory.FreeLists.{find, lower_bound, erase_key, erase_entry, put, add}
use solix.Memory.State.{Memory, write_u32, sync_free_blocks}

-- `if (currently_used_words > peak_used_words) peak_used_words = currently_used_words;`
abbrev pub raise_peak : Memory → Memory
raise_peak m = record m {
  peak_used_words =
      if ltb m.peak_used_words m.currently_used_words
      then m.currently_used_words
      else m.peak_used_words;
}

-- `(static_cast<Address>(heap.size() / 2) + 7) & ~7`
abbrev pub dynamic_start : ℕ → ℕ
dynamic_start heap_size = u32 (u32 (heap_size / 2) + 7) / 8 * 8

unfoldable pub place_static : ℕ → Memory → Outcome (ℕ × Memory)
place_static size_in_bytes m =
    let address = u32 (m.next_free_static + 7) / 8 * 8 in
    let next = u32 (address + u32 size_in_bytes) in
    if leb (dynamic_start m.heap_size) next
    then throw static_heap_overflow
    else ok (address, record m { next_free_static = next })

unfoldable pub static_allocation : ℕ → ℕ → Memory → Outcome (ℕ × Memory)
static_allocation size_in_bytes address m = do
  (address', m1) ← if address == 0 then place_static size_in_bytes m else ok (address, m)
  ok (
    address',
    raise_peak (record m1 {
      currently_used_words = u64 (m1.currently_used_words + (size_in_bytes + 7) / 8);
    }),
  )

-- The size in bytes that `dynamic_allocation` gives a block of `count` cells.
unfoldable pub payload_bytes : ℕ → ℕ → ℕ
payload_bytes tag count =
    if tag == BlockTag.array_u8 || tag == BlockTag.array_i8
    then count * 1
    else if tag == BlockTag.array_u16 || tag == BlockTag.array_i16
    then count * 2
    else if tag == BlockTag.array_u32 || tag == BlockTag.array_i32
    then count * 4
    else if tag == BlockTag.array_u64 || tag == BlockTag.array_ref || tag == BlockTag.closure
    then count * 8
    else if tag == BlockTag.tuple
    then align8 (count * 4) + count * 8
    else count

-- `aligned_payload`
unfoldable pub aligned_payload : ℕ → ℕ
aligned_payload payload = let a = align8 payload in if a == 0 then 8 else a

-- Step 1: a free block of exactly this size.
unfoldable pub take_exact : ℕ → Memory → Option (ℕ × Memory)
take_exact aligned m = elim (find (u32 aligned) m.free_by_size) [
  | none ↦ none
  | some header ↦ some (
    header,
    record m {
      free_by_size = erase_entry (u32 aligned) header m.free_by_size;
      free_by_addr = erase_key header m.free_by_addr;
    },
  )
]

-- Step 2: a free block that leaves room for a header and eight bytes; the rest stays free.
unfoldable pub split_block : ℕ → ℕ → ℕ → Memory → Outcome (ℕ × Memory)
split_block aligned blk_payload header m =
    let rem_payload = u32 (blk_payload + 2 ^ 32 + 2 ^ 32 - u32 aligned - 8) in
    let rem_addr = u32 (header + 8 + u32 aligned) in
    do
      let m1 = record m {
        free_by_size = erase_entry blk_payload header m.free_by_size;
        free_by_addr = erase_key header m.free_by_addr;
      }
      m2 ← write_u32 rem_addr 0 rem_payload m1
      m3 ← write_u32 rem_addr 4 0 m2
      ok (
        header,
        record m3 {
          free_by_addr = put rem_addr rem_payload m3.free_by_addr;
          free_by_size = add rem_payload rem_addr m3.free_by_size;
        },
      )

-- Steps 1 and 2; the address 0 says that no free block serves.
unfoldable pub take_free : ℕ → Memory → Outcome (ℕ × Memory)
take_free aligned m = elim (take_exact aligned m) [
  | some r ↦ ok r
  | none ↦ elim (lower_bound (u32 (aligned + 16)) m.free_by_size) [
    | none ↦ ok (0, m)
    | some (blk_payload, header) ↦ split_block aligned blk_payload header m
  ]
]

-- Step 3: fresh space above the blocks handed out so far.
unfoldable pub take_fresh : ℕ → ℕ → Memory → Outcome (ℕ × Memory)
take_fresh header total m =
    if header == 0
    then (let next = u32 (m.next_free_dynamic + u32 total) in
        if leb m.heap_size next
        then throw dynamic_heap_overflow
        else ok (m.next_free_dynamic, record m { next_free_dynamic = next }))
    else ok (header, m)

-- The statistics, the cleared payload and the header of the new block. The `memset` is undefined
-- where it leaves the heap.
unfoldable pub write_block : ℕ → ℕ → ℕ → ℕ → Memory → Outcome (ℕ × Memory)
write_block count tag aligned header m = do
  let m1 =
      raise_peak
        (record m { currently_used_words = u64 (m.currently_used_words + (aligned + 8) / 8) })
  let m2 = record m1 { live_objects_count = u64 (m1.live_objects_count + 1) }
  m3 ←
      if leb (u32 (header + 8) + aligned) m2.heap_size
      then ok (record m2 { heap = clear (u32 (header + 8)) aligned m2.heap })
      else undefined
  m4 ← write_u32 header 0 (u32 count) m3
  m5 ← write_u32 header 4 (u32 (tag * 2 ^ 28) + 1) m4
  ok (u32 (header + 8), sync_free_blocks m5)

-- `if (next_free_dynamic == 8) next_free_dynamic = …`
unfoldable pub start_dynamic : Memory → Memory
start_dynamic m = record m {
  next_free_dynamic =
      if m.next_free_dynamic == 8 then dynamic_start m.heap_size else m.next_free_dynamic;
}

unfoldable pub dynamic_allocation : ℕ → ℕ → Memory → Outcome (ℕ × Memory)
dynamic_allocation count tag m = do
  let aligned = aligned_payload (payload_bytes tag count)
  (found, m1) ← take_free aligned (start_dynamic m)
  (header, m2) ← take_fresh found (aligned + 8) m1
  write_block count tag aligned header m2
