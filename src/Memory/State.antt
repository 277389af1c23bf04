-- ===== src/Memory/State.antt =====
-- `struct Memory` of core/include/solix/runtime.hpp and its byte-addressed access primitives.
-- An access outside `heap` is undefined in C++; here it is the outcome `undefined`.
use solix.Prelude.{ℕ, ◌+◌, ◌-◌, ◌*◌, ◌/◌, ◌%◌, ◌^◌, List, leb, ltb, if◌then◌else◌}
use solix.Outcome.{Outcome, ok, undefined, ◌>>=◌}
use solix.Word.{u32}
use solix.Memory.Heap.{Bytes, store, load}
use solix.Memory.FreeLists.{Pairs, keys}

-- The operand stack, which is in the same C++ struct, is modelled with the interpreter.
pub record Memory : Type 0 where
  pub heap : Bytes
  pub heap_size : ℕ
  pub next_free_static : ℕ
  pub next_free_dynamic : ℕ
  pub free_by_addr : Pairs
  pub free_by_size : Pairs
  pub free_blocks : List ℕ
  pub weak_references : List (ℕ × List ℕ)
  pub currently_used_words : ℕ
  pub peak_used_words : ℕ
  pub live_objects_count : ℕ

-- An n-byte access at `address + offset`, a sum of two uint32_t.
unfoldable pub read : ℕ → ℕ → ℕ → Memory → Outcome ℕ
read n address offset m =
    let i = u32 (address + offset) in
    if leb (i + n) m.heap_size then ok (load n i m.heap) else undefined

unfoldable pub write : ℕ → ℕ → ℕ → ℕ → Memory → Outcome Memory
write n address offset v m =
    let i = u32 (address + offset) in
    if leb (i + n) m.heap_size then ok (record m { heap = store n i v m.heap }) else undefined

unfoldable pub write_u8 : ℕ → ℕ → ℕ → Memory → Outcome Memory
write_u8 address offset value m = write 1 address offset value m

unfoldable pub read_u8 : ℕ → ℕ → Memory → Outcome ℕ
read_u8 address offset m = read 1 address offset m

unfoldable pub write_u16 : ℕ → ℕ → ℕ → Memory → Outcome Memory
write_u16 address offset value m = write 2 address offset value m

unfoldable pub read_u16 : ℕ → ℕ → Memory → Outcome ℕ
read_u16 address offset m = read 2 address offset m

unfoldable pub write_u32 : ℕ → ℕ → ℕ → Memory → Outcome Memory
write_u32 address offset value m = write 4 address offset value m

unfoldable pub read_u32 : ℕ → ℕ → Memory → Outcome ℕ
read_u32 address offset m = read 4 address offset m

unfoldable pub write_u64 : ℕ → ℕ → ℕ → Memory → Outcome Memory
write_u64 address offset value m = write 8 address offset value m

unfoldable pub read_u64 : ℕ → ℕ → Memory → Outcome ℕ
read_u64 address offset m = read 8 address offset m

unfoldable pub sync_free_blocks : Memory → Memory
sync_free_blocks m = record m { free_blocks = keys m.free_by_addr }

-- The two parts of the second header word: the tag in the top four bits, the reference count
-- below.
abbrev pub tag_of : ℕ → ℕ
tag_of tag_and_ref = tag_and_ref / 2 ^ 28 % 16

abbrev pub ref_of : ℕ → ℕ
ref_of tag_and_ref = tag_and_ref % 2 ^ 28

-- `(tag_and_ref & 0xF0000000) | (ref_count & 0x0FFFFFFF)`
abbrev pub with_ref : ℕ → ℕ → ℕ
with_ref tag_and_ref ref_count = tag_of tag_and_ref * 2 ^ 28 + ref_of ref_count

unfoldable pub get_array_length : ℕ → Memory → Outcome ℕ
get_array_length address m = if ltb address 8 then ok 0 else read_u32 (address - 8) 0 m

unfoldable pub get_block_tag : ℕ → Memory → Outcome ℕ
get_block_tag address m =
    if ltb address 4
    then ok 0
    else do tag_and_ref ← read_u32 (address - 4) 0 m; ok (tag_of tag_and_ref)

unfoldable pub get_block_ref_count : ℕ → Memory → Outcome ℕ
get_block_ref_count address m =
    if ltb address 4
    then ok 0
    else do tag_and_ref ← read_u32 (address - 4) 0 m; ok (ref_of tag_and_ref)
