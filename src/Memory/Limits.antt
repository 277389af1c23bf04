-- ===== src/Memory/Limits.antt =====
-- The sizes of `Memory::dynamic_allocation` and `Memory::deallocate` at their limits.
use solix.Prelude.{ℕ, ◌+◌, ◌-◌, ◌*◌, ◌^◌, ◌≤◌, ◌<◌, ◌≡◌, ◌≢◌, refl, [], none, false, arith, leb}
use solix.Outcome.{ok, undefined}
use solix.Word.{u32}
use solix.Memory.BlockTag
use solix.Memory.FreeLists.{Pairs, find, lower_bound}
use solix.Memory.State.{Memory}
use solix.Memory.Allocate.{
  take_exact, take_free, take_fresh, write_block, start_dynamic, aligned_payload, payload_bytes,
  dynamic_allocation,
}
use solix.Memory.Deallocate.{freed_bytes}
use solix.Memory.AllocateSafe.{block_bytes}

-- A block with room for an array of references or 64-bit numbers.
array_block : (count : ℕ) → 0 < count → block_bytes BlockTag.array_u64 count ≡ count * 8
unfolding aligned_payload payload_bytes
array_block count h = ground arith

write_block-undefined :
    (count tag aligned header : ℕ) (m : Memory)
    → m.heap_size < aligned
    → write_block count tag aligned header m ≡ undefined
unfolding write_block
write_block-undefined count tag aligned header m h =
    let b : leb (u32 (header + 8) + aligned) m.heap_size ≡ false = ground arith in rw b

find_empty : (k : ℕ) (l : Pairs) → l ≡ [] → find k l ≡ none
unfolding find
find_empty k l h = rw h refl

lower_bound_empty : (k : ℕ) (l : Pairs) → l ≡ [] → lower_bound k l ≡ none
unfolding lower_bound
lower_bound_empty k l h = rw h refl

take_exact_empty : (aligned : ℕ) (m : Memory) → m.free_by_size ≡ [] → take_exact aligned m ≡ none
unfolding take_exact
take_exact_empty aligned m h = rw (find_empty (u32 aligned) m.free_by_size h, take_exact) refl

take_free_empty : (aligned : ℕ) (m : Memory) → m.free_by_size ≡ [] → take_free aligned m ≡ ok (0, m)
unfolding take_free
take_free_empty aligned m h =
    rw
      (
        take_exact_empty aligned m h,
        lower_bound_empty (u32 (aligned + 16)) m.free_by_size h,
        take_free,
      )
      refl

take_fresh_wraps :
    (n : ℕ) (m : Memory)
    → m.next_free_dynamic + n < 2 ^ 32
    → m.next_free_dynamic + n < m.heap_size
    → take_fresh 0 (2 ^ 32 + n) m
      ≡ ok (m.next_free_dynamic, record m { next_free_dynamic = m.next_free_dynamic + n })
unfolding take_fresh
take_fresh_wraps n m small h =
    let u : u32 (m.next_free_dynamic + u32 (2 ^ 32 + n)) ≡ m.next_free_dynamic + n = omega arith in
    let b : leb m.heap_size (m.next_free_dynamic + n) ≡ false = ground arith in rw (u, b) refl

-- An allocation of at least 2^29 numbers of 64 bits, in a started heap below 4 GiB with no free
-- block and with room for the size cut to 32 bits, does not report that the heap is exhausted, but
-- clears memory outside the heap.
pub allocation_overflow :
    (count : ℕ) (m : Memory)
    → 2 ^ 29 ≤ count
    → m.free_by_size ≡ []
    → m.heap_size < 2 ^ 32
    → m.next_free_dynamic ≢ 8
    → m.next_free_dynamic + (count * 8 + 8 - 2 ^ 32) < m.heap_size
    → dynamic_allocation count BlockTag.array_u64 m ≡ undefined
unfolding dynamic_allocation start_dynamic
allocation_overflow count m big empty small started room =
    let m0 = start_dynamic m in
    let n0 : m0.next_free_dynamic ≡ m.next_free_dynamic = ground arith in
    let e = array_block count (omega arith) in
    let k : count * 8 + 8 ≡ 2 ^ 32 + (count * 8 + 8 - 2 ^ 32) = omega arith in
    let f = take_free_empty (count * 8) m0 empty in
    let w = take_fresh_wraps (count * 8 + 8 - 2 ^ 32) m0 (omega (arith, n0)) (omega (arith, n0)) in
    rw (e, f)
      (rw (k, w)
        (write_block-undefined count BlockTag.array_u64 (count * 8) m0.next_free_dynamic _
          (omega arith)))

-- Of a tuple that is not empty, with a count of 32 bits, release computes a size at least eight
-- bytes below the one that was allocated.
pub tuple_shrinks :
    (count : ℕ)
    → 0 < count
    → count < 2 ^ 32
    → aligned_payload (freed_bytes BlockTag.tuple count) + 8 ≤ block_bytes BlockTag.tuple count
unfolding aligned_payload payload_bytes freed_bytes
tuple_shrinks count h b = ground arith
