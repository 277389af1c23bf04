-- ===== src/Vm/Objects.antt =====
-- The instructions for allocation, properties and array lengths of `RuntimeContext::run_bytecode`.
use solix.Prelude.{
  ℕ, ◌+◌, ◌*◌, ◌/◌, ◌%◌, ◌^◌, List, [], ◌∷◌, none, some, Bool, true, false, ◌||◌, leb, ltb, ◌==◌,
  if◌then◌else◌,
}
use solix.Outcome.{
  Outcome, ok, throw, null_pointer, negative_array_size, property_out_of_bounds,
  array_out_of_bounds, ◌>>=◌,
}
use solix.Word.{u8, u16, u32}
use solix.Memory.BlockTag
use solix.Memory.FreeLists.{find, erase_key, put}
use solix.Memory.State.{
  Memory, read_u8, read_u16, read_u32, read_u64, write_u8, write_u16, write_u32, write_u64,
  get_array_length, get_block_tag,
}
use solix.Memory.Allocate.{static_allocation, dynamic_allocation}
use solix.Vm.State.{Vm, push, pop, next_byte, code_u32, in_memory}
use solix.Vm.Conversion.{sign_extend8, sign_extend16, sign_extend32}

unfoldable pub alloc_static : Vm → Outcome Vm
alloc_static s = do
  (size, s1) ← pop s
  (_, m) ← static_allocation (u32 (u32 size * 8)) 0 s1.memory
  ok (record s1 { memory = m })

unfoldable pub alloc_dynamic : Vm → Outcome Vm
alloc_dynamic s = do
  (tag, s1) ← next_byte s
  (raw_size, s2) ← pop s1
  if leb (2 ^ 63) raw_size then throw negative_array_size else do
    (addr, m) ← dynamic_allocation (u32 raw_size) tag s2.memory
    push addr (record s2 { memory = m })

-- `width == 0 ? 8 : width` and `byte_width`
abbrev pub property_width : ℕ → ℕ
property_width imm = if imm / 2 ^ 28 == 0 then 8 else imm / 2 ^ 28

abbrev pub property_bytes : ℕ → ℕ
property_bytes width =
    if width == 5 then 1 else if width == 6 then 2 else if width == 7 then 4 else width

unfoldable pub read_property : ℕ → ℕ → ℕ → Memory → Outcome ℕ
read_property width obj offset m =
    if width == 1
    then read_u8 obj offset m
    else if width == 2
    then read_u16 obj offset m
    else if width == 4
    then read_u32 obj offset m
    else if width == 5
    then (do v ← read_u8 obj offset m; ok (sign_extend8 v))
    else if width == 6
    then (do v ← read_u16 obj offset m; ok (sign_extend16 v))
    else if width == 7
    then (do v ← read_u32 obj offset m; ok (sign_extend32 v))
    else read_u64 obj offset m

unfoldable pub write_property : ℕ → ℕ → ℕ → ℕ → Memory → Outcome Memory
write_property width obj offset val m =
    if width == 1 || width == 5
    then write_u8 obj offset (u8 val) m
    else if width == 2 || width == 6
    then write_u16 obj offset (u16 val) m
    else if width == 4 || width == 7
    then write_u32 obj offset (u32 val) m
    else write_u64 obj offset val m

unfoldable pub get_property : Vm → Outcome Vm
get_property s = do
  (imm, s1) ← code_u32 s
  (top, s2) ← pop s1
  let offset = imm % 2 ^ 28
  let width = property_width imm
  let obj = u32 top
  if obj == 0
      then throw null_pointer
      else if ltb s2.memory.heap_size (u32 (obj + offset + property_bytes width))
      then throw property_out_of_bounds
      else do val ← read_property width obj offset s2.memory; push val s2

unfoldable pub set_property : Vm → Outcome Vm
set_property s = do
  (imm, s1) ← code_u32 s
  (top, s2) ← pop s1
  (val, s3) ← pop s2
  let offset = imm % 2 ^ 28
  let width = property_width imm
  let obj = u32 top
  if obj == 0
      then throw null_pointer
      else if ltb s3.memory.heap_size (u32 (obj + offset + property_bytes width))
      then throw property_out_of_bounds
      else in_memory s3 (write_property width obj offset val s3.memory)

unfoldable pub remove_slot : ℕ → List ℕ → List ℕ
remove_slot slot [] = []
remove_slot slot (x ∷ r) = if x == slot then r else x ∷ remove_slot slot r

unfoldable pub has_slot : ℕ → List ℕ → Bool
has_slot slot [] = false
has_slot slot (x ∷ r) = if x == slot then true else has_slot slot r

-- `weak_references[old].erase(slot)`, and the entry goes with its last slot.
unfoldable pub forget_weak : ℕ → ℕ → List (ℕ × List ℕ) → List (ℕ × List ℕ)
forget_weak old slot w = elim (find old w) [
  | none ↦ w
  | some slots ↦ elim (remove_slot slot slots) [ [] ↦ erase_key old w | x ∷ r ↦ put old (x ∷ r) w ]
]

-- `weak_references[target].insert(slot)`
unfoldable pub note_weak : ℕ → ℕ → List (ℕ × List ℕ) → List (ℕ × List ℕ)
note_weak target slot w = elim (find target w) [
  | none ↦ put target (slot ∷ []) w
  | some slots ↦ if has_slot slot slots then w else put target (slot ∷ slots) w
]

unfoldable pub weak_set_property : Vm → Outcome Vm
weak_set_property s = do
  (imm, s1) ← code_u32 s
  (top, s2) ← pop s1
  (val, s3) ← pop s2
  let offset = imm % 2 ^ 28
  let obj = u32 top
  if obj == 0
      then throw null_pointer
      else if ltb s3.memory.heap_size (u32 (obj + offset + 8))
      then throw property_out_of_bounds
      else do
        old ← read_u64 obj offset s3.memory
        let slot = u32 (obj + offset)
        let w1 =
            if u32 old == 0
            then s3.memory.weak_references
            else forget_weak (u32 old) slot s3.memory.weak_references
        m1 ← write_u64 obj offset val (record s3.memory { weak_references = w1 })
        let w2 = if val == 0 then w1 else note_weak (u32 val) slot w1
        ok (record s3 { memory = record m1 { weak_references = w2 } })

-- The `switch (tag)` of GET_ARRAY.
unfoldable pub read_element : ℕ → ℕ → ℕ → Memory → Outcome ℕ
read_element tag array_addr index m =
    if tag == BlockTag.array_u8
    then read_u8 array_addr index m
    else if tag == BlockTag.array_i8
    then (do v ← read_u8 array_addr index m; ok (sign_extend8 v))
    else if tag == BlockTag.array_u16
    then read_u16 array_addr (u32 (index * 2)) m
    else if tag == BlockTag.array_i16
    then (do v ← read_u16 array_addr (u32 (index * 2)) m; ok (sign_extend16 v))
    else if tag == BlockTag.array_u32
    then read_u32 array_addr (u32 (index * 4)) m
    else if tag == BlockTag.array_i32
    then (do v ← read_u32 array_addr (u32 (index * 4)) m; ok (sign_extend32 v))
    else read_u64 array_addr (u32 (index * 8)) m

unfoldable pub get_array : Vm → Outcome Vm
get_array s = do
  (i, s1) ← pop s
  (a, s2) ← pop s1
  let index = u32 i
  let array_addr = u32 a
  if array_addr == 0 then throw null_pointer else do
    len ← get_array_length array_addr s2.memory
    if leb len index then throw array_out_of_bounds else do
      tag ← get_block_tag array_addr s2.memory
      val ← read_element tag array_addr index s2.memory
      push val s2

-- The `switch (tag)` of SET_ARRAY; of an ARRAY_REF the old element loses a reference.
unfoldable pub write_element : (ℕ → Vm → Outcome Vm) → ℕ → ℕ → ℕ → ℕ → Vm → Outcome Vm
write_element decrease_reference tag array_addr index val s =
    if tag == BlockTag.array_u8 || tag == BlockTag.array_i8
    then in_memory s (write_u8 array_addr index (u8 val) s.memory)
    else if tag == BlockTag.array_u16 || tag == BlockTag.array_i16
    then in_memory s (write_u16 array_addr (u32 (index * 2)) (u16 val) s.memory)
    else if tag == BlockTag.array_u32 || tag == BlockTag.array_i32
    then in_memory s (write_u32 array_addr (u32 (index * 4)) (u32 val) s.memory)
    else if tag == BlockTag.array_ref
    then (do
      old ← read_u64 array_addr (u32 (index * 8)) s.memory
      s1 ← in_memory s (write_u64 array_addr (u32 (index * 8)) val s.memory)
      if u32 old == 0 then ok s1 else decrease_reference (u32 old) s1)
    else in_memory s (write_u64 array_addr (u32 (index * 8)) val s.memory)

unfoldable pub set_array : (ℕ → Vm → Outcome Vm) → Vm → Outcome Vm
set_array decrease_reference s = do
  (val, s1) ← pop s
  (i, s2) ← pop s1
  (a, s3) ← pop s2
  let index = u32 i
  let array_addr = u32 a
  if array_addr == 0 then throw null_pointer else do
    len ← get_array_length array_addr s3.memory
    if leb len index then throw array_out_of_bounds else do
      tag ← get_block_tag array_addr s3.memory
      s4 ← write_element decrease_reference tag array_addr index val s3
      push val s4

unfoldable pub array_length : Vm → Outcome Vm
array_length s = do
  (a, s1) ← pop s
  if u32 a == 0
      then throw null_pointer
      else do len ← get_array_length (u32 a) s1.memory; push len s1

-- The size that SIZEOF computes from tag and count.
unfoldable pub sizeof_bytes : ℕ → ℕ → ℕ
sizeof_bytes tag count =
    if tag == BlockTag.array_u16 || tag == BlockTag.array_i16
    then u32 (count * 2)
    else if tag == BlockTag.array_u32 || tag == BlockTag.array_i32
    then u32 (count * 4)
    else if tag == BlockTag.array_u64 || tag == BlockTag.array_ref || tag == BlockTag.closure
    then u32 (count * 8)
    else count

unfoldable pub sizeof : Vm → Outcome Vm
sizeof s = do
  (a, s1) ← pop s
  if u32 a == 0 then push 0 s1 else do
    tag ← get_block_tag (u32 a) s1.memory
    count ← get_array_length (u32 a) s1.memory
    push (sizeof_bytes tag count) s1
