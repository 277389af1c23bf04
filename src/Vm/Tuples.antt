-- ===== src/Vm/Tuples.antt =====
-- The tuple instructions of `RuntimeContext::run_bytecode`: a tuple holds the type tags of its
-- elements, aligned to eight bytes, and then their values.
use solix.Prelude.{
  ℕ, zero, suc, ◌+◌, ◌-◌, ◌*◌, ◌/◌, ◌%◌, ◌^◌, Bool, false, not, ◌||◌, ◌&&◌, leb, ltb, ◌==◌,
  if◌then◌else◌,
}
use solix.Outcome.{
  Outcome, ok, throw, undefined, null_pointer, tuple_out_of_bounds, cast_primitive_to_reference,
  cast_reference_to_primitive, primitive_cast, cast_to_string, cast_to_tuple, cast_to_array,
  reference_cast, class_cast, ◌>>=◌,
}
use solix.Word.{u32}
use solix.Memory.BlockTag
use solix.Memory.State.{
  Memory, read_u32, read_u64, write_u32, write_u64, get_array_length, get_block_tag,
}
use solix.Memory.References.{increase_reference}
use solix.Memory.Allocate.{dynamic_allocation}
use solix.Vm.State.{Vm, push, pop, code_u32, in_memory}
use solix.Vm.Comparison.{truth}
use solix.Vm.Classes.{instance_walk}

-- `(count * 4 + 7) & ~7` on uint32_t.
abbrev pub values_offset : ℕ → ℕ
values_offset count = u32 (u32 (count * 4) + 7) / 8 * 8

-- `tag & 0x80000000` and `tag & 0x40000000`
abbrev pub is_reference : ℕ → Bool
is_reference tag = tag / 2 ^ 31 % 2 == 1

abbrev pub is_class : ℕ → Bool
is_class tag = tag / 2 ^ 30 % 2 == 1

-- The loop that copies the type tags out of the bytecode, at the element `i` with `n` to go.
unfoldable pub write_tags : ℕ → ℕ → ℕ → Vm → Outcome Vm
write_tags tuple_addr i zero s = ok s
write_tags tuple_addr i (suc n) s = do
  (elem_tag, s1) ← code_u32 s
  s2 ← in_memory s1 (write_u32 tuple_addr (u32 (i * 4)) elem_tag s1.memory)
  write_tags tuple_addr (i + 1) n s2

-- The loop that copies the values from the stack at `base`.
unfoldable pub write_values : ℕ → ℕ → ℕ → ℕ → ℕ → Vm → Outcome Vm
write_values tuple_addr offset base i zero s = ok s
write_values tuple_addr offset base i (suc n) s = do
  s1 ← in_memory s (write_u64 tuple_addr (u32 (offset + i * 8)) (s.stack (base + i)) s.memory)
  write_values tuple_addr offset base (i + 1) n s1

-- The values lie below `sp`; with fewer on the stack the reads are outside it.
unfoldable pub new_tuple : Vm → Outcome Vm
new_tuple s = do
  (count, s1) ← code_u32 s
  if ltb s1.stack_pointer count then undefined else do
    let base = s1.stack_pointer - count
    (addr, m) ← dynamic_allocation count BlockTag.tuple s1.memory
    s2 ← write_tags addr 0 count (record s1 { memory = m })
    s3 ← write_values addr (values_offset count) base 0 count s2
    push addr (record s3 { stack_pointer = base })

-- The type tag and the value of an element.
unfoldable pub tuple_element : ℕ → ℕ → ℕ → Memory → Outcome (ℕ × ℕ)
tuple_element tuple_addr count index m = do
  tag ← read_u32 tuple_addr (u32 (index * 4)) m
  val ← read_u64 tuple_addr (u32 (values_offset count + u32 (index * 8))) m
  ok (tag, val)

unfoldable pub tuple_get : Vm → Outcome Vm
tuple_get s = do
  (i, s1) ← pop s
  (t, s2) ← pop s1
  let index = u32 i
  let tuple_addr = u32 t
  if tuple_addr == 0 then throw null_pointer else do
    count ← get_array_length tuple_addr s2.memory
    if leb count index then throw tuple_out_of_bounds else do
      (type_tag, val) ← tuple_element tuple_addr count index s2.memory
      s3 ←
          if is_reference type_tag && not (u32 val == 0)
          then in_memory s2 (increase_reference (u32 val) s2.memory)
          else ok s2
      push val s3

unfoldable pub tuple_len : Vm → Outcome Vm
tuple_len s = do
  (t, s1) ← pop s
  if u32 t == 0
      then throw null_pointer
      else do count ← get_array_length (u32 t) s1.memory; push count s1

unfoldable pub tuple_type : Vm → Outcome Vm
tuple_type s = do
  (i, s1) ← pop s
  (t, s2) ← pop s1
  let index = u32 i
  let tuple_addr = u32 t
  if tuple_addr == 0 then throw null_pointer else do
    count ← get_array_length tuple_addr s2.memory
    if leb count index
        then throw tuple_out_of_bounds
        else do type_tag ← read_u32 tuple_addr (u32 (index * 4)) s2.memory; push type_tag s2

abbrev pub is_array : ℕ → Bool
is_array tag = leb BlockTag.array_u8 tag && leb tag BlockTag.array_ref

-- The class test, whose loop both instructions write out.
unfoldable pub child_is_instance : ℕ → ℕ → ℕ → Vm → Outcome Bool
child_is_instance fuel target_tag child s = do
  cur_vtid ← read_u32 child 0 s.memory
  instance_walk fuel (target_tag % 2 ^ 30) cur_vtid s

-- The tests of TUPLE_CAST on a child that is not null.
unfoldable pub check_reference : ℕ → ℕ → ℕ → Vm → Outcome Vm
check_reference fuel target_tag child s =
    if target_tag == 0x8000000E
    then (do
      btag ← get_block_tag child s.memory
      if btag == BlockTag.array_u8 then ok s else throw cast_to_string)
    else if target_tag == 0x8000000F
    then (do
      btag ← get_block_tag child s.memory
      if btag == BlockTag.tuple then ok s else throw cast_to_tuple)
    else if target_tag == 0x80000010
    then (do
      btag ← get_block_tag child s.memory
      if is_array btag then ok s else throw cast_to_array)
    else if is_class target_tag
    then (do
      btag ← get_block_tag child s.memory
      if btag == BlockTag.object
          then (do
            matched ← child_is_instance fuel target_tag child s
            if matched then ok s else throw class_cast)
          else throw reference_cast)
    else ok s

unfoldable pub cast_element : ℕ → ℕ → ℕ → ℕ → Vm → Outcome Vm
cast_element fuel target_tag elem_tag val s =
    if is_reference target_tag
    then if not (is_reference elem_tag)
      then throw cast_primitive_to_reference
      else if u32 val == 0
      then push 0 s
      else (do
        s1 ← check_reference fuel target_tag (u32 val) s
        s2 ← in_memory s1 (increase_reference (u32 val) s1.memory)
        push (u32 val) s2)
    else if is_reference elem_tag
    then throw cast_reference_to_primitive
    else if elem_tag == target_tag
    then push val s
    else throw primitive_cast

unfoldable pub tuple_cast : ℕ → Vm → Outcome Vm
tuple_cast fuel s = do
  (target_tag, s1) ← code_u32 s
  (i, s2) ← pop s1
  (t, s3) ← pop s2
  let index = u32 i
  let tuple_addr = u32 t
  if tuple_addr == 0 then throw null_pointer else do
    count ← get_array_length tuple_addr s3.memory
    if leb count index then throw tuple_out_of_bounds else do
      (elem_tag, val) ← tuple_element tuple_addr count index s3.memory
      cast_element fuel target_tag elem_tag val s3

-- The tests of TUPLE_INSTANCEOF on a child that is not null.
unfoldable pub test_reference : ℕ → ℕ → ℕ → Vm → Outcome Bool
test_reference fuel target_tag child s =
    if target_tag == 0x8000000E
    then (do btag ← get_block_tag child s.memory; ok (btag == BlockTag.array_u8))
    else if target_tag == 0x8000000F
    then (do btag ← get_block_tag child s.memory; ok (btag == BlockTag.tuple))
    else if target_tag == 0x80000010
    then (do btag ← get_block_tag child s.memory; ok (is_array btag))
    else if is_class target_tag && not (target_tag % 2 ^ 30 == 2 ^ 30 - 1)
    then (do
      btag ← get_block_tag child s.memory
      if btag == BlockTag.object then child_is_instance fuel target_tag child s else ok false)
    else ok false

unfoldable pub test_element : ℕ → ℕ → ℕ → ℕ → Vm → Outcome Bool
test_element fuel target_tag elem_tag val s =
    if is_reference target_tag
    then if not (is_reference elem_tag) || u32 val == 0
      then ok false
      else test_reference fuel target_tag (u32 val) s
    else ok (elem_tag == target_tag)

unfoldable pub tuple_instanceof : ℕ → Vm → Outcome Vm
tuple_instanceof fuel s = do
  (target_tag, s1) ← code_u32 s
  (i, s2) ← pop s1
  (t, s3) ← pop s2
  let index = u32 i
  let tuple_addr = u32 t
  if tuple_addr == 0 then push 0 s3 else do
    count ← get_array_length tuple_addr s3.memory
    if leb count index then push 0 s3 else do
      (elem_tag, val) ← tuple_element tuple_addr count index s3.memory
      found ← test_element fuel target_tag elem_tag val s3
      push (truth found) s3
