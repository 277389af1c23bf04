-- ===== src/Vm/Release.antt =====
-- `Memory::decrease_reference`, `decrease_reference_callable`, the `object_destructor` that the
-- constructor of `RuntimeContext` installs, and `invoke_destructor`. They call one another and the
-- interpreter loop: `Engine` holds what they call, with less fuel.
use solix.Prelude.{
  ℕ, zero, suc, ◌+◌, ◌-◌, ◌*◌, ◌/◌, ◌%◌, ◌^◌, List, [], ◌∷◌, Option, none, some, Bool, true, false,
  ◌||◌, leb, ltb, ◌==◌, if◌then◌else◌,
}
use solix.Outcome.{Outcome, ok, undefined, ◌>>=◌}
use solix.Word.{u32}
use solix.Memory.BlockTag
use solix.Memory.FreeLists.{find}
use solix.Memory.State.{
  read_u32, read_u64, write_u32, write_u64, tag_of, ref_of, with_ref, get_array_length,
  get_block_tag, get_block_ref_count,
}
use solix.Memory.Deallocate.{deallocate}
use solix.Vm.State.{Vm, call_depth, push, in_memory}
use solix.Vm.Objects.{has_slot, remove_slot}
use solix.Vm.Tuples.{values_offset, is_reference}

pub record Engine : Type 0 where
  pub decrease_reference : ℕ → Vm → Outcome Vm
  pub decrease_reference_callable : ℕ → Vm → Outcome Vm
  -- `run_bytecode(stop_call_depth)`
  pub run_bytecode : ℕ → Vm → Outcome Vm

-- `(mask >> i) & 1`; a shift by 64 or more is undefined.
unfoldable pub mask_bit : ℕ → ℕ → Outcome Bool
mask_bit mask i = if ltb i 64 then ok (mask / 2 ^ i % 2 == 1) else undefined

-- Writes a new reference count into a header.
unfoldable pub set_ref : ℕ → ℕ → ℕ → Vm → Outcome Vm
set_ref header_addr tag_and_ref ref_count s =
    in_memory s (write_u32 header_addr 4 (with_ref tag_and_ref ref_count) s.memory)

module _ (e : Engine) where
  -- The loop over the captures of a closure, at the capture `i` with `n` to go.
  unfoldable pub release_captures : ℕ → ℕ → ℕ → ℕ → ℕ → Vm → Outcome Vm
  release_captures env ref_mask callable_mask i zero s = ok s
  release_captures env ref_mask callable_mask i (suc n) s = do
    is_ref ← mask_bit ref_mask i
    is_callable ← mask_bit callable_mask i
    s1 ←
        if is_ref
        then (do val ← read_u64 env (u32 ((2 + i) * 8)) s.memory; e.decrease_reference (u32 val) s)
        else if is_callable
        then (do
          val ← read_u64 env (u32 ((2 + i) * 8)) s.memory
          e.decrease_reference_callable (val / 2 ^ 32) s)
        else ok s
    release_captures env ref_mask callable_mask (i + 1) n s1

  unfoldable pub release_closure : ℕ → Vm → Outcome Vm
  release_closure env s = do
    ref_mask ← read_u64 env 0 s.memory
    callable_mask ← read_u64 env 8 s.memory
    count ← read_u32 (env - 8) 0 s.memory
    release_captures env ref_mask callable_mask 0 (count - 2) s

  unfoldable pub decrease_reference_callable : ℕ → Vm → Outcome Vm
  decrease_reference_callable env s = if ltb env 8 || leb s.memory.heap_size env then ok s else do
    tag_and_ref ← read_u32 (env - 8) 4 s.memory
    if ref_of tag_and_ref == 0 then ok s else do
      s1 ← set_ref (env - 8) tag_and_ref (ref_of tag_and_ref - 1) s
      if ref_of tag_and_ref == 1
          then (do s2 ← release_closure env s1; in_memory s2 (deallocate env s2.memory))
          else ok s1

  -- The frames of the machine are a vector of 65536.
  unfoldable pub invoke_destructor : ℕ → ℕ → Vm → Outcome Vm
  invoke_destructor obj_addr dtor_ip s = if dtor_ip == 0 || obj_addr == 0 then ok s else do
    s1 ← push obj_addr s
    if leb 65536 (call_depth s1) then undefined else do
      s2 ← e.run_bytecode (call_depth s) (record s1 {
        call_stack =
            record {
              return_ip = 0;
              frame_pointer = s1.stack_pointer - 1;
              arg_count = 1;
              closure_env = 0;
            }
            ∷ s1.call_stack;
        program_counter = dtor_ip;
        active_closure_env = 0;
      })
      ok (record s2 {
        program_counter = s.program_counter;
        active_closure_env = s.active_closure_env;
      })

  -- The reference at `base + offset` is cleared and released, if it is inside the heap.
  unfoldable pub release_slot : ℕ → ℕ → Vm → Outcome Vm
  release_slot base offset s = if ltb s.memory.heap_size (u32 (base + offset + 8)) then ok s else do
    val ← read_u64 base offset s.memory
    if u32 val == 0 then ok s else do
      s1 ← in_memory s (write_u64 base offset 0 s.memory)
      e.decrease_reference (u32 val) s1

  unfoldable pub release_fields : ℕ → List ℕ → Vm → Outcome Vm
  release_fields address [] s = ok s
  release_fields address (offset ∷ fields) s = do
    s1 ← release_slot address offset s
    release_fields address fields s1

  unfoldable pub release_elements : ℕ → ℕ → ℕ → Vm → Outcome Vm
  release_elements address i zero s = ok s
  release_elements address i (suc n) s = do
    s1 ← release_slot address (u32 (i * 8)) s
    release_elements address (i + 1) n s1

  unfoldable pub release_tuple : ℕ → ℕ → ℕ → ℕ → Vm → Outcome Vm
  release_tuple address offset i zero s = ok s
  release_tuple address offset i (suc n) s = do
    type_tag ← read_u32 address (u32 (i * 4)) s.memory
    s1 ←
        if is_reference type_tag
        then release_slot (u32 (address + offset)) (u32 (i * 8)) s
        else ok s
    release_tuple address offset (i + 1) n s1

  -- The destructor of the class runs with one reference; `true` says that it left another one.
  unfoldable pub run_destructor : ℕ → ℕ → Vm → Outcome (Bool × Vm)
  run_destructor address dtor_ip s = do
    let header_addr = u32 (address + 2 ^ 32 - 8)
    before ← read_u32 header_addr 4 s.memory
    s1 ←
        set_ref header_addr before 1
          (record s { active_destructors = address ∷ s.active_destructors })
    s2 ← invoke_destructor address dtor_ip s1
    let s3 = record s2 { active_destructors = remove_slot address s2.active_destructors }
    after ← read_u32 header_addr 4 s3.memory
    if ltb 1 (ref_of after)
        then (do s4 ← set_ref header_addr after (ref_of after - 1) s3; ok (true, s4))
        else (do s4 ← set_ref header_addr after 0 s3; ok (false, s4))

  -- The destructor that is to run: there is one, and it is not running on this object.
  unfoldable pub pending_destructor : ℕ → ℕ → Vm → Option ℕ
  pending_destructor address vtable_id s = elim (find vtable_id s.vtable_destructors) [
    | none ↦ none
    | some dtor_ip ↦
        if dtor_ip == 0 || has_slot address s.active_destructors then none else some dtor_ip
  ]

  unfoldable pub destroy_object : ℕ → Vm → Outcome Vm
  destroy_object address s = do
    vtable_id ← read_u32 address 0 s.memory
    (resurrected, s1) ← elim (pending_destructor address vtable_id s) [
      | none ↦ ok (false, s)
      | some dtor_ip ↦ run_destructor address dtor_ip s
    ]
    if resurrected then ok s1 else elim (find vtable_id s1.vtable_ref_fields) [
      | none ↦ ok s1
      | some fields ↦ release_fields address fields s1
    ]

  -- The lambda `memory.object_destructor`.
  unfoldable pub object_destructor : ℕ → Vm → Outcome Vm
  object_destructor address s = if address == 0 || leb s.memory.heap_size address then ok s else do
    tag ← get_block_tag address s.memory
    if tag == BlockTag.object
        then destroy_object address s
        else if tag == BlockTag.array_ref
        then (do len ← get_array_length address s.memory; release_elements address 0 len s)
        else if tag == BlockTag.tuple
        then (do
          count ← get_array_length address s.memory
          release_tuple address (values_offset count) 0 count s)
        else ok s

  unfoldable pub decrease_reference : ℕ → Vm → Outcome Vm
  decrease_reference address s =
      if ltb address 8 || leb s.memory.heap_size address then ok s else do
        tag_and_ref ← read_u32 (address - 8) 4 s.memory
        if ref_of tag_and_ref == 0 then ok s else do
          s1 ← set_ref (address - 8) tag_and_ref (ref_of tag_and_ref - 1) s
          if ref_of tag_and_ref == 1
              then (do
                s2 ←
                    if tag_of tag_and_ref == BlockTag.closure
                    then release_closure address s1
                    else object_destructor address s1
                ref_count ← get_block_ref_count address s2.memory
                if ref_count == 0 then in_memory s2 (deallocate address s2.memory) else ok s2)
              else ok s1
