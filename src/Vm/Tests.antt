-- ===== src/Vm/Tests.antt =====
-- Runs of the machine on small states.
use solix.Prelude.{
  ℕ, ◌+◌, ◌-◌, ◌*◌, ◌^◌, ◌<◌, ◌≡◌, ◌≢◌, refl, ◌⊎◌, inl, inr, ◌↔◌, List, [], ◌∷◌, arith, true, false,
  ◌==◌, if◌then◌else◌,
}
use solix.Outcome.{Outcome, ok, ◌>>=◌}
use solix.Word.{u8, u32, u64}
use solix.Memory.Heap.{store, load, update}
use solix.Memory.FreeLists.{find}
use solix.Memory.State.{Memory}
use solix.Memory.References.{increase_reference}
use solix.Memory.BlockTag
use solix.Memory.Weak.{slots_of}
use solix.Memory.DeallocateSafe.{Deallocated}
use solix.Memory.Tests.{one_block, one_block-IsTiled, header_at}
use solix.Vm.LastReference.{decrease_reference-Deallocated}
use solix.Vm.State.{Vm, Frame, next, call_depth, push, pop}
use solix.Vm.Arithmetic.{
  add_u64, mul_u64, add_i64, sub_i64, quotient_i64, remainder_i64, magnitude, is_negative,
}
use solix.Vm.Calls.{enter, return, call, pack_closure}
use solix.Vm.Classes.{no_vtable, base_of, instance_walk}
use solix.Vm.Comparison.{lt_i64}
use solix.Vm.Conversion.{sign_extend8}
use solix.Vm.Exceptions.{jmp_to_outer_cleanup}
use solix.Vm.Objects.{property_bytes, read_property, write_property, read_element, write_element}
use solix.Vm.Release.{Engine, decrease_reference}
use solix.Vm.Frames.{Returned, enter-return}
use solix.Vm.Unwinding.{Resumed, handler, jmp_to_outer_cleanup-outer, jmp_to_outer_cleanup-raises}
use solix.Vm.Division.{quotient-remainder}
use solix.Vm.Counting.{HasHeader, SameBut, increase-decrease}
use solix.Vm.Inheritance.{Inherits, instance_walk-Inherits}
use solix.Vm.Elements.{
  SameOutside, property_value, read-write_property, element_value, read-write_element,
}
use solix.Vm.Closures.{pack_closure-call}
use solix.Vm.Subtraction.{sub_i64-add_i64}
use solix.Vm.Words.{signed64, ◌<ℤ◌, lt_i64_iff, sign_extend8_lem}

-- An object at 72 with the tag 1 and the reference count 2, in a heap of 128 bytes.
abbrev heap_with_object : Memory
heap_with_object = record {
  heap = store 4 68 (1 * 2 ^ 28 + 2) (λ _. 0);
  heap_size = 128;
  next_free_static = 8;
  next_free_dynamic = 96;
  free_by_addr = [];
  free_by_size = [];
  free_blocks = [];
  weak_references = [];
  currently_used_words = 4;
  peak_used_words = 4;
  live_objects_count = 1;
}

abbrev main_frame : Frame
main_frame = record { return_ip = 0; frame_pointer = 0; arg_count = 0; closure_env = 0 }

abbrev frame_at : ℕ → Frame
frame_at ip = record { return_ip = ip; frame_pointer = 1; arg_count = 0; closure_env = 0 }

-- A machine in its main function, with an environment and a code address on the operand stack. The
-- class 2 is derived from the class 1.
abbrev pub machine : Vm
machine = record {
  memory = heap_with_object;
  stack = λ i. if i == 0 then 72 else 40;
  stack_capacity = 16;
  stack_pointer = 2;
  bytecode = [];
  program_counter = 20;
  exit_code = 0;
  entry_method_called = false;
  call_stack = main_frame ∷ [];
  active_closure_env = 9;
  active_exception = 0;
  return_to_cleanup = (20, 50) ∷ (30, 60) ∷ [];
  native_table = [];
  native_registry = [];
  vtables = (1, 8 ∷ []) ∷ (2, 8 ∷ []) ∷ [];
  vtable_bases = (1, no_vtable) ∷ (2, 1) ∷ [];
  itables = [];
  vtable_ref_fields = [];
  vtable_destructors = [];
  active_destructors = [];
  instruction_budget = 0;
  instructions_executed = 0;
}

-- The machine in the function at 40, called with one argument.
abbrev callee : Vm
callee = record machine {
  call_stack =
      record { return_ip = 20; frame_pointer = 1; arg_count = 1; closure_env = 9 }
      ∷ main_frame
      ∷ [];
  active_closure_env = 7;
  program_counter = 40;
}

-- The same with the result 99 on the operand stack.
abbrev finished : Vm
finished = record callee {
  stack = update callee.stack 2 99;
  stack_pointer = 3;
  program_counter = 44;
}

enter_example : enter 40 7 1 machine ≡ ok callee
unfolding enter
enter_example = refl

enter-return_example :
    (t' : Vm) × (return 0 finished ≡ ok (next t')) × Returned machine 1 finished t'
enter-return_example =
    enter-return 40 7 1 0 machine callee finished (ground arith) (ground arith) (ground arith)
      (ground arith) enter_example refl (ground arith) (ground arith)

abbrev nothing_released : ℕ → Vm → Outcome Vm
nothing_released address s = ok s

abbrev calls_from : List Frame → Vm
calls_from frames = record machine { call_stack = frames }

jmp_to_outer_cleanup-outer_example :
    (t : Vm) × (jmp_to_outer_cleanup nothing_released
        (calls_from (frame_at 25 ∷ frame_at 30 ∷ main_frame ∷ []))
      ≡ ok t)
    × Resumed 60
        (frame_at 30 ∷ main_frame ∷ [])
        (calls_from (frame_at 25 ∷ frame_at 30 ∷ main_frame ∷ []))
        t
jmp_to_outer_cleanup-outer_example =
    jmp_to_outer_cleanup-outer nothing_released (frame_at 25) (frame_at 30) (main_frame ∷ [])
      (calls_from (frame_at 25 ∷ frame_at 30 ∷ main_frame ∷ [])) 60 (frame_at 30 ∷ main_frame ∷ [])
      refl (unfold find in refl) (unfold handler find in refl)

jmp_to_outer_cleanup-raises_example :
    jmp_to_outer_cleanup nothing_released (calls_from (frame_at 25 ∷ frame_at 35 ∷ main_frame ∷ []))
    ≢ ok machine
jmp_to_outer_cleanup-raises_example =
    jmp_to_outer_cleanup-raises nothing_released (frame_at 25) (frame_at 35) (main_frame ∷ [])
      (calls_from (frame_at 25 ∷ frame_at 35 ∷ main_frame ∷ [])) machine refl
      (unfold handler find in refl)

abbrev minus : ℕ → ℕ
minus n = 2 ^ 64 - n

quotient-remainder_example :
    (add_u64 (mul_u64 (quotient_i64 (minus 7) 2) 2) (remainder_i64 (minus 7) 2) ≡ minus 7)
    × (magnitude (remainder_i64 (minus 7) 2) < magnitude 2)
    × ((is_negative (remainder_i64 (minus 7) 2) ≡ is_negative (minus 7))
        ⊎ (remainder_i64 (minus 7) 2 ≡ 0))
quotient-remainder_example =
    quotient-remainder (minus 7) 2 (ground arith) (ground arith) (ground arith)

header_example : HasHeader 72 1 2 heap_with_object.heap
unfolding store load
header_example = refl

abbrev idle : Engine
idle = record {
  decrease_reference = nothing_released;
  decrease_reference_callable = nothing_released;
  run_bytecode = nothing_released;
}

increase-decrease_example :
    (m' : Memory) × ((do
      m ← increase_reference 72 machine.memory
      decrease_reference idle 72 (record machine { memory = m }))
      ≡ ok (record machine { memory = m' }))
    × HasHeader 72 1 2 m'.heap
    × SameBut 72 heap_with_object.heap m'.heap
increase-decrease_example =
    increase-decrease 72 1 2 (ground arith) (ground arith) (ground arith) idle machine
      (ground arith) (ground arith) (ground arith) header_example

abbrev depth_of : ℕ → ℕ
depth_of c = if c == no_vtable then 0 else if c == 2 then 2 else 1

depth_falls : (c : ℕ) → c ≢ no_vtable → depth_of (base_of c machine) < depth_of c
unfolding find
depth_falls c h = ground arith

instance_walk-Inherits_example :
    ((instance_walk 3 1 2 machine ≡ ok true) × Inherits machine 1 2)
    ⊎ ((instance_walk 3 1 2 machine ≡ ok false) × ¬ Inherits machine 1 2)
instance_walk-Inherits_example =
    instance_walk-Inherits 1 machine depth_of depth_falls 3 2 (ground arith)

read-write_property_example :
    (m' : Memory) × (write_property 5 72 8 (minus 3) heap_with_object ≡ ok m')
    × (read_property 5 72 8 m' ≡ ok (property_value 5 (minus 3)))
    × SameOutside (u32 (72 + 8)) (property_bytes 5) heap_with_object m'
read-write_property_example =
    read-write_property 5 72 8 (minus 3) heap_with_object (inr (inl (inr refl))) (ground arith)
      (ground arith)

pack_closure-call_example :
    (t : Vm) × ((do s1 ← pack_closure machine; s2 ← push 0 s1; call s2) ≡ ok t)
    × (t.program_counter ≡ 40)
    × (t.active_closure_env ≡ 72)
    × (t.stack_pointer ≡ 0)
    × (call_depth t ≡ 2)
pack_closure-call_example =
    pack_closure-call 40 72 0 machine (ground arith) (ground arith) (ground arith) (ground arith)
      (ground arith) (ground arith) refl refl (ground arith)

lt_i64_iff_example : (lt_i64 (minus 1) 5 ≡ true) ↔ (signed64 (minus 1) <ℤ signed64 5)
lt_i64_iff_example = lt_i64_iff (minus 1) 5 (ground arith) (ground arith)

sub_i64-add_i64_example :
    (t : Vm) × ((do
      s1 ← push 3 machine
      s2 ← push 5 s1
      s3 ← sub_i64 s2
      s4 ← push 5 s3
      add_i64 s4)
      ≡ ok t)
    × (pop t ≡ ok (3, record machine { stack = t.stack }))
    × ((i : ℕ) → i < machine.stack_pointer → t.stack i ≡ machine.stack i)
sub_i64-add_i64_example = sub_i64-add_i64 3 5 machine (ground arith) (ground arith) (ground arith)

sign_extend8_lem_example :
    (u8 (sign_extend8 200) ≡ u8 200)
    × (sign_extend8 (sign_extend8 200) ≡ sign_extend8 200)
    × (u64 (sign_extend8 200 + 2 ^ 7) < 2 ^ 8)
sign_extend8_lem_example = sign_extend8_lem 200

-- The machine with an array of eight bytes as its only block.
abbrev last_reference : Vm
last_reference = record machine { memory = one_block }

one_reference : HasHeader (64 + 8) BlockTag.array_u8 1 one_block.heap
unfolding store load
one_reference = refl

decrease_reference-Deallocated_example :
    (m' : Memory) × (decrease_reference idle (64 + 8) last_reference
      ≡ ok (record last_reference { memory = m' }))
    × Deallocated [] (slots_of (64 + 8) one_block) one_block m'
decrease_reference-Deallocated_example =
    decrease_reference-Deallocated idle [] 64 8 BlockTag.array_u8 last_reference (ground arith)
      ((ground arith, ground arith), (ground arith, ground arith)) one_block-IsTiled.layout
      header_at one_reference (unfold find in tt)

read-write_element_example :
    (m' : Memory) × (write_element nothing_released BlockTag.array_i16 72 3 (minus 2) last_reference
      ≡ ok (record last_reference { memory = m' }))
    × (read_element BlockTag.array_i16 72 3 m' ≡ ok (element_value BlockTag.array_i16 (minus 2)))
    × SameOutside (u32 (72 + u32 (3 * 2))) 2 one_block m'
read-write_element_example =
    read-write_element nothing_released 72 3 (minus 2) last_reference (ground arith) (ground arith)
      BlockTag.array_i16 (ground arith) (ground arith)
