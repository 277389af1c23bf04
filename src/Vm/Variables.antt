-- ===== src/Vm/Variables.antt =====
-- The instructions for locals, globals and jumps of `RuntimeContext::run_bytecode`.
use solix.Prelude.{ℕ, ◌+◌, ◌*◌, ◌-◌, leb, ltb, ◌==◌, if◌then◌else◌, suc, zero}
use solix.Outcome.{Outcome, ok, throw, frame_out_of_bounds, frame_overflow, ◌>>=◌}
use solix.Word.{u32}
use solix.Memory.Heap.{update}
use solix.Memory.State.{read_u64, write_u64}
use solix.Vm.State.{Vm, push, pop, code_u32, top_frame, in_memory}

unfoldable pub get_local : Vm → Outcome Vm
get_local s = do
  (index, s1) ← code_u32 s
  f ← top_frame s1
  let slot = u32 (f.frame_pointer + index)
  if leb s1.stack_capacity slot then throw frame_out_of_bounds else push (s1.stack slot) s1

unfoldable pub set_local : Vm → Outcome Vm
set_local s = do
  (index, s1) ← code_u32 s
  f ← top_frame s1
  let slot = u32 (f.frame_pointer + index)
  if leb s1.stack_capacity slot
      then throw frame_out_of_bounds
      else do (val, s2) ← pop s1; ok (record s2 { stack = update s2.stack slot val })

unfoldable pub get_global : Vm → Outcome Vm
get_global s = do (idx, s1) ← code_u32 s; val ← read_u64 (u32 (idx * 8)) 0 s1.memory; push val s1

unfoldable pub set_global : Vm → Outcome Vm
set_global s = do
  (idx, s1) ← code_u32 s
  (val, s2) ← pop s1
  in_memory s2 (write_u64 (u32 (idx * 8)) 0 val s2.memory)

unfoldable pub jump : Vm → Outcome Vm
jump s = do (addr, s1) ← code_u32 s; ok (record s1 { program_counter = addr })

unfoldable pub jump_if_false : Vm → Outcome Vm
jump_if_false s = do
  (addr, s1) ← code_u32 s
  (c, s2) ← pop s1
  ok (if c == 0 then record s2 { program_counter = addr } else s2)

unfoldable pub jump_if_true : Vm → Outcome Vm
jump_if_true s = do
  (addr, s1) ← code_u32 s
  (c, s2) ← pop s1
  ok (if c == 0 then s2 else record s2 { program_counter = addr })

-- `std::fill(sp, sp + diff, 0); sp += diff;`
unfoldable pub push_zeros : ℕ → Vm → Vm
push_zeros zero s = s
push_zeros (suc n) s =
    push_zeros n
      (record s { stack = update s.stack s.stack_pointer 0; stack_pointer = s.stack_pointer + 1 })

unfoldable pub alloc_frame : Vm → Outcome Vm
alloc_frame s = do
  (frame_size, s1) ← code_u32 s
  f ← top_frame s1
  if ltb f.arg_count frame_size
      then if ltb s1.stack_capacity (s1.stack_pointer + (frame_size - f.arg_count))
        then throw frame_overflow
        else ok (push_zeros (frame_size - f.arg_count) s1)
      else ok s1
