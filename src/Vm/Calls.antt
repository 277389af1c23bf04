-- ===== src/Vm/Calls.antt =====
-- The call and return instructions of `RuntimeContext::run_bytecode`, and its closures.
use solix.Prelude.{
  ℕ, zero, suc, ◌+◌, ◌-◌, ◌*◌, ◌/◌, ◌%◌, ◌^◌, [], ◌∷◌, none, some, true, get_elem?, length, leb,
  ltb, ◌==◌, if◌then◌else◌,
}
use solix.Outcome.{
  Outcome, ok, throw, undefined, null_pointer, null_function_pointer, call_depth_exceeded,
  resolution_failed, frame_out_of_bounds, ◌>>=◌,
}
use solix.Word.{u32}
use solix.Memory.Heap.{update}
use solix.Memory.FreeLists.{find}
use solix.Memory.State.{read_u32, read_u64}
use solix.Memory.References.{increase_reference}
use solix.Vm.State.{Vm, Step, next, stop, call_depth, push, pop, code_u32, top_frame, in_memory}

-- `call_stack[call_depth++] = Frame(program_counter, new_frame_pointer, arg_count,
-- active_closure_env)` behind the check of the depth, and the jump.
unfoldable pub enter : ℕ → ℕ → ℕ → Vm → Outcome Vm
enter target_ip env arg_count s =
    if leb 65536 (call_depth s)
    then throw call_depth_exceeded
    else ok (record s {
      call_stack =
          record {
            return_ip = s.program_counter;
            frame_pointer = u32 (s.stack_pointer + 2 ^ 32 - arg_count);
            arg_count = arg_count;
            closure_env = s.active_closure_env;
          }
          ∷ s.call_stack;
      active_closure_env = env;
      program_counter = target_ip;
    })

unfoldable pub call : Vm → Outcome Vm
call s = do
  (n, s1) ← pop s
  (callable, s2) ← pop s1
  let target_ip = callable % 2 ^ 32
  let env_address = callable / 2 ^ 32
  if target_ip == 0
      then throw null_function_pointer
      else enter target_ip env_address (u32 n) (record s2 {
        entry_method_called = if call_depth s2 == 1 then true else s2.entry_method_called;
      })

-- `stack[current_sp_idx - arg_count]`, at an index of uint32_t.
unfoldable pub receiver : ℕ → Vm → Outcome ℕ
receiver arg_count s =
    let i = u32 (s.stack_pointer + 2 ^ 32 - arg_count) in
    if ltb i s.stack_capacity then ok (u32 (s.stack i)) else undefined

unfoldable pub virtual_target : ℕ → ℕ → Vm → Outcome ℕ
virtual_target vtable_id vtable_index s = elim (find vtable_id s.vtables) [
  | none ↦ throw resolution_failed
  | some vtable ↦ elim (get_elem? vtable vtable_index) [
    | none ↦ throw resolution_failed
    | some target ↦ ok target
  ]
]

unfoldable pub call_virtual : Vm → Outcome Vm
call_virtual s = do
  (vtable_index, s1) ← code_u32 s
  (arg_count, s2) ← code_u32 s1
  obj ← receiver arg_count s2
  if obj == 0 then throw null_pointer else do
    vtable_id ← read_u32 obj 0 s2.memory
    target_ip ← virtual_target vtable_id vtable_index s2
    enter target_ip 0 arg_count s2

unfoldable pub interface_slot : ℕ → ℕ → ℕ → Vm → Outcome ℕ
interface_slot class_vtable_id iface_id index s = elim (find class_vtable_id s.itables) [
  | none ↦ throw resolution_failed
  | some ifaces ↦ elim (find iface_id ifaces) [
    | none ↦ throw resolution_failed
    | some slots ↦ elim (get_elem? slots index) [
      | none ↦ throw resolution_failed
      | some slot ↦ ok slot
    ]
  ]
]

unfoldable pub call_interface : Vm → Outcome Vm
call_interface s = do
  (iface_id, s1) ← code_u32 s
  (index, s2) ← code_u32 s1
  (arg_count, s3) ← code_u32 s2
  obj ← receiver arg_count s3
  if obj == 0 then throw null_pointer else do
    class_vtable_id ← read_u32 obj 0 s3.memory
    vtable_index ← interface_slot class_vtable_id iface_id index s3
    target_ip ← virtual_target class_vtable_id vtable_index s3
    enter target_ip 0 arg_count s3

-- RETURN: the frame's stack is dropped; at `stop_call_depth` this run of the machine ends.
unfoldable pub return : ℕ → Vm → Outcome Step
return stop_call_depth s = elim s.call_stack [
  | [] ↦ undefined
  | frame ∷ callers ↦ do
    (ret_val, s1) ← if ltb frame.frame_pointer s.stack_pointer then pop s else ok (0, s)
    let s2 = record s1 { call_stack = callers; stack_pointer = frame.frame_pointer }
    if length callers == stop_call_depth
        then ok (stop (if stop_call_depth == 0 then record s2 { exit_code = u32 ret_val } else s2))
        else if ltb 0 (length callers)
        then (do
          s3 ← push ret_val s2
          ok (
              next (record s3 {
                program_counter = frame.return_ip;
                active_closure_env = frame.closure_env;
              })))
        else ok (stop (record s2 { exit_code = u32 ret_val }))
]

unfoldable pub pack_closure : Vm → Outcome Vm
pack_closure s = do (ip, s1) ← pop s; (env, s2) ← pop s1; push (u32 env * 2 ^ 32 + u32 ip) s2

-- The loop of UNPACK_CAPTURES over the capture `i`, with `n` to go.
unfoldable pub unpack_loop : ℕ → ℕ → ℕ → ℕ → Vm → Outcome Vm
unpack_loop env base i zero s = ok s
unpack_loop env base i (suc n) s =
    let slot = u32 (base + i) in
    if leb s.stack_capacity slot then throw frame_out_of_bounds else do
      val ← read_u64 env (u32 ((2 + i) * 8)) s.memory
      unpack_loop env base (i + 1) n (record s { stack = update s.stack slot val })

unfoldable pub unpack_captures : Vm → Outcome Vm
unpack_captures s = do
  (dest_slot, s1) ← code_u32 s
  (count, s2) ← code_u32 s1
  if s2.active_closure_env == 0 then ok s2 else do
    f ← top_frame s2
    unpack_loop s2.active_closure_env (u32 (f.frame_pointer + dest_slot)) 0 count s2

unfoldable pub inc_ref : Vm → Outcome Vm
inc_ref s = do
  (a, s1) ← pop s
  s2 ← in_memory s1 (increase_reference (u32 a) s1.memory)
  push (u32 a) s2

unfoldable pub inc_ref_callable : Vm → Outcome Vm
inc_ref_callable s = do
  (val, s1) ← pop s
  s2 ←
      if val / 2 ^ 32 == 0
      then ok s1
      else in_memory s1 (increase_reference (val / 2 ^ 32) s1.memory)
  push val s2
