-- ===== src/Vm/Exceptions.antt =====
-- The exception instructions of `RuntimeContext::run_bytecode`.
use solix.Prelude.{ℕ, ◌^◌, ◌-◌, List, [], ◌∷◌, none, some, ◌==◌, if◌then◌else◌}
use solix.Outcome.{Outcome, ok, throw, null_pointer, unhandled_exception, ◌>>=◌}
use solix.Word.{u32}
use solix.Memory.BlockTag
use solix.Memory.FreeLists.{find, put}
use solix.Memory.State.{get_block_tag, read_u32}
use solix.Memory.References.{increase_reference}
use solix.Vm.State.{Vm, Frame, push, pop, code_u32, in_memory}

unfoldable pub register_return_cleanup : Vm → Outcome Vm
register_return_cleanup s = do
  (ret_ip, s1) ← code_u32 s
  (cleanup_ip, s2) ← code_u32 s1
  ok (record s2 { return_to_cleanup = put ret_ip cleanup_ip s2.return_to_cleanup })

-- Drops the reference to the active exception, if there is one.
unfoldable pub drop_exception : (ℕ → Vm → Outcome Vm) → Vm → Outcome Vm
drop_exception decrease_reference s =
    if s.active_exception == 0
    then ok s
    else do s1 ← decrease_reference s.active_exception s; ok (record s1 { active_exception = 0 })

-- `throw_unhandled`; the message reads the header of the exception.
unfoldable pub throw_unhandled : (ℕ → Vm → Outcome Vm) → Vm → Outcome Vm
throw_unhandled decrease_reference s = do
  tag ←
      if s.active_exception == 0 then ok BlockTag.raw else get_block_tag s.active_exception s.memory
  _ ← if tag == BlockTag.object then read_u32 s.active_exception 0 s.memory else ok 0
  _ ← drop_exception decrease_reference s
  throw unhandled_exception

-- Leaves a frame: its stack is dropped and its caller's closure is active again.
abbrev pub leave : Frame → List Frame → Vm → Vm
leave frame callers s = record s {
  call_stack = callers;
  stack_pointer = frame.frame_pointer;
  active_closure_env = frame.closure_env;
}

-- The `while (true)` loop: out of the frames until a return address has a cleanup.
unfoldable pub unwind : (ℕ → Vm → Outcome Vm) → List Frame → Vm → Outcome Vm
unwind decrease_reference [] s = throw_unhandled decrease_reference s
unwind decrease_reference (caller ∷ callers) s =
    let rest = unwind decrease_reference callers (leave caller callers s) in
    elim (find caller.return_ip s.return_to_cleanup) [
      | some cleanup_ip ↦ ok (record s { program_counter = cleanup_ip })
      | none ↦ rest
    ]

unfoldable pub jmp_to_outer_cleanup : (ℕ → Vm → Outcome Vm) → Vm → Outcome Vm
jmp_to_outer_cleanup decrease_reference s = elim s.call_stack [
  | [] ↦ throw_unhandled decrease_reference s
  | frame ∷ callers ↦ elim callers [
    | [] ↦ throw_unhandled decrease_reference (leave frame [] s)
    | f ∷ fs ↦ elim (find frame.return_ip s.return_to_cleanup) [
      | some cleanup_ip ↦ ok (record (leave frame (f ∷ fs) s) { program_counter = cleanup_ip })
      | none ↦ unwind decrease_reference (f ∷ fs) (leave frame (f ∷ fs) s)
    ]
  ]
]

unfoldable pub throw_exception : (ℕ → Vm → Outcome Vm) → Vm → Outcome Vm
throw_exception decrease_reference s = do
  (exc, s1) ← pop s
  if exc == 0 then throw null_pointer else do
    s2 ← in_memory s1 (increase_reference (u32 exc) s1.memory)
    (innermost_cleanup_ip, s3) ← code_u32 (record s2 { active_exception = u32 exc })
    if innermost_cleanup_ip == 2 ^ 32 - 1
        then jmp_to_outer_cleanup decrease_reference s3
        else ok (record s3 { program_counter = innermost_cleanup_ip })

unfoldable pub get_exception : Vm → Outcome Vm
get_exception s = push s.active_exception s

unfoldable pub clear_exception : (ℕ → Vm → Outcome Vm) → Vm → Outcome Vm
clear_exception decrease_reference s = drop_exception decrease_reference s
