-- ===== src/Vm/Frames.antt =====
-- A call and the return from it, `op_CALL` and `op_RETURN` of core/src/runtime.cpp.
use solix.Prelude.{
  ℕ, ◌+◌, ◌-◌, ◌^◌, ◌≤◌, ◌<◌, ◌≡◌, ◌≢◌, refl, ◌∷◌, true, false, arith, leb, ltb, ◌==◌, length,
}
use solix.Outcome.{ok}
use solix.Word.{u32}
use solix.Memory.Heap.{update}
use solix.Vm.State.{Vm, Frame, next, call_depth, push, pop}
use solix.Vm.Calls.{enter, return}

-- What a callee that was entered from `s` with `n` arguments and left in `t` returns to.
pub record Returned (s : Vm) (n : ℕ) (t t' : Vm) : Type 0 where
  pub resumes : t'.program_counter ≡ s.program_counter
  pub frames : t'.call_stack ≡ s.call_stack
  pub closure : t'.active_closure_env ≡ s.active_closure_env
  pub arguments_gone : t'.stack_pointer ≡ s.stack_pointer - n + 1
  pub result : t'.stack (s.stack_pointer - n) ≡ t.stack (t.stack_pointer - 1)
  pub below_kept : (i : ℕ) → i < s.stack_pointer - n → t'.stack i ≡ t.stack i

after_return : ℕ → Vm → Vm → Vm
after_return n s t = record t {
  stack = update t.stack (s.stack_pointer - n) (t.stack (t.stack_pointer - 1));
  stack_pointer = s.stack_pointer - n + 1;
  call_stack = s.call_stack;
  program_counter = s.program_counter;
  active_closure_env = s.active_closure_env;
}

abbrev frame_of : ℕ → Vm → Frame
frame_of n s = record {
  return_ip = s.program_counter;
  frame_pointer = s.stack_pointer - n;
  arg_count = n;
  closure_env = s.active_closure_env;
}

module _ (target env n stop : ℕ) (s s' t : Vm) (args : n ≤ s.stack_pointer)
    (small : s.stack_pointer < 2 ^ 32) (inside : 0 < call_depth s) (deeper : call_depth s ≢ stop)
    (entered : enter target env n s ≡ ok s') (same_frames : t.call_stack ≡ s'.call_stack)
    (left : s.stack_pointer - n < t.stack_pointer)
    (room : s.stack_pointer - n < t.stack_capacity) where
  entered_frames : t.call_stack ≡ frame_of n s ∷ s.call_stack
  unfolding enter
  entered_frames =
      let u : u32 (s.stack_pointer + 2 ^ 32 - n) ≡ s.stack_pointer - n = omega arith in ground arith

  -- A call with its arguments on the stack that is entered from a frame above the one where this
  -- run of the machine stops, and is left with a result and room for it, resumes behind the call
  -- instruction, in the caller's frame and closure, with the arguments replaced by the result and
  -- the stack below them as the callee left it.
  pub enter-return : (t' : Vm) × (return stop t ≡ ok (next t')) × Returned s n t t'
  unfolding return push pop after_return
  enter-return = (
    after_return n s t,
    (let b1 : ltb (s.stack_pointer - n) t.stack_pointer ≡ true = ground arith in
        let b2 : (t.stack_pointer == 0) ≡ false = ground arith in
        let b3 : (length s.call_stack == stop) ≡ false = ground arith in
        let b4 : ltb 0 (length s.call_stack) ≡ true = ground arith in
        let b5 : leb t.stack_capacity (s.stack_pointer - n) ≡ false = ground arith in
        rw (entered_frames, return, b1, b2, b3, b4, b5) refl),
    record {
      resumes = refl;
      frames = refl;
      closure = refl;
      arguments_gone = refl;
      result = ground arith;
      below_kept = λ i h. ground arith;
    },
  )
