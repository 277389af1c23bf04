-- ===== src/Vm/Closures.antt =====
-- PACK_CLOSURE and CALL of core/src/runtime.cpp: a callable is its environment and its code.
use solix.Prelude.{
  ℕ, ◌+◌, ◌-◌, ◌*◌, ◌/◌, ◌%◌, ◌^◌, ◌≤◌, ◌<◌, ◌≡◌, refl, true, false, arith, leb, ◌==◌,
  if◌then◌else◌, ◌∷◌,
}
use solix.Outcome.{ok, ◌>>=◌}
use solix.Word.{u32}
use solix.Memory.Heap.{update}
use solix.Vm.State.{Vm, call_depth, push, pop}
use solix.Vm.Calls.{enter, call, pack_closure}

-- A closure that is packed from a code address that is not null and an environment and then
-- called, both of 32 bits, with a number of arguments on top and below the depth limit, enters
-- that code with that environment, and the stack is as before both were pushed.
pub pack_closure-call :
    (ip env n : ℕ) (s : Vm)
    → 0 < ip
    → ip < 2 ^ 32
    → env < 2 ^ 32
    → n < 2 ^ 32
    → 2 ≤ s.stack_pointer
    → s.stack_pointer ≤ s.stack_capacity
    → s.stack (s.stack_pointer - 1) ≡ ip
    → s.stack (s.stack_pointer - 1 - 1) ≡ env
    → call_depth s < 65536
    → (t : Vm) × ((do s1 ← pack_closure s; s2 ← push n s1; call s2) ≡ ok t)
      × (t.program_counter ≡ ip)
      × (t.active_closure_env ≡ env)
      × (t.stack_pointer ≡ s.stack_pointer - 2)
      × (call_depth t ≡ call_depth s + 1)
unfolding pack_closure call push pop enter
pack_closure-call ip env n s pos hi he hn two cap ti te d =
    let k : ℕ = s.stack_pointer - 1 - 1 in
    let v : ℕ = env * 2 ^ 32 + ip in
    let st = update (update s.stack k v) (k + 1) n in
    let b0 : (s.stack_pointer == 0) ≡ false = ground arith in
    let b1 : (s.stack_pointer - 1 == 0) ≡ false = ground arith in
    let b2 : leb s.stack_capacity k ≡ false = ground arith in
    let b3 : leb s.stack_capacity (k + 1) ≡ false = ground arith in
    let b4 : (k + 1 + 1 == 0) ≡ false = ground arith in
    let b5 : (k + 1 == 0) ≡ false = ground arith in
    let b6 : (ip == 0) ≡ false = ground arith in
    let b7 : leb 65536 (call_depth s) ≡ false = ground arith in
    let ui : u32 ip ≡ ip = omega arith in
    let ue : u32 env ≡ env = omega arith in
    let un : u32 n ≡ n = omega arith in
    let c1 : k + 1 + 1 - 1 ≡ k + 1 = omega arith in
    let c2 : k + 1 - 1 ≡ k = omega arith in
    let s1 : st (k + 1) ≡ n = ground arith in
    let s2 : st k ≡ v = ground arith in
    let v1 : v % 2 ^ 32 ≡ ip = omega arith in
    let v2 : v / 2 ^ 32 ≡ env = omega arith in
    (
      record s {
        stack = st;
        stack_pointer = k;
        entry_method_called = if call_depth s == 1 then true else s.entry_method_called;
        call_stack =
            record {
              return_ip = s.program_counter;
              frame_pointer = u32 (k + 2 ^ 32 - n);
              arg_count = n;
              closure_env = s.active_closure_env;
            }
            ∷ s.call_stack;
        active_closure_env = env;
        program_counter = ip;
      },
      rw (b0, b1, ti, te, ui, ue, b2, b3, b4, c1, b5, c2, s1, s2, v1, v2, un, b6, b7) refl,
      refl,
      refl,
      omega arith,
      omega arith,
    )
