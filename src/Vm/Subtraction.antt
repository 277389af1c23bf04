-- ===== src/Vm/Subtraction.antt =====
-- SUB_I64 and ADD_I64 of core/src/runtime.cpp on the operand stack.
use solix.Prelude.{ℕ, ◌+◌, ◌-◌, ◌^◌, ◌≤◌, ◌<◌, ◌≡◌, refl, false, arith, leb, ◌==◌}
use solix.Outcome.{ok, ◌>>=◌}
use solix.Memory.Heap.{update}
use solix.Vm.State.{Vm, push, pop}
use solix.Vm.Arithmetic.{add_u64, sub_u64, add_i64, sub_i64}

sub-add : (a b : ℕ) → a < 2 ^ 64 → b < 2 ^ 64 → add_u64 (sub_u64 a b) b ≡ a
unfolding add_u64 sub_u64
sub-add a b ha hb = omega arith

-- Where two 64-bit patterns are pushed with room for both, SUB_I64 replaces them, and the second
-- is pushed again, ADD_I64 succeeds and leaves the first one on top. Below it the stack is as it
-- was, and nothing else in the machine changes.
pub sub_i64-add_i64 :
    (a b : ℕ) (s : Vm)
    → a < 2 ^ 64
    → b < 2 ^ 64
    → s.stack_pointer + 2 ≤ s.stack_capacity
    → (t : Vm) × ((do s1 ← push a s; s2 ← push b s1; s3 ← sub_i64 s2; s4 ← push b s3; add_i64 s4)
        ≡ ok t)
      × (pop t ≡ ok (a, record s { stack = t.stack }))
      × ((i : ℕ) → i < s.stack_pointer → t.stack i ≡ s.stack i)
unfolding add_i64 sub_i64 push pop
sub_i64-add_i64 a b s ha hb room =
    let k : ℕ = s.stack_pointer in
    let d : ℕ = sub_u64 a b in
    let st1 = update (update s.stack k a) (k + 1) b in
    let st2 = update (update st1 k d) (k + 1) b in
    let b0 : leb s.stack_capacity k ≡ false = ground arith in
    let b1 : leb s.stack_capacity (k + 1) ≡ false = ground arith in
    let b2 : (k + 1 + 1 == 0) ≡ false = ground arith in
    let b3 : (k + 1 == 0) ≡ false = ground arith in
    let c1 : k + 1 + 1 - 1 ≡ k + 1 = omega arith in
    let c2 : k + 1 - 1 ≡ k = omega arith in
    let l1 : st1 (k + 1) ≡ b = ground arith in
    let l2 : st1 k ≡ a = ground arith in
    let l3 : st2 (k + 1) ≡ b = ground arith in
    let l4 : st2 k ≡ d = ground arith in
    let e = sub-add a b ha hb in
    (
      record s { stack = update st2 k (add_u64 d b); stack_pointer = k + 1 },
      rw (b0, b1, b2, c1, b3, c2, l1, l2, b0, b1, b2, c1, b3, c2, l3, l4, b0) refl,
      rw (b3, c2, e) (let z : update st2 k a k ≡ a = ground arith in rw z refl),
      λ i h. ground arith,
    )
