-- ===== src/Vm/Arithmetic.antt =====
-- The stack, constant and integer arithmetic instructions of `RuntimeContext::run_bytecode`.
use solix.Prelude.{
  ℕ, ◌+◌, ◌-◌, ◌*◌, ◌/◌, ◌%◌, ◌^◌, Bool, ◌&&◌, List, [], ◌∷◌, leb, ◌==◌, if◌then◌else◌, length,
}
use mathlib.Core.Bool.{xor}
use solix.Outcome.{Outcome, ok, throw, division_by_zero, ◌>>=◌}
use solix.Word.{u64, u32}
use solix.Memory.BlockTag
use solix.Memory.State.{Memory, write_u8}
use solix.Memory.Allocate.{dynamic_allocation}
use solix.Vm.State.{Vm, push, pop, peek, below_top, code_u32, code_u64, code_string, in_memory}
use solix.Vm.Host.{Host}

unfoldable pub push_const_32 : Vm → Outcome Vm
push_const_32 s = do (v, s1) ← code_u32 s; push v s1

unfoldable pub push_const_64 : Vm → Outcome Vm
push_const_64 s = do (v, s1) ← code_u64 s; push v s1

-- `write_u8(addr, i, str[i])` for each byte.
unfoldable pub write_bytes : ℕ → ℕ → List ℕ → Memory → Outcome Memory
write_bytes addr i [] m = ok m
write_bytes addr i (b ∷ str) m = do m1 ← write_u8 addr i b m; write_bytes addr (i + 1) str m1

unfoldable pub push_const_string : Vm → Outcome Vm
push_const_string s = do
  (str, s1) ← code_string s
  (addr, m1) ← dynamic_allocation (length str) BlockTag.array_u8 s1.memory
  let addr32 = u32 addr
  s2 ← in_memory s1 (write_bytes addr32 0 str m1)
  push addr32 s2

unfoldable pub drop_top : Vm → Outcome Vm
drop_top s = do (_, s1) ← pop s; ok s1

unfoldable pub dup : Vm → Outcome Vm
dup s = do top ← peek s; push top s

unfoldable pub dup2 : Vm → Outcome Vm
dup2 s = do b ← below_top 1 s; a ← below_top 2 s; s1 ← push a s; push b s1

-- Pops `b`, then `a`, and pushes `f a b`.
abbrev pub binary : (ℕ → ℕ → ℕ) → Vm → Outcome Vm
binary f s = do (b, s1) ← pop s; (a, s2) ← pop s1; push (f a b) s2

abbrev pub unary : (ℕ → ℕ) → Vm → Outcome Vm
unary f s = do (a, s1) ← pop s; push (f a) s1

unfoldable pub add_u64 : ℕ → ℕ → ℕ
add_u64 a b = u64 (a + b)

unfoldable pub sub_u64 : ℕ → ℕ → ℕ
sub_u64 a b = u64 (a + 2 ^ 64 - b)

unfoldable pub mul_u64 : ℕ → ℕ → ℕ
mul_u64 a b = u64 (a * b)

-- `(~a) + 1ULL`
unfoldable pub negate_u64 : ℕ → ℕ
negate_u64 a = u64 (2 ^ 64 - 1 - a + 1)

-- The sign and the magnitude of the int64_t with a bit pattern.
abbrev pub is_negative : ℕ → Bool
is_negative a = leb (2 ^ 63) a

abbrev pub magnitude : ℕ → ℕ
magnitude a = if is_negative a then 2 ^ 64 - a else a

abbrev pub with_sign : Bool → ℕ → ℕ
with_sign negative n = if negative then u64 (2 ^ 64 - n) else n

-- `a / b` and `a % b` on int64_t: towards zero, the remainder with the sign of `a`.
unfoldable pub quotient_i64 : ℕ → ℕ → ℕ
quotient_i64 a b = with_sign (xor (is_negative a) (is_negative b)) (magnitude a / magnitude b)

unfoldable pub remainder_i64 : ℕ → ℕ → ℕ
remainder_i64 a b = with_sign (is_negative a) (magnitude a % magnitude b)

abbrev pub is_overflow : ℕ → ℕ → Bool
is_overflow a b = a == 2 ^ 63 && b == 2 ^ 64 - 1

unfoldable pub div_i64 : Vm → Outcome Vm
div_i64 s = do
  (b, s1) ← pop s
  (a, s2) ← pop s1
  if b == 0
      then throw division_by_zero
      else if is_overflow a b
      then push (2 ^ 63) s2
      else push (quotient_i64 a b) s2

unfoldable pub mod_i64 : Vm → Outcome Vm
mod_i64 s = do
  (b, s1) ← pop s
  (a, s2) ← pop s1
  if b == 0
      then throw division_by_zero
      else if is_overflow a b
      then push 0 s2
      else push (remainder_i64 a b) s2

unfoldable pub add_i64 : Vm → Outcome Vm
add_i64 = binary add_u64

unfoldable pub sub_i64 : Vm → Outcome Vm
sub_i64 = binary sub_u64

unfoldable pub mul_i64 : Vm → Outcome Vm
mul_i64 = binary mul_u64

unfoldable pub inc_i64 : Vm → Outcome Vm
inc_i64 = unary (λ a. u64 (a + 1))

unfoldable pub dec_i64 : Vm → Outcome Vm
dec_i64 = unary (λ a. u64 (a + 2 ^ 64 - 1))

unfoldable pub negate_i64 : Vm → Outcome Vm
negate_i64 = unary negate_u64

unfoldable pub logical_not : Vm → Outcome Vm
logical_not = unary (λ a. if a == 0 then 1 else 0)

module _ (host : Host) where
  unfoldable pub add_f64 : Vm → Outcome Vm
  add_f64 = binary host.add_f64

  unfoldable pub sub_f64 : Vm → Outcome Vm
  sub_f64 = binary host.sub_f64

  unfoldable pub mul_f64 : Vm → Outcome Vm
  mul_f64 = binary host.mul_f64

  unfoldable pub div_f64 : Vm → Outcome Vm
  div_f64 = binary host.div_f64

  unfoldable pub negate : Vm → Outcome Vm
  negate = unary host.neg_f64

  unfoldable pub inc_f64 : Vm → Outcome Vm
  inc_f64 = unary (λ a. host.add_f64 a host.one_f64)

  unfoldable pub dec_f64 : Vm → Outcome Vm
  dec_f64 = unary (λ a. host.sub_f64 a host.one_f64)
