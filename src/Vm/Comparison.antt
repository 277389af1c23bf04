-- ===== src/Vm/Comparison.antt =====
-- The comparison instructions of `RuntimeContext::run_bytecode`.
use solix.Prelude.{ℕ, ◌+◌, ◌^◌, Bool, not, leb, ltb, ◌==◌, if◌then◌else◌}
use solix.Outcome.{Outcome}
use solix.Word.{u64}
use solix.Vm.State.{Vm}
use solix.Vm.Host.{Host}
use solix.Vm.Arithmetic.{binary}

abbrev pub truth : Bool → ℕ
truth b = if b then 1 else 0

-- The int64_t comparisons: the patterns with their sign bits flipped compare as naturals.
unfoldable pub lt_i64 : ℕ → ℕ → Bool
lt_i64 a b = ltb (u64 (a + 2 ^ 63)) (u64 (b + 2 ^ 63))

unfoldable pub le_i64 : ℕ → ℕ → Bool
le_i64 a b = leb (u64 (a + 2 ^ 63)) (u64 (b + 2 ^ 63))

unfoldable pub eq_i64 : Vm → Outcome Vm
eq_i64 = binary (λ a b. truth (a == b))

unfoldable pub neq_i64 : Vm → Outcome Vm
neq_i64 = binary (λ a b. truth (not (a == b)))

unfoldable pub greater_i64 : Vm → Outcome Vm
greater_i64 = binary (λ a b. truth (lt_i64 b a))

unfoldable pub greater_eq_i64 : Vm → Outcome Vm
greater_eq_i64 = binary (λ a b. truth (le_i64 b a))

unfoldable pub less_i64 : Vm → Outcome Vm
less_i64 = binary (λ a b. truth (lt_i64 a b))

unfoldable pub less_eq_i64 : Vm → Outcome Vm
less_eq_i64 = binary (λ a b. truth (le_i64 a b))

module _ (host : Host) where
  unfoldable pub eq_f64 : Vm → Outcome Vm
  eq_f64 = binary (λ a b. truth (host.eq_f64 a b))

  unfoldable pub neq_f64 : Vm → Outcome Vm
  neq_f64 = binary (λ a b. truth (not (host.eq_f64 a b)))

  unfoldable pub greater_f64 : Vm → Outcome Vm
  greater_f64 = binary (λ a b. truth (host.lt_f64 b a))

  unfoldable pub greater_eq_f64 : Vm → Outcome Vm
  greater_eq_f64 = binary (λ a b. truth (host.le_f64 b a))

  unfoldable pub less_f64 : Vm → Outcome Vm
  less_f64 = binary (λ a b. truth (host.lt_f64 a b))

  unfoldable pub less_eq_f64 : Vm → Outcome Vm
  less_eq_f64 = binary (λ a b. truth (host.le_f64 a b))
