-- ===== src/Vm/Host.antt =====
-- What core/src/runtime.cpp takes from outside: the floating-point unit, on the 64-bit patterns
-- that `bit_cast_to_u64` and `bit_cast_from_u64` exchange, and the native functions of shared
-- libraries and of the embedding program.
use solix.Prelude.{ℕ, Bool, Option, List}
use solix.Outcome.{Outcome}
use solix.Vm.State.{Vm}

pub record Host : Type 0 where
  pub add_f64 : ℕ → ℕ → ℕ
  pub sub_f64 : ℕ → ℕ → ℕ
  pub mul_f64 : ℕ → ℕ → ℕ
  pub div_f64 : ℕ → ℕ → ℕ
  pub neg_f64 : ℕ → ℕ
  pub eq_f64 : ℕ → ℕ → Bool
  pub lt_f64 : ℕ → ℕ → Bool
  pub le_f64 : ℕ → ℕ → Bool
  -- The pattern of 1.0.
  pub one_f64 : ℕ
  -- To float and back to double.
  pub round_f32 : ℕ → ℕ
  pub f64_of_i64 : ℕ → ℕ
  pub i64_of_f64 : ℕ → ℕ
  -- The native function at an address, given the receiver and the arguments.
  pub call_native : ℕ → ℕ → List ℕ → Vm → Outcome (ℕ × Vm)
  -- `options.native_functions`; its values may be nullptr.
  pub native_option : List ℕ → Option ℕ
  -- `NativeRegistry::find_function` and `find_symbol_in_loaded_libraries`, 0 for nullptr.
  pub find_function : List ℕ → ℕ
  pub find_symbol : List ℕ → ℕ
