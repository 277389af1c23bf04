-- ===== src/Outcome.antt =====
-- What a C++ function does: it returns a value, throws an exception, performs
-- an access that C++ leaves undefined (a read or write outside a buffer), or, in the model only,
-- runs out of the fuel that bounds its recursion.
use solix.Prelude.{◌≢◌, ℕ, Bytes}

-- The exceptions: the messages of the runtime_errors that core/src/runtime.cpp throws.
pub data Error : Type 0 where
  static_heap_overflow dynamic_heap_overflow : Error
  stack_overflow stack_underflow call_depth_exceeded frame_overflow : Error
  malformed_bytecode division_by_zero negative_array_size : Error
  null_pointer null_function_pointer property_out_of_bounds frame_out_of_bounds : Error
  array_out_of_bounds tuple_out_of_bounds : Error
  cast_of_non_object invalid_cast resolution_failed unknown_native abstract_method : Error
  cast_primitive_to_reference cast_reference_to_primitive primitive_cast : Error
  cast_to_string cast_to_tuple cast_to_array reference_cast class_cast : Error
  unhandled_exception assertion_failed : Error
  -- `std::out_of_range` of `std::stod`, which core/src/processes/lexer.cpp does not catch.
  out_of_range : Error
  -- `ParseError` of core/src/processes/parser.cpp: its message, line and column.
  parse_error : Bytes → ℕ → ℕ → Error
  -- `std::bad_variant_access` of `std::get`.
  bad_variant_access : Error

pub data Outcome {ℓ} (A : Type ℓ) : Type ℓ where
  ok : A → Outcome A
  throw : Error → Outcome A
  undefined : Outcome A
  out_of_fuel : Outcome A

module _ {ℓ κ} {A : Type ℓ} {B : Type κ} where
  infixl 5 ◌>>=◌
  abbrev pub ◌>>=◌ : Outcome A → (A → Outcome B) → Outcome B
  ok a >>= f = f a
  throw e >>= f = throw e
  undefined >>= f = undefined
  out_of_fuel >>= f = out_of_fuel

  -- A chain whose rest never returns never returns.
  pub >>=-raises :
      (m : Outcome A) (f : A → Outcome B) (b : B) → ((a : A) → f a ≢ ok b) → (m >>= f) ≢ ok b
  >>=-raises (ok a) f b h = h a
  >>=-raises (throw e) f b h = λ p. cc
  >>=-raises undefined f b h = λ p. cc
  >>=-raises out_of_fuel f b h = λ p. cc
