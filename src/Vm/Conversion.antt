-- ===== src/Vm/Conversion.antt =====
-- The conversion instructions of `RuntimeContext::run_bytecode`. CONV_I64, CONV_U64 and CONV_F64 do
-- nothing.
use solix.Prelude.{ℕ, ◌+◌, ◌-◌, ◌^◌, ltb, if◌then◌else◌}
use solix.Outcome.{Outcome, ok}
use solix.Word.{u8, u16, u32}
use solix.Vm.State.{Vm}
use solix.Vm.Host.{Host}
use solix.Vm.Arithmetic.{unary}

-- The 64-bit pattern of the signed number with the low bits of `v`.
unfoldable pub sign_extend8 : ℕ → ℕ
sign_extend8 v = if ltb (u8 v) (2 ^ 7) then u8 v else u8 v + (2 ^ 64 - 2 ^ 8)

unfoldable pub sign_extend16 : ℕ → ℕ
sign_extend16 v = if ltb (u16 v) (2 ^ 15) then u16 v else u16 v + (2 ^ 64 - 2 ^ 16)

unfoldable pub sign_extend32 : ℕ → ℕ
sign_extend32 v = if ltb (u32 v) (2 ^ 31) then u32 v else u32 v + (2 ^ 64 - 2 ^ 32)

unfoldable pub conv_i8 : Vm → Outcome Vm
conv_i8 = unary sign_extend8

unfoldable pub conv_i16 : Vm → Outcome Vm
conv_i16 = unary sign_extend16

unfoldable pub conv_i32 : Vm → Outcome Vm
conv_i32 = unary sign_extend32

unfoldable pub conv_u8 : Vm → Outcome Vm
conv_u8 = unary u8

unfoldable pub conv_u16 : Vm → Outcome Vm
conv_u16 = unary u16

unfoldable pub conv_u32 : Vm → Outcome Vm
conv_u32 = unary u32

-- `DISPATCH();` alone
unfoldable pub conv_none : Vm → Outcome Vm
conv_none s = ok s

module _ (host : Host) where
  unfoldable pub conv_f32 : Vm → Outcome Vm
  conv_f32 = unary host.round_f32

  unfoldable pub conv_i_to_f : Vm → Outcome Vm
  conv_i_to_f = unary host.f64_of_i64

  unfoldable pub conv_f_to_i : Vm → Outcome Vm
  conv_f_to_i = unary host.i64_of_f64
