-- ===== src/Vm/Words.antt =====
-- The integer instructions against integer arithmetic.
use solix.Prelude.{ℕ, ◌+◌, ◌-◌, ◌^◌, ◌<◌, ◌≡◌, ◌↔◌, true, arith, ltb, if◌then◌else◌}
use solix.Word.{u8, u16, u32, u64}
use solix.Vm.Comparison.{lt_i64}
use solix.Vm.Conversion.{sign_extend8, sign_extend16, sign_extend32}

-- The numbers with the sign flipped, as the order of int64_t.
pub data ℤ : Type 0 where
  pos : ℕ → ℤ
  negsuc : ℕ → ℤ

-- The int64_t with a bit pattern.
abbrev pub signed64 : ℕ → ℤ
signed64 w = if ltb w (2 ^ 63) then pos w else negsuc (2 ^ 64 - w - 1)

abbrev pub ◌<ℤ◌ : ℤ → ℤ → Type 0
◌<ℤ◌ (pos a) (pos b) = a < b
◌<ℤ◌ (pos a) (negsuc b) = ⊥
◌<ℤ◌ (negsuc a) (pos b) = Unit
◌<ℤ◌ (negsuc a) (negsuc b) = b < a

infix 50 ◌<ℤ◌
-- The comparison of two 64-bit patterns as int64_t is the order of the integers that they stand
-- for.
pub lt_i64_iff :
    (a b : ℕ) → a < 2 ^ 64 → b < 2 ^ 64 → (lt_i64 a b ≡ true) ↔ (signed64 a <ℤ signed64 b)
unfolding lt_i64
lt_i64_iff a b ha hb = ground arith

-- The conversion to int8_t keeps the low byte, gives a number in the range of int8_t, and changes
-- nothing the second time.
pub sign_extend8_lem :
    (v : ℕ)
    → (u8 (sign_extend8 v) ≡ u8 v)
      × (sign_extend8 (sign_extend8 v) ≡ sign_extend8 v)
      × (u64 (sign_extend8 v + 2 ^ 7) < 2 ^ 8)
unfolding sign_extend8
sign_extend8_lem v = ground arith

pub sign_extend16_lem :
    (v : ℕ)
    → (u16 (sign_extend16 v) ≡ u16 v)
      × (sign_extend16 (sign_extend16 v) ≡ sign_extend16 v)
      × (u64 (sign_extend16 v + 2 ^ 15) < 2 ^ 16)
unfolding sign_extend16
sign_extend16_lem v = ground arith

pub sign_extend32_lem :
    (v : ℕ)
    → (u32 (sign_extend32 v) ≡ u32 v)
      × (sign_extend32 (sign_extend32 v) ≡ sign_extend32 v)
      × (u64 (sign_extend32 v + 2 ^ 31) < 2 ^ 32)
unfolding sign_extend32
sign_extend32_lem v = ground arith
