-- ===== src/Word.antt =====
-- The machine integers of the runtime as natural numbers: what a conversion to uint8_t, uint16_t,
-- uint32_t or uint64_t keeps, and rounding up to a multiple of eight.
use solix.Prelude.{ℕ, ◌+◌, ◌%◌, ◌/◌, ◌*◌, ◌^◌}

abbrev pub u8 : ℕ → ℕ
u8 n = n % 2 ^ 8

abbrev pub u16 : ℕ → ℕ
u16 n = n % 2 ^ 16

abbrev pub u32 : ℕ → ℕ
u32 n = n % 2 ^ 32

abbrev pub u64 : ℕ → ℕ
u64 n = n % 2 ^ 64

-- `(n + 7) & ~7`
abbrev pub align8 : ℕ → ℕ
align8 n = (n + 7) / 8 * 8
