-- ===== src/Memory/BlockTag.antt =====
-- `enum class BlockTag : uint8_t` of core/include/solix/runtime.hpp, as its numbers: the runtime
-- makes tags by casts from bytes and from four bits of a header, so that every number may occur.
use solix.Prelude.{ℕ}

abbrev pub raw : ℕ
raw = 0

abbrev pub object : ℕ
object = 1

abbrev pub array_u8 : ℕ
array_u8 = 2

abbrev pub array_i8 : ℕ
array_i8 = 3

abbrev pub array_u16 : ℕ
array_u16 = 4

abbrev pub array_i16 : ℕ
array_i16 = 5

abbrev pub array_u32 : ℕ
array_u32 = 6

abbrev pub array_i32 : ℕ
array_i32 = 7

abbrev pub array_u64 : ℕ
array_u64 = 8

abbrev pub array_ref : ℕ
array_ref = 9

abbrev pub closure : ℕ
closure = 10

abbrev pub tuple : ℕ
tuple = 11
