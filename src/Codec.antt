-- ===== src/Codec.antt =====
-- The hexadecimal and the base 64 codec of libraries/solixlib/native/src/crypto.cpp. Shifts and masks
-- are written as division and remainder, and `|` of numbers without a bit in common as a sum.
use solix.Prelude.{
  ℕ, zero, suc, ◌+◌, ◌-◌, ◌*◌, ◌/◌, ◌%◌, ◌^◌, Bool, true, false, ◌&&◌, ◌||◌, not, List, [], ◌∷◌,
  ◌++◌, Bytes, leb, ltb, ◌==◌, if◌then◌else◌, length, Option, none, some,
}
pub mod Hex
pub mod Base64
mod Tests

-- `hex_table[n]`, for n below 16.
unfoldable pub hex_table : ℕ → ℕ
hex_table n = if ltb n 10 then b'0' + n else b'a' + (n - 10)

unfoldable pub hex_encode : Bytes → Bytes
hex_encode [] = []
hex_encode (c ∷ cs) = hex_table (c / 16) ∷ hex_table (c % 16) ∷ hex_encode cs

-- `none` for -1.
unfoldable pub hex_char_val : ℕ → Option ℕ
hex_char_val c =
    if leb b'0' c && leb c b'9'
    then some (c - b'0')
    else if leb b'a' c && leb c b'f'
    then some (c - b'a' + 10)
    else if leb b'A' c && leb c b'F'
    then some (c - b'A' + 10)
    else none

-- A byte before the others that the loop reads.
abbrev pub hex_byte : Option ℕ → Option ℕ → Option Bytes → Option Bytes
hex_byte none lo rest = none
hex_byte (some hi) none rest = none
hex_byte (some hi) (some lo) none = none
hex_byte (some hi) (some lo) (some out) = some ((hi * 16 + lo) ∷ out)

-- The loop of `hex_decode`; the length is even.
unfoldable pub hex_pairs : Bytes → Option Bytes
hex_pairs [] = some []
hex_pairs (c ∷ []) = none
hex_pairs (c ∷ d ∷ r) = hex_byte (hex_char_val c) (hex_char_val d) (hex_pairs r)

-- `out`, or `none` where it returns false.
unfoldable pub hex_decode : Bytes → Option Bytes
hex_decode in_ = if length in_ % 2 == 0 then hex_pairs in_ else none

-- `b64_chars[n]`, for n below 64.
unfoldable pub b64_chars : ℕ → ℕ
b64_chars n =
    if ltb n 26
    then b'A' + n
    else if ltb n 52
    then b'a' + (n - 26)
    else if ltb n 62
    then b'0' + (n - 52)
    else if n == 62
    then b'+'
    else b'/'

-- The number of 24 bits of three bytes.
abbrev pub triple_of : ℕ → ℕ → ℕ → ℕ
triple_of a b c = a * 2 ^ 16 + b * 2 ^ 8 + c

-- The characters of a number of 24 bits.
abbrev pub b64_at : ℕ → ℕ → ℕ
b64_at triple shift = b64_chars (triple / 2 ^ shift % 64)

unfoldable pub base64_encode : Bytes → Bytes
base64_encode [] = []
base64_encode (a ∷ []) =
    let triple = triple_of a 0 0 in b64_at triple 18 ∷ b64_at triple 12 ∷ b'=' ∷ b'=' ∷ []
base64_encode (a ∷ b ∷ []) =
    let triple = triple_of a b 0 in
    b64_at triple 18 ∷ b64_at triple 12 ∷ b64_at triple 6 ∷ b'=' ∷ []
base64_encode (a ∷ b ∷ c ∷ r) =
    let triple = triple_of a b c in
    b64_at triple 18 ∷ b64_at triple 12 ∷ b64_at triple 6 ∷ b64_at triple 0 ∷ base64_encode r

-- A number, -2 or -1.
pub data CharVal : Type 0 where
  value : ℕ → CharVal
  padding invalid : CharVal

unfoldable pub b64_char_val : ℕ → CharVal
b64_char_val c =
    if leb b'A' c && leb c b'Z'
    then value (c - b'A')
    else if leb b'a' c && leb c b'z'
    then value (c - b'a' + 26)
    else if leb b'0' c && leb c b'9'
    then value (c - b'0' + 52)
    else if c == b'+'
    then value 62
    else if c == b'/'
    then value 63
    else if c == b'='
    then padding
    else invalid

-- The bytes of a group of four, after the tests.
unfoldable pub b64_group : CharVal → CharVal → CharVal → CharVal → Option Bytes
b64_group (value v0) (value v1) (value v2) (value v3) =
    let triple = v0 * 2 ^ 18 + v1 * 2 ^ 12 + v2 * 2 ^ 6 + v3 in
    some ((triple / 2 ^ 16 % 256) ∷ (triple / 2 ^ 8 % 256) ∷ (triple % 256) ∷ [])
b64_group (value v0) (value v1) (value v2) padding =
    let triple = v0 * 2 ^ 18 + v1 * 2 ^ 12 + v2 * 2 ^ 6 in
    some ((triple / 2 ^ 16 % 256) ∷ (triple / 2 ^ 8 % 256) ∷ [])
b64_group (value v0) (value v1) padding padding =
    let triple = v0 * 2 ^ 18 + v1 * 2 ^ 12 in some ((triple / 2 ^ 16 % 256) ∷ [])
b64_group _ _ _ _ = none

abbrev pub append_group : Option Bytes → Option Bytes → Option Bytes
append_group none rest = none
append_group (some bs) none = none
append_group (some bs) (some out) = some (bs ++ out)

-- The loop of `base64_decode`; the length is a multiple of four.
unfoldable pub b64_groups : Bytes → Option Bytes
b64_groups [] = some []
b64_groups (c0 ∷ c1 ∷ c2 ∷ c3 ∷ r) =
    append_group (b64_group (b64_char_val c0) (b64_char_val c1) (b64_char_val c2) (b64_char_val c3))
      (b64_groups r)
b64_groups _ = none

unfoldable pub base64_decode : Bytes → Option Bytes
base64_decode in_ = if length in_ % 4 == 0 then b64_groups in_ else none
