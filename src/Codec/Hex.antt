-- ===== src/Codec/Hex.antt =====
-- Hexadecimal digits read back.
use solix.Prelude.{
  ℕ, ◌*◌, ◌/◌, ◌%◌, ◌<◌, ◌≡◌, refl, ap, true, [], ◌∷◌, Bytes, All, arith, ◌==◌, length, some,
}
use solix.Codec.{hex_table, hex_encode, hex_char_val, hex_pairs, hex_decode}

hex_char_val-hex_table : (n : ℕ) → n < 16 → hex_char_val (hex_table n) ≡ some n
unfolding hex_char_val hex_table
hex_char_val-hex_table n h = ground arith

length-hex_encode : (bs : Bytes) → length (hex_encode bs) ≡ 2 * length bs
unfolding hex_encode
length-hex_encode [] = refl
length-hex_encode (b ∷ bs) = omega (arith, length-hex_encode bs)

hex_pairs-hex_encode : (bs : Bytes) → All (λ b. b < 256) bs → hex_pairs (hex_encode bs) ≡ some bs
unfolding hex_pairs hex_encode
hex_pairs-hex_encode [] h = refl
hex_pairs-hex_encode (b ∷ bs) (h, hs) =
    rw
      (
        hex_char_val-hex_table (b / 16) (omega arith),
        hex_char_val-hex_table (b % 16) (omega arith),
        hex_pairs-hex_encode bs hs,
      )
      (ap (λ c. some (c ∷ bs)) (omega arith))

-- Bytes that are written in hexadecimal digits are read back.
pub hex_decode-hex_encode :
    (bs : Bytes) → All (λ b. b < 256) bs → hex_decode (hex_encode bs) ≡ some bs
unfolding hex_decode
hex_decode-hex_encode bs h =
    let even : (length (hex_encode bs) % 2 == 0) ≡ true = ground (arith, length-hex_encode bs) in
    rw even (hex_pairs-hex_encode bs h)
