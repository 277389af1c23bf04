-- ===== src/Codec/Tests.antt =====
-- The codecs on a few bytes.
use solix.Prelude.{ℕ, ◌≡◌, refl, List, [], ◌∷◌, Bytes, codes, arith, some}
use solix.Codec
use solix.Codec.{b64_chars, hex_table, hex_encode, hex_decode, base64_encode, base64_decode}
use solix.Codec.Hex.{hex_decode-hex_encode}
use solix.Codec.Base64.{base64_decode-base64_encode}

-- Numbers from one on.
abbrev from : ℕ → ℕ → List ℕ
from n Prim.Native.Nat.zero = []
from n (Prim.Native.Nat.suc k) = n ∷ from (Prim.Native.Nat.suc n) k

abbrev mapped : (ℕ → ℕ) → List ℕ → List ℕ
mapped f [] = []
mapped f (x ∷ xs) = f x ∷ mapped f xs

-- The tables of the source.
b64_chars-table :
    mapped b64_chars (from 0 64)
    ≡ codes "ABCDEFGHIJKLMNOPQRSTUVWXYZabcdefghijklmnopqrstuvwxyz0123456789+/"
unfolding b64_chars
b64_chars-table = refl

hex_table-table : mapped hex_table (from 0 16) ≡ codes "0123456789abcdef"
unfolding hex_table
hex_table-table = refl

abbrev sample : Bytes
sample = 0 ∷ 255 ∷ 16 ∷ 77 ∷ []

hex_decode-hex_encode_example : hex_decode (hex_encode sample) ≡ some sample
hex_decode-hex_encode_example =
    hex_decode-hex_encode sample (omega arith, (omega arith, (omega arith, (omega arith, tt))))

base64_decode-base64_encode_example : base64_decode (base64_encode sample) ≡ some sample
base64_decode-base64_encode_example =
    base64_decode-base64_encode sample
      (omega arith, (omega arith, (omega arith, (omega arith, tt))))

-- Padding between groups is taken.
middle_padding : base64_decode (codes "AA==AAAA") ≡ some (0 ∷ 0 ∷ 0 ∷ 0 ∷ [])
unfolding base64_decode Codec.b64_groups Codec.b64_group Codec.b64_char_val
middle_padding = refl
