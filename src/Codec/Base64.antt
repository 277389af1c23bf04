-- ===== src/Codec/Base64.antt =====
-- Base 64 read back.
use solix.Prelude.{
  ℕ, ◌+◌, ◌*◌, ◌/◌, ◌%◌, ◌^◌, ◌<◌, ◌≡◌, refl, ◌∙◌, ap, ap₂, true, [], ◌∷◌, Bytes, All, arith, ◌==◌,
  length, some,
}
use solix.Codec.{
  triple_of, b64_chars, b64_at, base64_encode, value, padding, b64_char_val, b64_group,
  append_group, b64_groups, base64_decode,
}

b64_char_val-b64_chars : (n : ℕ) → n < 64 → b64_char_val (b64_chars n) ≡ value n
unfolding b64_char_val b64_chars
b64_char_val-b64_chars n h = ground arith

b64_char_val-pad : b64_char_val b'=' ≡ padding
unfolding b64_char_val
b64_char_val-pad = refl

b64_char_val-at :
    (triple shift : ℕ) → b64_char_val (b64_at triple shift) ≡ value (triple / 2 ^ shift % 64)
b64_char_val-at triple shift = b64_char_val-b64_chars (triple / 2 ^ shift % 64) (omega arith)

-- A number of 24 bits is made of its four digits to base 64, as many as are not zero.
quarters :
    (t : ℕ)
    → t < 2 ^ 24
    → t / 2 ^ 18 % 64 * 2 ^ 18 + t / 2 ^ 12 % 64 * 2 ^ 12 + t / 2 ^ 6 % 64 * 2 ^ 6 + t / 2 ^ 0 % 64
      ≡ t
quarters t h = omega arith

quarters-two :
    (t : ℕ)
    → t < 2 ^ 24
    → t % 2 ^ 6 ≡ 0
    → t / 2 ^ 18 % 64 * 2 ^ 18 + t / 2 ^ 12 % 64 * 2 ^ 12 + t / 2 ^ 6 % 64 * 2 ^ 6 ≡ t
quarters-two t h k = omega arith

quarters-one :
    (t : ℕ) → t < 2 ^ 24 → t % 2 ^ 12 ≡ 0 → t / 2 ^ 18 % 64 * 2 ^ 18 + t / 2 ^ 12 % 64 * 2 ^ 12 ≡ t
quarters-one t h k = omega arith

-- The three bytes of a number of 24 bits.
triple_of-bytes :
    (a b c : ℕ)
    → a < 256
    → b < 256
    → c < 256
    → let t = triple_of a b c in
      (t / 2 ^ 16 % 256 ≡ a) × (t / 2 ^ 8 % 256 ≡ b) × (t % 256 ≡ c) × (t < 2 ^ 24)
triple_of-bytes a b c x y z = (omega arith, omega arith, omega arith, omega arith)

three-same :
    {a b c a' b' c' : ℕ}
    → a ≡ a'
    → b ≡ b'
    → c ≡ c'
    → some (a ∷ b ∷ c ∷ []) ≡ some (a' ∷ b' ∷ c' ∷ [])
three-same p q r = rw (p, q, r) refl

-- The bytes of a group come back.
group-three :
    (a b c : ℕ)
    → a < 256
    → b < 256
    → c < 256
    → let t = triple_of a b c in
      b64_group
        (b64_char_val (b64_at t 18))
        (b64_char_val (b64_at t 12))
        (b64_char_val (b64_at t 6))
        (b64_char_val (b64_at t 0))
      ≡ some (a ∷ b ∷ c ∷ [])
unfolding b64_group
group-three a b c x y z =
    let t = triple_of a b c in
    let (p, q, r, w) = triple_of-bytes a b c x y z in
    rw (b64_char_val-at t 18, b64_char_val-at t 12, b64_char_val-at t 6, b64_char_val-at t 0)
      (ap (λ n. some ((n / 2 ^ 16 % 256) ∷ (n / 2 ^ 8 % 256) ∷ (n % 256) ∷ [])) (quarters t w)
        ∙ three-same p q r)

group-two :
    (a b : ℕ)
    → a < 256
    → b < 256
    → let t = triple_of a b 0 in
      b64_group
        (b64_char_val (b64_at t 18))
        (b64_char_val (b64_at t 12))
        (b64_char_val (b64_at t 6))
        padding
      ≡ some (a ∷ b ∷ [])
unfolding b64_group
group-two a b x y =
    let t = triple_of a b 0 in
    let (p, q, _, w) = triple_of-bytes a b 0 x y (omega arith) in
    rw (b64_char_val-at t 18, b64_char_val-at t 12, b64_char_val-at t 6)
      (ap (λ n. some ((n / 2 ^ 16 % 256) ∷ (n / 2 ^ 8 % 256) ∷ [])) (quarters-two t w (omega arith))
        ∙ ap₂ (λ n m. some (n ∷ m ∷ [])) p q)

group-one :
    (a : ℕ)
    → a < 256
    → let t = triple_of a 0 0 in
      b64_group (b64_char_val (b64_at t 18)) (b64_char_val (b64_at t 12)) padding padding
      ≡ some (a ∷ [])
unfolding b64_group
group-one a x =
    let t = triple_of a 0 0 in
    let (p, _, _, w) = triple_of-bytes a 0 0 x (omega arith) (omega arith) in
    rw (b64_char_val-at t 18, b64_char_val-at t 12)
      (ap (λ n. some ((n / 2 ^ 16 % 256) ∷ [])) (quarters-one t w (omega arith))
        ∙ ap (λ n. some (n ∷ [])) p)

b64_groups-encode : (bs : Bytes) → All (λ b. b < 256) bs → b64_groups (base64_encode bs) ≡ some bs
unfolding b64_groups base64_encode
b64_groups-encode [] h = refl
b64_groups-encode (a ∷ []) (x, _) =
    let t = triple_of a 0 0 in
    ap
      (λ p.
        append_group (b64_group (b64_char_val (b64_at t 18)) (b64_char_val (b64_at t 12)) p p)
          (some []))
      b64_char_val-pad
    ∙ ap (λ g. append_group g (some [])) (group-one a x)
b64_groups-encode (a ∷ b ∷ []) (x, (y, _)) =
    let t = triple_of a b 0 in
    ap
      (λ p.
        append_group
          (b64_group (b64_char_val (b64_at t 18)) (b64_char_val (b64_at t 12))
            (b64_char_val (b64_at t 6)) p)
          (some []))
      b64_char_val-pad
    ∙ ap (λ g. append_group g (some [])) (group-two a b x y)
b64_groups-encode (a ∷ b ∷ c ∷ bs) (x, (y, (z, hs))) =
    ap₂ append_group (group-three a b c x y z) (b64_groups-encode bs hs)

length-base64_encode : (bs : Bytes) → length (base64_encode bs) % 4 ≡ 0
unfolding base64_encode
length-base64_encode [] = omega arith
length-base64_encode (a ∷ []) = omega arith
length-base64_encode (a ∷ b ∷ []) = omega arith
length-base64_encode (a ∷ b ∷ c ∷ bs) = omega (arith, length-base64_encode bs)

-- Bytes that are written in base 64 are read back.
pub base64_decode-base64_encode :
    (bs : Bytes) → All (λ b. b < 256) bs → base64_decode (base64_encode bs) ≡ some bs
unfolding base64_decode
base64_decode-base64_encode bs h =
    let whole : (length (base64_encode bs) % 4 == 0) ≡ true =
      ground (arith, length-base64_encode bs) in
    rw whole (b64_groups-encode bs h)
