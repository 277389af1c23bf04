-- ===== src/Vm/Division.antt =====
-- DIV_I64 and MOD_I64 of core/src/runtime.cpp: division of int64_t towards zero.
use solix.Prelude.{
  ℕ, ◌+◌, ◌*◌, ◌/◌, ◌%◌, ◌^◌, ◌≤◌, ◌<◌, ◌≡◌, ◌≢◌, ◌∙◌, ap, subst, ◌⊎◌, inl, inr, Bool, true, false,
  arith,
}
use mathlib.Core.Bool.{xor}
use native.Mathlib.Nat.{div-add-mod, mod-lt}
use solix.Word.{u64}
use solix.Vm.Arithmetic.{
  add_u64, mul_u64, quotient_i64, remainder_i64, magnitude, is_negative, with_sign,
}

abbrev modulus : ℕ
modulus = 2 ^ 64

-- Two numbers that are opposite modulo 2^64.
abbrev Opposite : ℕ → ℕ → Type 0
Opposite x q = (x + q ≡ 2 ^ 64) ⊎ ((x ≡ 0) × (q ≡ 0))

with_sign-Opposite : (q : ℕ) → q ≤ 2 ^ 63 → Opposite (with_sign true q) q
with_sign-Opposite q h = ground arith

-- The product of two opposites is the product.
opposites : (x q y b : ℕ) → Opposite x q → y + b ≡ 2 ^ 64 → (x * y) % 2 ^ 64 ≡ (q * b) % 2 ^ 64
opposites x q y b (inl e) f = omega (arith, ap (λ (t : ℕ). t * y) e, ap (λ (t : ℕ). q * t) f)
opposites x q y b (inr (e, g)) f = rw (e, g) (omega arith)

-- The product with one opposite is the opposite of the product.
Opposite-left : (x q b : ℕ) → Opposite x q → (x * b + q * b) % 2 ^ 64 ≡ 0
Opposite-left x q b (inl e) = omega (arith, ap (λ (t : ℕ). t * b) e)
Opposite-left x q b (inr (e, g)) = rw (e, g) (omega arith)

Opposite-right : (q y b : ℕ) → y + b ≡ 2 ^ 64 → (q * y + q * b) % 2 ^ 64 ≡ 0
Opposite-right q y b e = omega (arith, ap (λ (t : ℕ). q * t) e)

div-le : (A B : ℕ) → 0 < B → A ≤ 2 ^ 63 → A / B ≤ 2 ^ 63
div-le A B h l = grind (arith, div-add-mod)

-- The law for numbers of given signs and magnitudes.
law :
    (sa sb : Bool) (A B Q R : ℕ)
    → B * Q + R ≡ A
    → R < B
    → A ≤ 2 ^ 63
    → B ≤ 2 ^ 63
    → Q ≤ 2 ^ 63
    → u64 (u64 (with_sign (xor sa sb) Q * with_sign sb B) + with_sign sa R) ≡ with_sign sa A
unfolding xor
law true true A B Q R e r ha hb hq =
    omega (arith, Opposite-right Q (with_sign true B) B (omega arith))
law true false A B Q R e r ha hb hq =
    omega (arith, Opposite-left (with_sign true Q) Q B (with_sign-Opposite Q hq))
law false true A B Q R e r ha hb hq = omega (
  arith,
  opposites (with_sign true Q) Q (with_sign true B) B (with_sign-Opposite Q hq) (omega arith),
)
law false false A B Q R e r ha hb hq = omega arith

with_sign-magnitude : (a : ℕ) → a < 2 ^ 64 → with_sign (is_negative a) (magnitude a) ≡ a
with_sign-magnitude a h = ground arith

magnitude-with_sign : (s : Bool) (r : ℕ) → r < 2 ^ 63 → magnitude (with_sign s r) ≡ r
magnitude-with_sign true r h = ground arith
magnitude-with_sign false r h = ground arith

sign_kept :
    (s : Bool) (r : ℕ) → r < 2 ^ 63 → (is_negative (with_sign s r) ≡ s) ⊎ (with_sign s r ≡ 0)
sign_kept true r h = ground arith
sign_kept false r h = ground arith

magnitude-le : (a : ℕ) → a < 2 ^ 64 → magnitude a ≤ 2 ^ 63
magnitude-le a h = ground arith

magnitude-pos : (a : ℕ) → a < 2 ^ 64 → a ≢ 0 → 0 < magnitude a
magnitude-pos a h n = ground arith

module _ (a b : ℕ) (ha : a < 2 ^ 64) (hb : b < 2 ^ 64) (nz : b ≢ 0) where
  -- For two 64-bit patterns of which the divisor is not zero, quotient and remainder make up the
  -- dividend in the wrapping arithmetic of the machine, the remainder is smaller than the divisor
  -- in magnitude, and it has the sign of the dividend or is zero.
  pub quotient-remainder :
      (add_u64 (mul_u64 (quotient_i64 a b) b) (remainder_i64 a b) ≡ a)
      × (magnitude (remainder_i64 a b) < magnitude b)
      × ((is_negative (remainder_i64 a b) ≡ is_negative a) ⊎ (remainder_i64 a b ≡ 0))
  unfolding add_u64 mul_u64 quotient_i64 remainder_i64
  quotient-remainder =
      let A : ℕ = magnitude a in
      let B : ℕ = magnitude b in
      let e = div-add-mod A B in
      let r = mod-lt A (magnitude-pos b hb nz) in
      let la = magnitude-le a ha in
      let lb = magnitude-le b hb in
      let m = magnitude-with_sign (is_negative a) (A % B) (omega arith) in
      (
        subst
            (λ y.
              u64 (
                u64 (with_sign (xor (is_negative a) (is_negative b)) (A / B) * y)
                + with_sign (is_negative a) (A % B))
              ≡ a)
            (with_sign-magnitude b hb)
            (law (is_negative a) (is_negative b) A B (A / B) (A % B) e r la lb
                (div-le A B (magnitude-pos b hb nz) la)
              ∙ with_sign-magnitude a ha),
        omega (arith, m),
        sign_kept (is_negative a) (A % B) (omega arith),
      )
