-- ===== src/SemVer/Order.antt =====
-- Versions are ordered.
use solix.Prelude.{
  ℕ, ◌+◌, ◌-◌, ◌*◌, ◌^◌, ◌<◌, ◌↔◌, ◌≡◌, refl, inl, inr, Bool, true, false, ◌&&◌, ◌||◌, arith, ltb,
  ◌==◌, Bool-cases,
}
use solix.SemVer.{ℤ, pos, negsuc, less_int, same_int, SemVer, less, equal}

-- The values of a 32-bit int.
abbrev pub IsInt : ℤ → Type 0
IsInt (pos n) = n < 2 ^ 31
IsInt (negsuc n) = n < 2 ^ 31

-- An int above the least one.
abbrev pub offset : ℤ → ℕ
offset (pos n) = n + 2 ^ 31
offset (negsuc n) = 2 ^ 31 - 1 - n

abbrev pub IsVersion : SemVer → Type 0
IsVersion v = IsInt v.major × IsInt v.minor × IsInt v.patch

-- One number for the three of a version, the major one the most significant.
abbrev pub key : SemVer → ℕ
key v = offset v.major * 2 ^ 64 + offset v.minor * 2 ^ 32 + offset v.patch

offset_bound : (z : ℤ) → IsInt z → offset z < 2 ^ 32
offset_bound (pos n) h = omega arith
offset_bound (negsuc n) h = omega arith

less_int-offset : (a b : ℤ) → IsInt a → IsInt b → less_int a b ≡ ltb (offset a) (offset b)
less_int-offset (pos a) (pos b) h k = ground arith
less_int-offset (pos a) (negsuc b) h k = ground arith
less_int-offset (negsuc a) (pos b) h k = ground arith
less_int-offset (negsuc a) (negsuc b) h k = ground arith

same_int-offset : (a b : ℤ) → IsInt a → IsInt b → same_int a b ≡ (offset a == offset b)
same_int-offset (pos a) (pos b) h k = ground arith
same_int-offset (pos a) (negsuc b) h k = ground arith
same_int-offset (negsuc a) (pos b) h k = ground arith
same_int-offset (negsuc a) (negsuc b) h k = ground arith

module _ (x y z x' y' z' : ℕ) (p : y < 2 ^ 32) (q : z < 2 ^ 32) (p' : y' < 2 ^ 32)
    (q' : z' < 2 ^ 32) where
  key-lex :
      ((ltb x x' || ((x == x') && (ltb y y' || ((y == y') && ltb z z')))) ≡ true)
      ↔ (x * 2 ^ 64 + y * 2 ^ 32 + z < x' * 2 ^ 64 + y' * 2 ^ 32 + z')
  key-lex = (λ h. ground arith, λ h. ground arith)

-- One version is before another, for numbers of a 32-bit int, exactly when the one number that its
-- three make up is smaller, each of the three counted from the least int, the major one the most
-- significant and the patch the least.
pub less_iff : (a b : SemVer) → IsVersion a → IsVersion b → (less a b ≡ true) ↔ (key a < key b)
less_iff a b (i, j, k) (i', j', k') =
    rw
      (
        less_int-offset a.major b.major i i',
        same_int-offset a.major b.major i i',
        less_int-offset a.minor b.minor j j',
        same_int-offset a.minor b.minor j j',
        less_int-offset a.patch b.patch k k',
      )
      (key-lex (offset a.major) (offset a.minor) (offset a.patch) (offset b.major) (offset b.minor)
        (offset b.patch) (offset_bound a.minor j) (offset_bound a.patch k) (offset_bound b.minor j')
        (offset_bound b.patch k'))

-- Exactly one of three tests holds.
pub data OneOf : Bool → Bool → Bool → Type 0 where
  first : OneOf true false false
  second : OneOf false true false
  third : OneOf false false true

nat-OneOf : (a b : ℕ) → OneOf (ltb a b) (a == b) (ltb b a)
nat-OneOf a b = elim (Bool-cases (ltb a b)) [
  | inl h ↦
      let same : (a == b) ≡ false = ground arith in
      let more : ltb b a ≡ false = ground arith in rw (h, same, more) OneOf.first
  | inr h ↦ elim (Bool-cases (a == b)) [
    | inl k ↦ let more : ltb b a ≡ false = ground arith in rw (h, k, more) OneOf.second
    | inr k ↦ let more : ltb b a ≡ true = ground arith in rw (h, k, more) OneOf.third
  ]
]

int-OneOf : (a b : ℤ) → OneOf (less_int a b) (same_int a b) (less_int b a)
int-OneOf (pos a) (pos b) = nat-OneOf a b
int-OneOf (pos a) (negsuc b) = OneOf.third
int-OneOf (negsuc a) (pos b) = OneOf.first
int-OneOf (negsuc a) (negsuc b) =
    let same : (a == b) ≡ (b == a) = ground arith in rw same (nat-OneOf b a)

-- The next field decides where one is the same.
OneOf-then :
    {l e g m f h : Bool}
    → OneOf l e g
    → OneOf m f h
    → OneOf (l || (e && m)) (e && f) (g || (e && h))
OneOf-then OneOf.first o = OneOf.first
OneOf-then OneOf.second o = o
OneOf-then OneOf.third o = OneOf.third

same_int_comm : (a b : ℤ) → same_int a b ≡ same_int b a
same_int_comm (pos a) (pos b) = ground arith
same_int_comm (pos a) (negsuc b) = refl
same_int_comm (negsuc a) (pos b) = refl
same_int_comm (negsuc a) (negsuc b) = ground arith

-- One field before the rest.
abbrev lex : ℤ → ℤ → Bool → Bool
lex x y r = less_int x y || (same_int x y && r)

-- Of two versions exactly one holds: the first is before the second, they are equal, or the second
-- is before the first.
pub less-OneOf : (a b : SemVer) → OneOf (less a b) (equal a b) (less b a)
less-OneOf a b =
    rw (same_int_comm b.major a.major, same_int_comm b.minor a.minor)
      (OneOf-then (int-OneOf a.major b.major)
        (OneOf-then (int-OneOf a.minor b.minor) (int-OneOf a.patch b.patch)))

less-first : {l e g : Bool} → OneOf l e g → l ≡ true → g ≡ true → ⊥
less-first OneOf.first h k = cc
less-first OneOf.second h k = cc
less-first OneOf.third h k = cc

pub less_asym : (a b : SemVer) → less a b ≡ true → less b a ≡ false
less_asym a b h = elim (Bool-cases (less b a)) [
  | inl k ↦ absurd (less-first (less-OneOf a b) h k)
  | inr k ↦ k
]

-- No version is before itself.
pub less_irrefl : (a : SemVer) → less a a ≡ false
less_irrefl a = elim (Bool-cases (less a a)) [
  | inl h ↦ absurd (less-first (less-OneOf a a) h h)
  | inr h ↦ h
]

lex-split :
    (x y z : ℤ) (r q t : Bool)
    → lex x z t ≡ true
    → (t ≡ true → (r || q) ≡ true)
    → (lex x y r || lex y z q) ≡ true
lex-split (pos a) (pos b) (pos c) r q t h m = ground arith
lex-split (pos a) (pos b) (negsuc c) r q t h m = ground arith
lex-split (pos a) (negsuc b) (pos c) r q t h m = ground arith
lex-split (pos a) (negsuc b) (negsuc c) r q t h m = ground arith
lex-split (negsuc a) (pos b) (pos c) r q t h m = ground arith
lex-split (negsuc a) (pos b) (negsuc c) r q t h m = ground arith
lex-split (negsuc a) (negsuc b) (pos c) r q t h m = ground arith
lex-split (negsuc a) (negsuc b) (negsuc c) r q t h m = ground arith

int-split : (x y z : ℤ) → less_int x z ≡ true → (less_int x y || less_int y z) ≡ true
int-split (pos a) (pos b) (pos c) h = ground arith
int-split (pos a) (pos b) (negsuc c) h = ground arith
int-split (pos a) (negsuc b) (pos c) h = ground arith
int-split (pos a) (negsuc b) (negsuc c) h = ground arith
int-split (negsuc a) (pos b) (pos c) h = ground arith
int-split (negsuc a) (pos b) (negsuc c) h = ground arith
int-split (negsuc a) (negsuc b) (pos c) h = ground arith
int-split (negsuc a) (negsuc b) (negsuc c) h = ground arith

-- Where one version is before another, any third one is behind the first or before the second.
pub less-split : (a b c : SemVer) → less a c ≡ true → (less a b || less b c) ≡ true
less-split a b c h =
    lex-split a.major b.major c.major _ _ _ h
      (λ k. lex-split a.minor b.minor c.minor _ _ _ k (int-split a.patch b.patch c.patch))
