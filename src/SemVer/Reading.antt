-- ===== src/SemVer/Reading.antt =====
-- Versions are read from their numbers.
use solix.Prelude.{
  ℕ, suc, ◌+◌, ◌*◌, ◌-◌, ◌^◌, ◌<◌, ◌≡◌, refl, sym, ◌∙◌, ap, ap₂, inl, inr, true, false, ◌||◌, List,
  [], ◌∷◌, ◌++◌, Bytes, some, All, arith, ltb, ◌==◌, Bool-cases,
}
use mathlib.Core.List.{append-nil}
use solix.SemVer.{
  ℤ, pos, is_digit, is_space, skip_space, digits_value, stoi_digits, to_int, signed, stoi,
  push_part, finish, add_first, parts, read_parts, without_v, parse,
}

-- Decimal digits, one at least, of a number below 2^31.
abbrev pub IsNumber : Bytes → Type 0
IsNumber [] = ⊥
IsNumber (c ∷ cs) =
    (is_digit c ≡ true) × All (λ d. is_digit d ≡ true) cs × (digits_value 0 (c ∷ cs) < 2 ^ 31)

-- There is no digit in front.
abbrev pub NoDigit : Bytes → Type 0
NoDigit [] = Unit
NoDigit (c ∷ cs) = is_digit c ≡ false

digits_value-append :
    (acc : ℕ) (w p : Bytes)
    → All (λ d. is_digit d ≡ true) w
    → NoDigit p
    → digits_value acc (w ++ p) ≡ digits_value acc w
unfolding digits_value
digits_value-append acc [] [] h n = refl
digits_value-append acc [] (c ∷ p) h n = rw n refl
digits_value-append acc (c ∷ w) p (h, hs) n =
    rw h (digits_value-append (acc * 10 + (c - b'0')) w p hs n)

digit-plain :
    (c : ℕ)
    → is_digit c ≡ true
    → (is_space c ≡ false)
      × ((c == b'-') ≡ false)
      × ((c == b'+') ≡ false)
      × ((c == b'.') ≡ false)
      × ((c == b'v' || c == b'V') ≡ false)
digit-plain c h = ground arith

skip_space-none : (c : ℕ) (q : Bytes) → is_space c ≡ false → skip_space (c ∷ q) ≡ c ∷ q
unfolding skip_space
skip_space-none c q h = rw h refl

signed-digit :
    (c : ℕ) (q : Bytes) → is_digit c ≡ true → signed (c ∷ q) ≡ to_int false (digits_value 0 (c ∷ q))
unfolding signed stoi_digits
signed-digit c q h = let (_, minus, plus, _, _) = digit-plain c h in rw (minus, plus, h) refl

to_int-small : (n : ℕ) → n < 2 ^ 31 → to_int false n ≡ some (pos n)
to_int-small n h = let fits : ltb n (2 ^ 31) ≡ true = ground arith in rw fits refl

stoi-number : (w p : Bytes) → IsNumber w → NoDigit p → stoi (w ++ p) ≡ some (pos (digits_value 0 w))
unfolding stoi
stoi-number [] p h n = absurd h
stoi-number (c ∷ w) p (h, hs, small) n =
    ap signed (skip_space-none c (w ++ p) ((digit-plain c h).0))
    ∙ signed-digit c (w ++ p) h
    ∙ ap (to_int false) (digits_value-append 0 (c ∷ w) p (h, hs) n)
    ∙ to_int-small (digits_value 0 (c ∷ w)) small

stoi-whole : (w : Bytes) → IsNumber w → stoi w ≡ some (pos (digits_value 0 w))
stoi-whole w h = ap stoi (sym (append-nil w)) ∙ stoi-number w [] h tt

add_first-cons :
    (c : ℕ) (l : List Bytes) → (p : Bytes) × (ps : List Bytes) × (add_first c l ≡ (c ∷ p) ∷ ps)
add_first-cons c [] = ([], [], refl)
add_first-cons c (p ∷ ps) = (p, ps, refl)

parts-digits :
    (c : ℕ) (w r : Bytes)
    → is_digit c ≡ true
    → All (λ d. is_digit d ≡ true) w
    → parts ((c ∷ w) ++ b'.' ∷ r) ≡ (c ∷ w) ∷ parts r
unfolding parts
parts-digits c [] r h hs = rw ((digit-plain c h).3) refl
parts-digits c (d ∷ w) r h (k, hs) =
    rw ((digit-plain c h).3) (ap (add_first c) (parts-digits d w r k hs))

parts-number : (w r : Bytes) → IsNumber w → parts (w ++ b'.' ∷ r) ≡ w ∷ parts r
parts-number [] r h = absurd h
parts-number (c ∷ w) r (h, hs, _) = parts-digits c w r h hs

parts-tail :
    (c : ℕ) (w t : Bytes)
    → is_digit c ≡ true
    → All (λ d. is_digit d ≡ true) w
    → NoDigit t
    → (p : Bytes) × (ps : List Bytes) × (parts ((c ∷ w) ++ t) ≡ ((c ∷ w) ++ p) ∷ ps) × NoDigit p
unfolding parts
parts-tail c [] [] h hs n = ([], [], rw ((digit-plain c h).3) refl, tt)
parts-tail c [] (d ∷ t) h hs n = elim (Bool-cases (d == b'.')) [
  | inl e ↦ ([], parts t, rw ((digit-plain c h).3, e) refl, tt)
  | inr e ↦
      let (q, qs, k) = add_first-cons d (parts t) in
      (d ∷ q, qs, rw ((digit-plain c h).3, e, k) refl, n)
]
parts-tail c (d ∷ w) t h (k, hs) n =
    let (p, ps, e, m) = parts-tail d w t k hs n in
    (p, ps, rw ((digit-plain c h).3) (ap (add_first c) e), m)

room-none : (ps : List Bytes) → read_parts 0 ps ≡ some []
unfolding read_parts
room-none [] = refl
room-none (p ∷ ps) = refl

read_parts-more :
    (room : ℕ) (p : Bytes) (ps : List Bytes) (n : ℤ) (ns : List ℤ)
    → stoi p ≡ some n
    → read_parts room ps ≡ some ns
    → read_parts (suc room) (p ∷ ps) ≡ some (n ∷ ns)
unfolding read_parts
read_parts-more room p ps n ns h k = ap₂ push_part h k

-- A version of three numbers below 2^31 in decimal digits with dots between them is parsed as
-- these numbers, whatever follows the third one, as long as it does not begin with a digit.
pub parse-numbers :
    (x y z t : Bytes)
    → IsNumber x
    → IsNumber y
    → IsNumber z
    → NoDigit t
    → parse (x ++ b'.' ∷ (y ++ b'.' ∷ (z ++ t)))
      ≡ some (record {
        major = pos (digits_value 0 x);
        minor = pos (digits_value 0 y);
        patch = pos (digits_value 0 z);
        raw = x ++ b'.' ∷ (y ++ b'.' ∷ (z ++ t));
      })
unfolding parse
parse-numbers [] y z t h i j n = absurd h
parse-numbers x y [] t h i j n = absurd j
parse-numbers (a ∷ x) y (c ∷ z) t h i j n =
    let s = (a ∷ x) ++ b'.' ∷ (y ++ b'.' ∷ ((c ∷ z) ++ t)) in
    let (p, ps, e, m) = parts-tail c z t j.0 j.1 n in
    let no_v : without_v s ≡ s = rw ((digit-plain a h.0).4) refl in
    let all : parts s ≡ (a ∷ x) ∷ y ∷ ((c ∷ z) ++ p) ∷ ps =
      parts-number (a ∷ x) _ h ∙ ap (λ l. (a ∷ x) ∷ l) (parts-number y _ i ∙ ap (λ l. y ∷ l) e) in
    ap (λ q. finish s (read_parts 3 (parts q))) no_v
    ∙ ap (λ l. finish s (read_parts 3 l)) all
    ∙ ap (finish s) (
        read_parts-more 2 (a ∷ x) _ _ _ (stoi-whole (a ∷ x) h) (
          read_parts-more 1 y _ _ _ (stoi-whole y i)
            (read_parts-more 0 ((c ∷ z) ++ p) ps _ _ (stoi-number (c ∷ z) p j m) (room-none ps))))
