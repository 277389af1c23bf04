-- ===== src/SemVer.antt =====
-- `struct SemVer` of tools/cli/src/semver.hpp.
use solix.Prelude.{
  ℕ, zero, suc, ◌+◌, ◌-◌, ◌*◌, ◌^◌, Bool, true, false, ◌&&◌, ◌||◌, not, List, [], ◌∷◌, ◌++◌, Bytes,
  leb, ltb, ◌==◌, if◌then◌else◌, Option, none, some,
}
pub mod Order
pub mod Reading
mod Tests

-- `int`, with the library's names.
pub data ℤ : Type 0 where
  pos : ℕ → ℤ
  negsuc : ℕ → ℤ

-- `<` on int.
abbrev pub less_int : ℤ → ℤ → Bool
less_int (pos a) (pos b) = ltb a b
less_int (pos a) (negsuc b) = false
less_int (negsuc a) (pos b) = true
less_int (negsuc a) (negsuc b) = ltb b a

-- `==` on int.
abbrev pub same_int : ℤ → ℤ → Bool
same_int (pos a) (pos b) = a == b
same_int (pos a) (negsuc b) = false
same_int (negsuc a) (pos b) = false
same_int (negsuc a) (negsuc b) = a == b

pub record SemVer : Type 0 where
  pub major : ℤ
  pub minor : ℤ
  pub patch : ℤ
  pub raw : Bytes

-- `std::isspace` in the C locale.
abbrev pub is_space : ℕ → Bool
is_space c = c == b' ' || (leb 9 c && leb c 13)

abbrev pub is_digit : ℕ → Bool
is_digit c = leb b'0' c && leb c b'9'

unfoldable pub skip_space : Bytes → Bytes
skip_space [] = []
skip_space (c ∷ cs) = let rest = skip_space cs in if is_space c then rest else c ∷ cs

-- The number that the digits up to another byte spell, behind one.
unfoldable pub digits_value : ℕ → Bytes → ℕ
digits_value acc [] = acc
digits_value acc (c ∷ cs) =
    let more = digits_value (acc * 10 + (c - b'0')) cs in if is_digit c then more else acc

-- A number with a sign, where it is an `int`.
abbrev pub to_int : Bool → ℕ → Option ℤ
to_int negative n =
    if negative
    then (if leb n (2 ^ 31) then some (elim n [ zero ↦ pos 0 | suc m ↦ negsuc m ]) else none)
    else if ltb n (2 ^ 31)
    then some (pos n)
    else none

-- The digits behind the sign; without one std::invalid_argument.
unfoldable pub stoi_digits : Bool → Bytes → Option ℤ
stoi_digits negative [] = none
stoi_digits negative (c ∷ cs) =
    if is_digit c then to_int negative (digits_value 0 (c ∷ cs)) else none

-- Behind the spaces.
unfoldable pub signed : Bytes → Option ℤ
signed [] = none
signed (c ∷ cs) =
    if c == b'-'
    then stoi_digits true cs
    else if c == b'+'
    then stoi_digits false cs
    else stoi_digits false (c ∷ cs)

-- `std::stoi`, `none` for either exception.
unfoldable pub stoi : Bytes → Option ℤ
stoi s = signed (skip_space s)

abbrev pub add_first : ℕ → List Bytes → List Bytes
add_first c [] = (c ∷ []) ∷ []
add_first c (p ∷ ps) = (c ∷ p) ∷ ps

-- What `std::getline(ss, part, '.')` gives, one part after the other.
unfoldable pub parts : Bytes → List Bytes
parts [] = []
parts (c ∷ cs) = let rest = parts cs in if c == b'.' then [] ∷ rest else add_first c rest

-- A part before the others; one that is no number ends the loop without a version.
abbrev pub push_part : Option ℤ → Option (List ℤ) → Option (List ℤ)
push_part none rest = none
push_part (some n) none = none
push_part (some n) (some ns) = some (n ∷ ns)

-- The loop of `parse` over three parts at most; a missing one is 0.
unfoldable pub read_parts : ℕ → List Bytes → Option (List ℤ)
read_parts room [] = some []
read_parts zero (p ∷ ps) = some []
read_parts (suc room) (p ∷ ps) = push_part (stoi p) (read_parts room ps)

-- `parts[i]`
abbrev pub part_at : ℕ → List ℤ → ℤ
part_at i [] = pos 0
part_at Prim.Native.Nat.zero (n ∷ ns) = n
part_at (Prim.Native.Nat.suc i) (n ∷ ns) = part_at i ns

-- `s.substr(1)` for a `v` in front.
abbrev pub without_v : Bytes → Bytes
without_v [] = []
without_v (c ∷ cs) = if c == b'v' || c == b'V' then cs else c ∷ cs

-- The version of what the loop has read; without a part there is none.
abbrev pub finish : Bytes → Option (List ℤ) → Option SemVer
finish str none = none
finish str (some []) = none
finish str (some (n ∷ ns)) =
    some (record { major = n; minor = part_at 0 ns; patch = part_at 1 ns; raw = str })

unfoldable pub parse : Bytes → Option SemVer
parse str = finish str (read_parts 3 (parts (without_v str)))

-- `operator<`, the order of std::tie.
abbrev pub less : SemVer → SemVer → Bool
less a b =
    less_int a.major b.major
    || (same_int a.major b.major
        && (less_int a.minor b.minor || (same_int a.minor b.minor && less_int a.patch b.patch)))

-- `operator==`
abbrev pub equal : SemVer → SemVer → Bool
equal a b = same_int a.major b.major && (same_int a.minor b.minor && same_int a.patch b.patch)

pub data Compatibility : Type 0 where
  compatible_same_patch compatible_minor_difference incompatible_major_difference : Compatibility

unfoldable pub assess_compatibility : SemVer → SemVer → Compatibility
assess_compatibility v1 v2 =
    if not (same_int v1.major v2.major)
    then Compatibility.incompatible_major_difference
    else if not (same_int v1.minor v2.minor)
    then Compatibility.compatible_minor_difference
    else Compatibility.compatible_same_patch
