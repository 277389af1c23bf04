-- ===== src/SemVer/Tests.antt =====
-- Versions read and compared.
use solix.Prelude.{ℕ, ◌<◌, ◌↔◌, ◌≡◌, refl, true, [], ◌∷◌, ◌++◌, codes, some, arith}
use solix.SemVer.{pos, SemVer, less, equal, digits_value, parse}
use solix.SemVer.Order.{OneOf, less-OneOf, key, less_iff}
use solix.SemVer.Reading.{IsNumber, parse-numbers}

abbrev version : ℕ → ℕ → ℕ → SemVer
version a b c = record { major = pos a; minor = pos b; patch = pos c; raw = [] }

less-OneOf_example :
    OneOf
      (less (version 1 2 3) (version 1 3 0))
      (equal (version 1 2 3) (version 1 3 0))
      (less (version 1 3 0) (version 1 2 3))
less-OneOf_example = less-OneOf (version 1 2 3) (version 1 3 0)

less_iff_example :
    (less (version 1 9 9) (version 2 0 0) ≡ true) ↔ (key (version 1 9 9) < key (version 2 0 0))
less_iff_example =
    less_iff (version 1 9 9) (version 2 0 0) (omega arith, omega arith, omega arith)
      (omega arith, omega arith, omega arith)

one-IsNumber : IsNumber (codes "1")
unfolding digits_value
one-IsNumber = (refl, tt, omega arith)

ten-IsNumber : IsNumber (codes "10")
unfolding digits_value
ten-IsNumber = (refl, (refl, tt), omega arith)

-- `1.10.1-rc.2`
parse-numbers_example :
    parse (codes "1" ++ b'.' ∷ (codes "10" ++ b'.' ∷ (codes "1" ++ codes "-rc.2")))
    ≡ some (record {
      major = pos (digits_value 0 (codes "1"));
      minor = pos (digits_value 0 (codes "10"));
      patch = pos (digits_value 0 (codes "1"));
      raw = codes "1" ++ b'.' ∷ (codes "10" ++ b'.' ∷ (codes "1" ++ codes "-rc.2"));
    })
parse-numbers_example =
    parse-numbers (codes "1") (codes "10") (codes "1") (codes "-rc.2") one-IsNumber ten-IsNumber
      one-IsNumber refl
