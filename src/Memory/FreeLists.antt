-- ===== src/Memory/FreeLists.antt =====
-- `std::map<Address, uint32_t>` and `std::multimap<uint32_t, Address>` as lists in key order; the
-- `std::unordered_map`s of the runtime, whose order nothing reads, are such lists too.
-- Of equal keys of the multimap the oldest comes first, as in the standard library, and `find` and
-- `lower_bound` return the first.
use solix.Prelude.{ℕ, Option, none, some, List, [], ◌∷◌, ◌==◌, ltb, leb, ◌&&◌, if◌then◌else◌}

abbrev pub Pairs : Type 0
Pairs = List (ℕ × ℕ)

-- `map::find(k)`, `multimap::find(k)`: the value of the first entry with this key.
unfoldable pub find {ℓ} : {V : Type ℓ} → ℕ → List (ℕ × V) → Option V
find k [] = none
find k ((j, v) ∷ r) = if j == k then some v else find k r

-- `multimap::lower_bound(k)`: the first entry whose key is not below `k`.
unfoldable pub lower_bound : ℕ → Pairs → Option (ℕ × ℕ)
lower_bound k [] = none
lower_bound k ((j, v) ∷ r) = if leb k j then some (j, v) else lower_bound k r

-- The entry before `map::lower_bound(k)`: the last one whose key is below `k`.
unfoldable pub before : ℕ → Pairs → Option (ℕ × ℕ)
before k [] = none
before k ((j, v) ∷ r) =
    if ltb j k then elim (before k r) [ none ↦ some (j, v) | some e ↦ some e ] else none

-- `map::erase(key)`
unfoldable pub erase_key {ℓ} : {V : Type ℓ} → ℕ → List (ℕ × V) → List (ℕ × V)
erase_key k [] = []
erase_key k ((j, v) ∷ r) = if j == k then r else (j, v) ∷ erase_key k r

-- `multimap::erase(it)`, at the first entry with this key and value.
unfoldable pub erase_entry : ℕ → ℕ → Pairs → Pairs
erase_entry k w [] = []
erase_entry k w ((j, v) ∷ r) = if j == k && v == w then r else (j, v) ∷ erase_entry k w r

-- `map[k] = w`
unfoldable pub put {ℓ} : {V : Type ℓ} → ℕ → V → List (ℕ × V) → List (ℕ × V)
put k w [] = (k, w) ∷ []
put k w ((j, v) ∷ r) =
    if j == k then (k, w) ∷ r else if ltb k j then (k, w) ∷ (j, v) ∷ r else (j, v) ∷ put k w r

-- `multimap::insert({k, w})`: behind the entries with the same key.
unfoldable pub add : ℕ → ℕ → Pairs → Pairs
add k w [] = (k, w) ∷ []
add k w ((j, v) ∷ r) = if ltb k j then (k, w) ∷ (j, v) ∷ r else (j, v) ∷ add k w r

-- The keys in order.
unfoldable pub keys : Pairs → List ℕ
keys [] = []
keys ((j, v) ∷ r) = j ∷ keys r
