-- ===== src/Memory/Blocks.antt =====
-- How many blocks of a list hold a byte, and how the free lists change that number.
use solix.Prelude.{
  ℕ, ◌+◌, ◌≤◌, ◌<◌, ◌≡◌, refl, none, some, [], ◌∷◌, arith, ◌==◌, ltb, leb, ◌&&◌, if◌then◌else◌,
}
use solix.Memory.FreeLists.{Pairs, find, lower_bound, before, erase_key, erase_entry, put, add}

-- A block `(header, payload)` takes the eight bytes of its header and its payload.
abbrev pub covers : ℕ → ℕ → ℕ → ℕ
covers x a p = if leb a x && ltb x (a + 8 + p) then 1 else 0

unfoldable pub cover : ℕ → Pairs → ℕ
cover x [] = 0
cover x ((a, p) ∷ r) = covers x a p + cover x r

abbrev pub one : ℕ → ℕ → ℕ → ℕ → ℕ
one k v j w = if j == k && w == v then 1 else 0

-- How often a list has the entry `(k, v)`.
unfoldable pub entries : ℕ → ℕ → Pairs → ℕ
entries k v [] = 0
entries k v ((j, w) ∷ r) = one k v j w + entries k v r

pub cover-erase_key :
    (x a s : ℕ) (l : Pairs) → find a l ≡ some s → cover x (erase_key a l) + covers x a s ≡ cover x l
unfolding find erase_key cover
cover-erase_key x a s [] h = ground arith
cover-erase_key x a s ((j, v) ∷ r) h = ground (arith, cover-erase_key x a s r)

pub cover-put :
    (x a s : ℕ) (l : Pairs) → find a l ≡ none → cover x (put a s l) ≡ covers x a s + cover x l
unfolding find put cover
cover-put x a s [] h = ground arith
cover-put x a s ((j, v) ∷ r) h = ground (arith, cover-put x a s r)

pub entries-erase_key :
    (k v a s : ℕ) (l : Pairs)
    → find a l ≡ some s
    → entries k v (erase_key a l) + one k v a s ≡ entries k v l
unfolding find erase_key entries
entries-erase_key k v a s [] h = ground arith
entries-erase_key k v a s ((j, w) ∷ r) h = ground (arith, entries-erase_key k v a s r)

pub entries-put :
    (k v a s : ℕ) (l : Pairs)
    → find a l ≡ none
    → entries k v (put a s l) ≡ one k v a s + entries k v l
unfolding find put entries
entries-put k v a s [] h = ground arith
entries-put k v a s ((j, w) ∷ r) h = ground (arith, entries-put k v a s r)

pub entries-add : (k v a s : ℕ) (l : Pairs) → entries k v (add a s l) ≡ one k v a s + entries k v l
unfolding add entries
entries-add k v a s [] = ground arith
entries-add k v a s ((j, w) ∷ r) = ground (arith, entries-add k v a s r)

pub entries-erase_entry :
    (k v a s : ℕ) (l : Pairs)
    → 0 < entries a s l
    → entries k v (erase_entry a s l) + one k v a s ≡ entries k v l
unfolding erase_entry entries
entries-erase_entry k v a s [] h = ground arith
entries-erase_entry k v a s ((j, w) ∷ r) h = ground (arith, entries-erase_entry k v a s r)

pub entries_of_find : (k v : ℕ) (l : Pairs) → find k l ≡ some v → 0 < entries k v l
unfolding find entries
entries_of_find k v [] h = ground arith
entries_of_find k v ((j, w) ∷ r) h = ground (arith, entries_of_find k v r)

pub entries_of_lower_bound :
    (k j v : ℕ) (l : Pairs) → lower_bound k l ≡ some (j, v) → (k ≤ j) × (0 < entries j v l)
unfolding lower_bound entries
entries_of_lower_bound k j v [] h = ground arith
entries_of_lower_bound k j v ((i, w) ∷ r) h = ground (arith, entries_of_lower_bound k j v r)

pub entries_of_before :
    (k j v : ℕ) (l : Pairs) → before k l ≡ some (j, v) → (j < k) × (0 < entries j v l)
unfolding before entries
entries_of_before k j v [] h = ground arith
entries_of_before k j v ((i, w) ∷ r) h = ground (arith, entries_of_before k j v r)

pub cover_of_entries : (x k v : ℕ) (l : Pairs) → 0 < entries k v l → covers x k v ≤ cover x l
unfolding cover entries
cover_of_entries x k v [] h = ground arith
cover_of_entries x k v ((j, w) ∷ r) h = ground (arith, cover_of_entries x k v r)

pub entries_of_cover_zero : (k v : ℕ) (l : Pairs) → cover k l ≡ 0 → entries k v l ≡ 0
unfolding cover entries
entries_of_cover_zero k v [] h = refl
entries_of_cover_zero k v ((j, w) ∷ r) h = ground (arith, entries_of_cover_zero k v r)

pub find_of_cover_zero : (k : ℕ) (l : Pairs) → cover k l ≡ 0 → find k l ≡ none
unfolding cover find
find_of_cover_zero k [] h = refl
find_of_cover_zero k ((j, w) ∷ r) h = ground (arith, find_of_cover_zero k r)

-- Where no byte is in two blocks, an entry is the only one with its key.
pub find_of_entries : (k v : ℕ) (l : Pairs) → 0 < entries k v l → cover k l ≤ 1 → find k l ≡ some v
unfolding cover find entries
find_of_entries k v [] h c = ground arith
find_of_entries k v ((j, w) ∷ r) h c =
    ground (arith, find_of_entries k v r, cover_of_entries k k v r)
