-- ===== src/Memory/Heap.antt =====
-- The bytes of `Memory::heap`, and `std::memcpy` of little-endian words to and from them.
use solix.Prelude.{
  ℕ, zero, suc, ◌+◌, ◌*◌, ◌/◌, ◌%◌, ◌≤◌, ◌<◌, ◌≡◌, refl, ◌⊎◌, arith, ◌==◌, ltb, leb, ◌&&◌,
  if◌then◌else◌,
}

abbrev pub Bytes : Type 0
Bytes = ℕ → ℕ

abbrev pub update : Bytes → ℕ → ℕ → Bytes
update h i v x = if x == i then v else h x

-- `memcpy(&heap[i], &value, n)` and `memcpy(&value, &heap[i], n)` of an n-byte value.
unfoldable pub store : ℕ → ℕ → ℕ → Bytes → Bytes
store zero i v h = h
store (suc n) i v h = store n (i + 1) (v / 256) (update h i (v % 256))

unfoldable pub load : ℕ → ℕ → Bytes → ℕ
load zero i h = 0
load (suc n) i h = h i + 256 * load n (i + 1) h

-- `memset(&heap[i], 0, n)`
unfoldable pub clear : ℕ → ℕ → Bytes → Bytes
clear i n h x = if leb i x && ltb x (i + n) then 0 else h x

-- The bytes outside the range that is written are kept.
pub store_outside : (n i v : ℕ) (h : Bytes) (x : ℕ) → (x < i) ⊎ (i + n ≤ x) → store n i v h x ≡ h x
unfolding store
store_outside zero i v h x o = refl
store_outside (suc n) i v h x o =
    ground (arith, store_outside n (i + 1) (v / 256) (update h i (v % 256)) x)

pub clear_outside : (i n : ℕ) (h : Bytes) (x : ℕ) → (x < i) ⊎ (i + n ≤ x) → clear i n h x ≡ h x
unfolding clear
clear_outside i n h x o = ground arith

pub clear_inside : (i n : ℕ) (h : Bytes) (x : ℕ) → i ≤ x → x < i + n → clear i n h x ≡ 0
unfolding clear
clear_inside i n h x a b = ground arith

-- A value that has n bytes.
abbrev pub Fits : ℕ → ℕ → Type 0
Fits zero v = v ≡ 0
Fits (suc n) v = Fits n (v / 256)

pub load-store : (n i v : ℕ) (h : Bytes) → Fits n v → load n i (store n i v h) ≡ v
unfolding load store
load-store zero i v h f = omega arith
load-store (suc n) i v h f = ground (
  arith,
  store_outside n (i + 1) (v / 256) (update h i (v % 256)) i,
  load-store n (i + 1) (v / 256) (update h i (v % 256)) f,
)

-- A load reads its own bytes only.
pub load_cong :
    (n i : ℕ) (g h : Bytes) → ((x : ℕ) → i ≤ x → x < i + n → g x ≡ h x) → load n i g ≡ load n i h
unfolding load
load_cong zero i g h e = refl
load_cong (suc n) i g h e = omega (
  arith,
  e i (omega arith) (omega arith),
  load_cong n (i + 1) g h (λ x a b. e x (omega arith) (omega arith)),
)

pub store_zero : (n i : ℕ) (h : Bytes) (x : ℕ) → i ≤ x → x < i + n → store n i 0 h x ≡ 0
unfolding store
store_zero zero i h x l u = absurd (omega arith)
store_zero (suc n) i h x l u =
    ground
      (arith, store_zero n (i + 1) (update h i 0) x, store_outside n (i + 1) 0 (update h i 0) x)

pub store_zero-zero : (n i : ℕ) (h : Bytes) (x : ℕ) → h x ≡ 0 → store n i 0 h x ≡ 0
unfolding store
store_zero-zero zero i h x e = e
store_zero-zero (suc n) i h x e = ground (arith, store_zero-zero n (i + 1) (update h i 0) x)
