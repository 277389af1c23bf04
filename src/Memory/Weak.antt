-- ===== src/Memory/Weak.antt =====
-- The weak references that `Memory::deallocate` clears.
use solix.Prelude.{
  ℕ, ◌+◌, ◌^◌, ◌≤◌, ◌<◌, ◌≡◌, refl, ◌∙◌, ◌⊎◌, inl, inr, List, [], ◌∷◌, none, some, arith, All,
  Option-cases,
}
use native.Mathlib.Nat.{add-zero}
use solix.Outcome.{ok}
use solix.Memory.Heap.{Bytes, store, store_outside, store_zero, store_zero-zero}
use solix.Memory.FreeLists.{Pairs, find, erase_key}
use solix.Memory.State.{Memory, write_u64}
use solix.Memory.Deallocate.{clear_slots, clear_weak}
use solix.Memory.Blocks.{entries}
use solix.Memory.Stored.{header_payload, header_cong}
use solix.Memory.FreeSpace.{write-ok}

-- A slot of eight bytes inside the heap that touches the header of no live block.
pub record IsSlot (live : Pairs) (size : ℕ) (slot : ℕ) : Type 0 where
  pub in_heap : slot + 8 ≤ size
  pub off_headers : (a p : ℕ) → 0 < entries a p live → (slot + 8 ≤ a) ⊎ (a + 8 ≤ slot)

abbrev pub zero_slots : List ℕ → Bytes → Bytes
zero_slots [] h = h
zero_slots (slot ∷ slots) h = zero_slots slots (store 8 slot 0 h)

-- The slots that `clear_weak` writes.
abbrev pub slots_of : ℕ → Memory → List ℕ
slots_of address m = elim (find address m.weak_references) [ none ↦ [] | some slots ↦ slots ]

pub zero_slots-zero : (slots : List ℕ) (h : Bytes) (x : ℕ) → h x ≡ 0 → zero_slots slots h x ≡ 0
zero_slots-zero [] h x e = e
zero_slots-zero (slot ∷ slots) h x e =
    zero_slots-zero slots (store 8 slot 0 h) x (store_zero-zero 8 slot h x e)

-- A byte of one of the slots.
pub data InSlot (x : ℕ) : List ℕ → Type 0 where
  here : {slot : ℕ} {slots : List ℕ} → slot ≤ x → x < slot + 8 → InSlot x (slot ∷ slots)
  there : {slot : ℕ} {slots : List ℕ} → InSlot x slots → InSlot x (slot ∷ slots)

pub zero_slots_inside :
    {x : ℕ} {slots : List ℕ} (h : Bytes) → InSlot x slots → zero_slots slots h x ≡ 0
zero_slots_inside {x} h (here {slot} {slots} l u) =
    zero_slots-zero slots (store 8 slot 0 h) x (store_zero 8 slot h x l u)
zero_slots_inside h (there {slot} i) = zero_slots_inside (store 8 slot 0 h) i

-- The memory after `clear_weak`.
unfoldable pub after_clear : ℕ → Memory → Memory
after_clear address m = record m {
  heap = zero_slots (slots_of address m) m.heap;
  weak_references = elim (find address m.weak_references) [
    | none ↦ m.weak_references
    | some _ ↦ erase_key address m.weak_references
  ];
}

module _ (live : Pairs) where
  pub header_payload-zero_slots :
      (size : ℕ) (slots : List ℕ) (h : Bytes)
      → All (IsSlot live size) slots
      → (a p : ℕ) → 0 < entries a p live
      → header_payload a (zero_slots slots h) ≡ header_payload a h
  header_payload-zero_slots size [] h g a p i = refl
  header_payload-zero_slots size (slot ∷ slots) h g a p i =
      header_payload-zero_slots size slots (store 8 slot 0 h) g.1 a p i
      ∙ header_cong a h (store 8 slot 0 h)
          (λ x l u. store_outside 8 slot 0 h x (let o = g.0.off_headers a p i in ground arith))

  clear_slots-ok :
      (slots : List ℕ) (m : Memory)
      → m.heap_size < 2 ^ 32
      → All (IsSlot live m.heap_size) slots
      → clear_slots slots m ≡ ok (record m { heap = zero_slots slots m.heap })
  unfolding clear_slots write_u64
  clear_slots-ok [] m s g = refl
  clear_slots-ok (slot ∷ slots) m s g =
      rw (write-ok 8 slot 0 0 m (omega (arith, g.0.in_heap)) s, add-zero)
        (clear_slots-ok slots (record m { heap = store 8 slot 0 m.heap }) s g.1)

  pub clear_weak-ok :
      (address : ℕ) (m : Memory)
      → m.heap_size < 2 ^ 32
      → All (IsSlot live m.heap_size) (slots_of address m)
      → clear_weak address m ≡ ok (after_clear address m)
  unfolding clear_weak after_clear
  clear_weak-ok address m s g = elim (Option-cases (find address m.weak_references)) [
    | inl e ↦ rw (e, clear_weak, slots_of)
    | inr (slots, e) ↦
        rw (e, clear_weak, slots_of) (rw (clear_slots-ok slots m s (rw (e, slots_of) at g)))
  ]
