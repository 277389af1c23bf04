-- ===== src/Vm/Counting.antt =====
-- Taking and dropping a reference, `Memory::increase_reference` and `Memory::decrease_reference`.
use solix.Prelude.{
  ℕ, ◌+◌, ◌-◌, ◌*◌, ◌^◌, ◌≤◌, ◌<◌, ◌≡◌, ◌∙◌, refl, ◌⊎◌, false, ◌||◌, arith, leb, ltb, ◌==◌,
}
use solix.Outcome.{ok, ◌>>=◌}
use solix.Memory.Heap.{Bytes, load, store, load-store, store_outside}
use solix.Memory.State.{Memory, read_u32, write_u32, ref_of, with_ref}
use solix.Memory.References.{increase_reference}
use solix.Memory.FreeSpace.{write-ok}
use solix.Memory.DeallocateSafe.{read-ok}
use solix.Vm.State.{Vm}
use solix.Vm.Release.{Engine, set_ref, decrease_reference}

-- The header word of the block at `address` has this tag and this reference count.
abbrev pub HasHeader : ℕ → ℕ → ℕ → Bytes → Type 0
HasHeader address tag ref h = load 4 (address - 8 + 4) h ≡ tag * 2 ^ 28 + ref

-- Only the header word of the block at `address` differs.
abbrev pub SameBut : ℕ → Bytes → Bytes → Type 0
SameBut address h g = (x : ℕ) → (x < address - 4) ⊎ (address ≤ x) → g x ≡ h x

module _ (address tag ref : ℕ) (g : tag < 16) (r : ref + 1 < 2 ^ 28) (lo : 8 ≤ address) where
  -- A reference that is taken is counted, and nothing else in the heap changes.
  increase_reference_lem :
      (m : Memory)
      → address < m.heap_size
      → m.heap_size < 2 ^ 32
      → HasHeader address tag ref m.heap
      → (m' : Memory) × (increase_reference address m ≡ ok m')
        × (m'.heap_size ≡ m.heap_size)
        × HasHeader address tag (ref + 1) m'.heap
        × SameBut address m.heap m'.heap
  unfolding increase_reference read_u32 write_u32
  increase_reference_lem m hi small h =
      let b : (ltb address 8 || leb m.heap_size address) ≡ false = ground arith in
      let w : with_ref (tag * 2 ^ 28 + ref) (ref_of (tag * 2 ^ 28 + ref) + 1)
          ≡ tag * 2 ^ 28 + (ref + 1) =
        omega arith in
      (
        record m { heap = store 4 (address - 8 + 4) (tag * 2 ^ 28 + (ref + 1)) m.heap },
        rw (b, read-ok 4 (address - 8) 4 m (omega arith) small, h, w)
            (write-ok 4 (address - 8) 4 (tag * 2 ^ 28 + (ref + 1)) m (omega arith) small),
        refl,
        load-store 4 (address - 8 + 4) (tag * 2 ^ 28 + (ref + 1)) m.heap (omega arith),
        λ x o. store_outside 4 (address - 8 + 4) (tag * 2 ^ 28 + (ref + 1)) m.heap x (ground arith),
      )

  -- A reference that is dropped while there are others is only discounted: no destructor runs and
  -- nothing is released, whatever the rest of the machine would do.
  decrease_reference_lem :
      (e : Engine) (s : Vm)
      → 0 < ref
      → address < s.memory.heap_size
      → s.memory.heap_size < 2 ^ 32
      → HasHeader address tag (ref + 1) s.memory.heap
      → (m' : Memory) × (decrease_reference e address s ≡ ok (record s { memory = m' }))
        × HasHeader address tag ref m'.heap
        × SameBut address s.memory.heap m'.heap
  unfolding decrease_reference set_ref read_u32 write_u32
  decrease_reference_lem e s pos hi small h =
      let m = s.memory in
      let b : (ltb address 8 || leb m.heap_size address) ≡ false = ground arith in
      let k : ref_of (tag * 2 ^ 28 + (ref + 1)) ≡ ref + 1 = omega arith in
      let z : (ref + 1 == 0) ≡ false = ground arith in
      let o : (ref + 1 == 1) ≡ false = ground arith in
      let w : with_ref (tag * 2 ^ 28 + (ref + 1)) (ref + 1 - 1) ≡ tag * 2 ^ 28 + ref =
        omega arith in
      (
        record m { heap = store 4 (address - 8 + 4) (tag * 2 ^ 28 + ref) m.heap },
        rw (
          b,
          read-ok 4 (address - 8) 4 m (omega arith) small,
          h,
          k,
          z,
          o,
          w,
          write-ok 4 (address - 8) 4 (tag * 2 ^ 28 + ref) m (omega arith) small,
        ),
        load-store 4 (address - 8 + 4) (tag * 2 ^ 28 + ref) m.heap (omega arith),
        λ x i. store_outside 4 (address - 8 + 4) (tag * 2 ^ 28 + ref) m.heap x (ground arith),
      )

  -- A reference to a block inside the heap that is taken and dropped again leaves the header and
  -- every other byte of the heap as they were, and runs no destructor, for a reference count from
  -- one to two below 2^28.
  pub increase-decrease :
      (e : Engine) (s : Vm)
      → 0 < ref
      → address < s.memory.heap_size
      → s.memory.heap_size < 2 ^ 32
      → HasHeader address tag ref s.memory.heap
      → (m' : Memory) × ((do
        m ← increase_reference address s.memory
        decrease_reference e address (record s { memory = m }))
          ≡ ok (record s { memory = m' }))
        × HasHeader address tag ref m'.heap
        × SameBut address s.memory.heap m'.heap
  increase-decrease e s pos hi small h =
      let (m, p, z, h1, k1) = increase_reference_lem s.memory hi small h in
      let (m', q, h2, k2) =
        decrease_reference_lem e (record s { memory = m }) pos (omega (arith, z)) (omega (arith, z))
          h1 in
      (m', rw p q, h2, λ x o. k2 x o ∙ k1 x o)
