-- ===== src/Vm/Elements.antt =====
-- The accesses of GET_PROPERTY, SET_PROPERTY, GET_ARRAY and SET_ARRAY at each width.
use solix.Prelude.{
  arith, if◌then◌else◌, inl, inr, ℕ, ◌*◌, ◌+◌, ◌<◌, ◌==◌, ◌^◌, ◌||◌, ◌≡◌, ◌≢◌, ◌≤◌, ◌⊎◌,
}
use solix.Outcome.{Outcome, ok}
use solix.Word.{u8, u16, u32}
use solix.Memory.Heap.{store, load-store, store_outside, Fits}
use solix.Memory.State.{
  Memory, read, write, read_u8, read_u16, read_u32, read_u64, write_u8, write_u16, write_u32,
  write_u64,
}
use solix.Memory.BlockTag
use solix.Vm.State.{Vm}
use solix.Vm.Conversion.{sign_extend8, sign_extend16, sign_extend32}
use solix.Vm.Objects.{property_bytes, read_property, write_property, read_element, write_element}

-- The value of a property of a width code: unsigned of 1, 2, 4 bytes, signed for 5, 6, 7, else
-- eight bytes.
abbrev pub property_value : ℕ → ℕ → ℕ
property_value width v =
    if width == 1
    then u8 v
    else if width == 2
    then u16 v
    else if width == 4
    then u32 v
    else if width == 5
    then sign_extend8 v
    else if width == 6
    then sign_extend16 v
    else if width == 7
    then sign_extend32 v
    else v

write-read :
    (n address offset v : ℕ) (m : Memory)
    → u32 (address + offset) + n ≤ m.heap_size
    → Fits n v
    → (m' : Memory) × (write n address offset v m ≡ ok m')
      × (read n address offset m' ≡ ok v)
      × ((x : ℕ)
          → (x < u32 (address + offset)) ⊎ (u32 (address + offset) + n ≤ x)
          → m'.heap x ≡ m.heap x)
unfolding write read
write-read n address offset v m h f = (
  record m { heap = store n (u32 (address + offset)) v m.heap },
  ground arith,
  (let e = load-store n (u32 (address + offset)) v m.heap f in ground arith),
  λ x o. store_outside n (u32 (address + offset)) v m.heap x o,
)

sign_extend8-u8 : (v : ℕ) → sign_extend8 (u8 v) ≡ sign_extend8 v
unfolding sign_extend8
sign_extend8-u8 v = ground arith

sign_extend16-u16 : (v : ℕ) → sign_extend16 (u16 v) ≡ sign_extend16 v
unfolding sign_extend16
sign_extend16-u16 v = ground arith

sign_extend32-u32 : (v : ℕ) → sign_extend32 (u32 v) ≡ sign_extend32 v
unfolding sign_extend32
sign_extend32-u32 v = ground arith

-- The heaps agree outside `n` bytes from the address `a`.
pub SameOutside : ℕ → ℕ → Memory → Memory → Type 0
SameOutside a n m m' = (x : ℕ) → (x < a) ⊎ (a + n ≤ x) → m'.heap x ≡ m.heap x

-- A property of one of the seven width codes that is written inside the heap reads back as the
-- 64-bit value cut to its width, sign-extended for the signed ones, and no other byte of the heap
-- changes.
pub read-write_property :
    (width obj offset v : ℕ) (m : Memory)
    → ((width ≡ 1) ⊎ (width ≡ 2))
      ⊎ (((width ≡ 4) ⊎ (width ≡ 5)) ⊎ (((width ≡ 6) ⊎ (width ≡ 7)) ⊎ (width ≡ 8)))
    → u32 (obj + offset) + property_bytes width ≤ m.heap_size
    → v < 2 ^ 64
    → (m' : Memory) × (write_property width obj offset v m ≡ ok m')
      × (read_property width obj offset m' ≡ ok (property_value width v))
      × SameOutside (u32 (obj + offset)) (property_bytes width) m m'
unfolding SameOutside write_property read_property read_u8 read_u16 read_u32 read_u64 write_u8
    write_u16 write_u32 write_u64
read-write_property width obj offset v m (inl (inl w)) h b =
    let (m', p, q, r) = write-read 1 obj offset (u8 v) m (ground arith) (omega arith) in
    (m', ground arith, ground arith, λ x o. r x (ground arith))
read-write_property width obj offset v m (inl (inr w)) h b =
    let (m', p, q, r) = write-read 2 obj offset (u16 v) m (ground arith) (omega arith) in
    (m', ground arith, ground arith, λ x o. r x (ground arith))
read-write_property width obj offset v m (inr (inl (inl w))) h b =
    let (m', p, q, r) = write-read 4 obj offset (u32 v) m (ground arith) (omega arith) in
    (m', ground arith, ground arith, λ x o. r x (ground arith))
read-write_property width obj offset v m (inr (inl (inr w))) h b =
    let (m', p, q, r) = write-read 1 obj offset (u8 v) m (ground arith) (omega arith) in
    (m', ground arith, ground (arith, sign_extend8-u8 v), λ x o. r x (ground arith))
read-write_property width obj offset v m (inr (inr (inl (inl w)))) h b =
    let (m', p, q, r) = write-read 2 obj offset (u16 v) m (ground arith) (omega arith) in
    (m', ground arith, ground (arith, sign_extend16-u16 v), λ x o. r x (ground arith))
read-write_property width obj offset v m (inr (inr (inl (inr w)))) h b =
    let (m', p, q, r) = write-read 4 obj offset (u32 v) m (ground arith) (omega arith) in
    (m', ground arith, ground (arith, sign_extend32-u32 v), λ x o. r x (ground arith))
read-write_property width obj offset v m (inr (inr (inr w))) h b =
    let (m', p, q, r) = write-read 8 obj offset v m (ground arith) (omega arith) in
    (m', ground arith, ground arith, λ x o. r x (ground arith))

-- The width of the elements of an array, and the value that reading an element gives.
abbrev pub element_bytes : ℕ → ℕ
element_bytes tag =
    if tag == BlockTag.array_u8 || tag == BlockTag.array_i8
    then 1
    else if tag == BlockTag.array_u16 || tag == BlockTag.array_i16
    then 2
    else if tag == BlockTag.array_u32 || tag == BlockTag.array_i32
    then 4
    else 8

abbrev pub element_value : ℕ → ℕ → ℕ
element_value tag v =
    if tag == BlockTag.array_u8
    then u8 v
    else if tag == BlockTag.array_i8
    then sign_extend8 v
    else if tag == BlockTag.array_u16
    then u16 v
    else if tag == BlockTag.array_i16
    then sign_extend16 v
    else if tag == BlockTag.array_u32
    then u32 v
    else if tag == BlockTag.array_i32
    then sign_extend32 v
    else v

element_cases :
    (tag : ℕ)
    → ((tag ≡ 2) ⊎ (tag ≡ 3))
      ⊎ (((tag ≡ 4) ⊎ (tag ≡ 5)) ⊎ (((tag ≡ 6) ⊎ (tag ≡ 7)) ⊎ ((tag < 2) ⊎ (7 < tag))))
element_cases tag = ground arith

module _ (dec : ℕ → Vm → Outcome Vm) (array index v : ℕ) (s : Vm) (i : index < 2 ^ 32)
    (b : v < 2 ^ 64) where
  -- An element of an array that does not hold references, at an index of 32 bits, is written
  -- inside the heap and reads back as the 64-bit value cut to the width of the elements, sign-
  -- extended for the signed ones, and no other byte of the heap changes.
  pub read-write_element :
      (tag : ℕ)
      → tag ≢ BlockTag.array_ref
      → u32 (array + u32 (index * element_bytes tag)) + element_bytes tag ≤ s.memory.heap_size
      → (m' : Memory) × (write_element dec tag array index v s ≡ ok (record s { memory = m' }))
        × (read_element tag array index m' ≡ ok (element_value tag v))
        × SameOutside
            (u32 (array + u32 (index * element_bytes tag)))
            (element_bytes tag)
            s.memory
            m'
  unfolding SameOutside write_element read_element read_u8 read_u16 read_u32 read_u64 write_u8
      write_u16 write_u32 write_u64
  read-write_element tag n h = elim (element_cases tag) [
    | inl (inl w) ↦
        let (m', p, q, r) = write-read 1 array index (u8 v) s.memory (ground arith) (omega arith) in
        (m', ground arith, ground arith, λ x o. r x (ground arith))
    | inl (inr w) ↦
        let (m', p, q, r) = write-read 1 array index (u8 v) s.memory (ground arith) (omega arith) in
        (m', ground arith, ground (arith, sign_extend8-u8 v), λ x o. r x (ground arith))
    | inr (inl (inl w)) ↦
        let (m', p, q, r) =
          write-read 2 array (u32 (index * 2)) (u16 v) s.memory (ground arith) (omega arith) in
        (m', ground arith, ground arith, λ x o. r x (ground arith))
    | inr (inl (inr w)) ↦
        let (m', p, q, r) =
          write-read 2 array (u32 (index * 2)) (u16 v) s.memory (ground arith) (omega arith) in
        (m', ground arith, ground (arith, sign_extend16-u16 v), λ x o. r x (ground arith))
    | inr (inr (inl (inl w))) ↦
        let (m', p, q, r) =
          write-read 4 array (u32 (index * 4)) (u32 v) s.memory (ground arith) (omega arith) in
        (m', ground arith, ground arith, λ x o. r x (ground arith))
    | inr (inr (inl (inr w))) ↦
        let (m', p, q, r) =
          write-read 4 array (u32 (index * 4)) (u32 v) s.memory (ground arith) (omega arith) in
        (m', ground arith, ground (arith, sign_extend32-u32 v), λ x o. r x (ground arith))
    | inr (inr (inr w)) ↦
        let (m', p, q, r) =
          write-read 8 array (u32 (index * 8)) v s.memory (ground arith) (omega arith) in
        (m', ground arith, ground arith, λ x o. r x (ground arith))
  ]
