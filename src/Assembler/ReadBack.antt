-- ===== src/Assembler/ReadBack.antt =====
-- What the assembler emits, against what the readers of the bytecode in core/src/runtime.cpp read.
use solix.Prelude.{
  ℕ, ◌+◌, ◌*◌, ◌/◌, ◌%◌, ◌^◌, ◌<◌, ◌≡◌, refl, sym, ◌∙◌, ap, List, [], ◌∷◌, ◌++◌, length, get_elem?,
  some, false, arith, ltb,
}
use mathlib.Core.List.{append_assoc, append-nil}
use solix.Outcome.{ok}
use solix.Word.{u32}
use solix.Vm.State.{Vm, code_byte, big_endian, code_u32, code_u64, code_bytes, code_string}
use solix.Assembler.{emit_int32, emit_int64, emit_chars, emit_string}

length-append : (xs ys : List ℕ) → length (xs ++ ys) ≡ length xs + length ys
length-append [] ys = omega arith
length-append (x ∷ xs) ys = omega (arith, length-append xs ys)

get_elem?-append :
    (xs : List ℕ) (b : ℕ) (ys : List ℕ) → get_elem? (xs ++ b ∷ ys) (length xs) ≡ some b
get_elem?-append [] b ys = refl
get_elem?-append (x ∷ xs) b ys = get_elem?-append xs b ys

-- Bytes as digits, the most significant first, after a number.
abbrev digits : ℕ → List ℕ → ℕ
digits acc [] = acc
digits acc (b ∷ bs) = digits (acc * 256 + b) bs

module _ (s : Vm) (rest : List ℕ) where
  code_byte-append :
      (b : ℕ) (bs code : List ℕ)
      → s.bytecode ≡ code ++ (b ∷ bs ++ rest)
      → code_byte (length code) s ≡ ok b
  unfolding code_byte
  code_byte-append b bs code e =
      let g : get_elem? s.bytecode (length code) ≡ some b =
        ap (λ c. get_elem? c (length code)) e ∙ get_elem?-append code b (bs ++ rest) in
      rw (g, code_byte) refl

  later :
      (b : ℕ) (bs code : List ℕ)
      → s.bytecode ≡ code ++ (b ∷ bs ++ rest)
      → s.bytecode ≡ (code ++ b ∷ []) ++ (bs ++ rest)
  later b bs code e = e ∙ sym (append_assoc code (b ∷ []) (bs ++ rest))

  big_endian-append :
      (bs code : List ℕ) (acc : ℕ)
      → s.bytecode ≡ code ++ (bs ++ rest)
      → big_endian (length bs) (length code) acc s ≡ ok (digits acc bs)
  unfolding big_endian
  big_endian-append [] code acc e = refl
  big_endian-append (b ∷ bs) code acc e =
      let n : length code + 1 ≡ length (code ++ b ∷ []) =
        omega (arith, length-append code (b ∷ [])) in
      rw (code_byte-append b bs code e, n)
        (big_endian-append bs (code ++ b ∷ []) (acc * 256 + b) (later b bs code e))

  code_bytes-append :
      (bs code : List ℕ)
      → s.bytecode ≡ code ++ (bs ++ rest)
      → code_bytes (length bs) (length code) s ≡ ok bs
  unfolding code_bytes
  code_bytes-append [] code e = refl
  code_bytes-append (b ∷ bs) code e =
      let n : length code + 1 ≡ length (code ++ b ∷ []) =
        omega (arith, length-append code (b ∷ [])) in
      rw
        (code_byte-append b bs code e, n, code_bytes-append bs (code ++ b ∷ []) (later b bs code e))
        refl

bytes32 : ℕ → List ℕ
bytes32 v = v / 2 ^ 24 % 256 ∷ v / 2 ^ 16 % 256 ∷ v / 2 ^ 8 % 256 ∷ v % 256 ∷ []

emit_int32-append :
    (v : ℕ) (code rest : List ℕ) → emit_int32 v code ++ rest ≡ code ++ (bytes32 v ++ rest)
unfolding emit_int32 bytes32
emit_int32-append v code rest = simp (append_assoc) refl

emit_chars-append : (cs code rest : List ℕ) → emit_chars cs code ++ rest ≡ code ++ (cs ++ rest)
unfolding emit_chars
emit_chars-append [] code rest = refl
emit_chars-append (c ∷ cs) code rest =
    emit_chars-append cs (code ++ c ∷ []) rest ∙ append_assoc code (c ∷ []) (cs ++ rest)

digits32 : (v : ℕ) → v < 2 ^ 32 → digits 0 (bytes32 v) ≡ v
unfolding bytes32
digits32 v h = omega arith

bytes64 : ℕ → List ℕ
bytes64 v =
    v / 2 ^ 56 % 256
    ∷ v / 2 ^ 48 % 256
    ∷ v / 2 ^ 40 % 256
    ∷ v / 2 ^ 32 % 256
    ∷ v / 2 ^ 24 % 256
    ∷ v / 2 ^ 16 % 256
    ∷ v / 2 ^ 8 % 256
    ∷ v % 256
    ∷ []

emit_int64-append :
    (v : ℕ) (code rest : List ℕ) → emit_int64 v code ++ rest ≡ code ++ (bytes64 v ++ rest)
unfolding emit_int64 bytes64
emit_int64-append v code rest = simp (append_assoc) refl

digits64 : (v : ℕ) → v < 2 ^ 64 → digits 0 (bytes64 v) ≡ v
unfolding bytes64
digits64 v h = omega arith

-- The number of bytes of a bytecode with a known part.
length_parts :
    (code bs rest l : List ℕ)
    → l ≡ code ++ (bs ++ rest)
    → length l ≡ length code + (length bs + length rest)
length_parts code bs rest l e =
    ap (λ (c : List ℕ). length c) e
    ∙ length-append code (bs ++ rest)
    ∙ ap (λ (n : ℕ). length code + n) (length-append bs rest)

-- The machine after `n` bytes of its bytecode.
abbrev pub advance : ℕ → Vm → Vm
advance n s = record s { program_counter = s.program_counter + n }

module _ (s : Vm) (code rest : List ℕ) (at : s.program_counter ≡ length code) where
  -- A number of 32 bits that the assembler emits behind some code is read back by the runtime
  -- where that code ends, and the reader goes on behind it, in bytecode of less than 2^32 bytes.
  pub code_u32-emit_int32 :
      (v : ℕ)
      → v < 2 ^ 32
      → s.bytecode ≡ emit_int32 v code ++ rest
      → length s.bytecode < 2 ^ 32
      → code_u32 s ≡ ok (v, advance 4 s)
  unfolding code_u32
  code_u32-emit_int32 v h e small =
      let e' : s.bytecode ≡ code ++ (bytes32 v ++ rest) = e ∙ emit_int32-append v code rest in
      let l = length_parts code (bytes32 v) rest s.bytecode e' in
      let four : length (bytes32 v) ≡ 4 = unfold bytes32 in refl in
      let d : big_endian 4 (length code) 0 s ≡ ok (digits 0 (bytes32 v)) =
        unfold bytes32 in big_endian-append s rest (bytes32 v) code 0 e' in
      let r : big_endian 4 s.program_counter 0 s ≡ ok v =
        ap (λ (n : ℕ). big_endian 4 n 0 s) at ∙ d ∙ ap ok (digits32 v h) in
      let u : u32 (s.program_counter + 4) ≡ s.program_counter + 4 = omega (arith, at, l, four) in
      let b : ltb (length s.bytecode) (s.program_counter + 4) ≡ false =
        ground (arith, at, l, four) in
      rw (u, b, r) refl

  -- A number of 64 bits that the assembler emits behind some code is read back by the runtime
  -- where that code ends, and the reader goes on behind it, in bytecode of less than 2^32 bytes.
  pub code_u64-emit_int64 :
      (v : ℕ)
      → v < 2 ^ 64
      → s.bytecode ≡ emit_int64 v code ++ rest
      → length s.bytecode < 2 ^ 32
      → code_u64 s ≡ ok (v, advance 8 s)
  unfolding code_u64
  code_u64-emit_int64 v h e small =
      let e' : s.bytecode ≡ code ++ (bytes64 v ++ rest) = e ∙ emit_int64-append v code rest in
      let l = length_parts code (bytes64 v) rest s.bytecode e' in
      let eight : length (bytes64 v) ≡ 8 = unfold bytes64 in refl in
      let d : big_endian 8 (length code) 0 s ≡ ok (digits 0 (bytes64 v)) =
        unfold bytes64 in big_endian-append s rest (bytes64 v) code 0 e' in
      let r : big_endian 8 s.program_counter 0 s ≡ ok v =
        ap (λ (n : ℕ). big_endian 8 n 0 s) at ∙ d ∙ ap ok (digits64 v h) in
      let u : u32 (s.program_counter + 8) ≡ s.program_counter + 8 = omega (arith, at, l, eight) in
      let b : ltb (length s.bytecode) (s.program_counter + 8) ≡ false =
        ground (arith, at, l, eight) in
      rw (u, b, r) refl

length-emit_int32 : (v : ℕ) (code : List ℕ) → length (emit_int32 v code) ≡ length code + 4
unfolding bytes32
length-emit_int32 v code =
    ap (λ (c : List ℕ). length c)
      (sym (append-nil (emit_int32 v code)) ∙ emit_int32-append v code [])
    ∙ length-append code (bytes32 v ++ [])

-- A string that the assembler emits behind some code is read back by the runtime where that code
-- ends, and the reader goes on behind it, in bytecode of less than 2^32 bytes.
pub code_string-emit_string :
    (s : Vm) (str code rest : List ℕ)
    → s.program_counter ≡ length code
    → s.bytecode ≡ emit_string str code ++ rest
    → length s.bytecode < 2 ^ 32
    → code_string s ≡ ok (str, advance (4 + length str) s)
unfolding code_string emit_string
code_string-emit_string s str code rest at e small =
    let n = u32 (length str) in
    let e1 : s.bytecode ≡ emit_int32 n code ++ (str ++ rest) =
      e ∙ emit_chars-append str (emit_int32 n code) rest in
    let l = length_parts (emit_int32 n code) str rest s.bytecode e1 in
    let k = length-emit_int32 n code in
    let r1 = code_u32-emit_int32 s code (str ++ rest) at n (omega arith) e1 small in
    let m : n ≡ length str = omega (arith, l) in
    let p : s.program_counter + 4 ≡ length (emit_int32 n code) = omega (arith, at, k) in
    let r2 : code_bytes n (s.program_counter + 4) (advance 4 s) ≡ ok str =
      ap (λ (i : ℕ). code_bytes n i (advance 4 s)) p
      ∙ ap (λ (i : ℕ). code_bytes i (length (emit_int32 n code)) (advance 4 s)) m
      ∙ code_bytes-append (advance 4 s) rest str (emit_int32 n code) e1 in
    let u : u32 (s.program_counter + 4 + n) ≡ s.program_counter + (4 + length str) =
      omega (arith, p, l, m) in
    let b : ltb (length s.bytecode) (s.program_counter + (4 + length str)) ≡ false =
      ground (arith, p, l, m) in
    rw (r1, u, b, r2) refl
