-- ===== src/Assembler.antt =====
-- The emitters of core/src/processes/assembler.cpp: what they append to the bytecode.
pub mod ReadBack
mod Tests
use solix.Prelude.{ℕ, ◌/◌, ◌%◌, ◌^◌, List, [], ◌∷◌, ◌++◌, length}
use solix.Word.{u32}

-- `bytecode().push_back(byte)`
abbrev pub emit_byte : ℕ → List ℕ → List ℕ
emit_byte byte code = code ++ byte ∷ []

unfoldable pub emit_int32 : ℕ → List ℕ → List ℕ
emit_int32 value code =
    let c1 = emit_byte (value / 2 ^ 24 % 256) code in
    let c2 = emit_byte (value / 2 ^ 16 % 256) c1 in
    let c3 = emit_byte (value / 2 ^ 8 % 256) c2 in emit_byte (value % 256) c3

unfoldable pub emit_int64 : ℕ → List ℕ → List ℕ
emit_int64 value code =
    let c1 = emit_byte (value / 2 ^ 56 % 256) code in
    let c2 = emit_byte (value / 2 ^ 48 % 256) c1 in
    let c3 = emit_byte (value / 2 ^ 40 % 256) c2 in
    let c4 = emit_byte (value / 2 ^ 32 % 256) c3 in
    let c5 = emit_byte (value / 2 ^ 24 % 256) c4 in
    let c6 = emit_byte (value / 2 ^ 16 % 256) c5 in
    let c7 = emit_byte (value / 2 ^ 8 % 256) c6 in emit_byte (value % 256) c7

-- The loop `for (char c : value) emit_byte(c);`
unfoldable pub emit_chars : List ℕ → List ℕ → List ℕ
emit_chars [] code = code
emit_chars (c ∷ cs) code = emit_chars cs (emit_byte c code)

unfoldable pub emit_string : List ℕ → List ℕ → List ℕ
emit_string value code = emit_chars value (emit_int32 (u32 (length value)) code)
