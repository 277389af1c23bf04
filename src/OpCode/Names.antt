-- ===== src/OpCode/Names.antt =====
-- The two name tables of the instructions, against each other.
use solix.Prelude.{◌≡◌, refl, ◌∙◌, sym, ap}
use solix.OpCode.{OpCode, halt}
use solix.OpCode.Print.{opcode_to_string}
use solix.OpCode.Parse.{string_to_opcode}

-- The name of an instruction is read back as that instruction.
pub string_to_opcode-opcode_to_string : (op : OpCode) → string_to_opcode (opcode_to_string op) ≡ op
unfolding string_to_opcode opcode_to_string
string_to_opcode-opcode_to_string halt = refl
string_to_opcode-opcode_to_string _ = refl

-- So different instructions have different names.
pub opcode_to_string-injective : (a b : OpCode) → opcode_to_string a ≡ opcode_to_string b → a ≡ b
opcode_to_string-injective a b e =
    sym (string_to_opcode-opcode_to_string a)
    ∙ ap string_to_opcode e
    ∙ string_to_opcode-opcode_to_string b
