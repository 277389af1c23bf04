-- ===== src/OpCode/Tests.antt =====
-- The instruction set at single instructions.
use solix.Prelude.{◌≡◌, ◌↔◌, some}
use solix.OpCode.{throw_exception}
use solix.OpCode.Print.{opcode_to_string}
use solix.OpCode.Parse.{string_to_opcode}
use solix.OpCode.Decode.{encode, decode, decode_iff}
use solix.OpCode.Names.{string_to_opcode-opcode_to_string}

decode_iff_example : (decode 90 ≡ some throw_exception) ↔ (90 ≡ encode throw_exception)
decode_iff_example = decode_iff 90 throw_exception

string_to_opcode-opcode_to_string_example :
    string_to_opcode (opcode_to_string throw_exception) ≡ throw_exception
string_to_opcode-opcode_to_string_example = string_to_opcode-opcode_to_string throw_exception
