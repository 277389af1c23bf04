-- ===== src/Assembler/Tests.antt =====
-- Emitted numbers and strings, read back.
use solix.Prelude.{ℕ, ◌≡◌, refl, List, [], ◌∷◌, arith}
use solix.Outcome.{ok}
use solix.Vm.State.{Vm, code_u32, code_u64, code_string}
use solix.Vm.Tests.{machine}
use solix.Assembler.{emit_int32, emit_int64, emit_chars, emit_string}
use solix.Assembler.ReadBack.{
  advance, code_u32-emit_int32, code_u64-emit_int64, code_string-emit_string,
}

-- The machine at the second byte of some bytecode.
abbrev reading : List ℕ → Vm
reading code = record machine { bytecode = code; program_counter = 1 }

code_u32-emit_int32_example :
    code_u32 (reading (emit_int32 70000 (5 ∷ [])))
    ≡ ok (70000, advance 4 (reading (emit_int32 70000 (5 ∷ []))))
code_u32-emit_int32_example =
    code_u32-emit_int32 (reading (emit_int32 70000 (5 ∷ []))) (5 ∷ []) [] refl 70000 (ground arith)
      (unfold emit_int32 in refl) (unfold emit_int32 in ground arith)

code_u64-emit_int64_example :
    code_u64 (reading (emit_int64 70000 (5 ∷ [])))
    ≡ ok (70000, advance 8 (reading (emit_int64 70000 (5 ∷ []))))
code_u64-emit_int64_example =
    code_u64-emit_int64 (reading (emit_int64 70000 (5 ∷ []))) (5 ∷ []) [] refl 70000 (ground arith)
      (unfold emit_int64 in refl) (unfold emit_int64 in ground arith)

code_string-emit_string_example :
    code_string (reading (emit_string (72 ∷ 105 ∷ []) (5 ∷ [])))
    ≡ ok (72 ∷ 105 ∷ [], advance 6 (reading (emit_string (72 ∷ 105 ∷ []) (5 ∷ []))))
code_string-emit_string_example =
    code_string-emit_string (reading (emit_string (72 ∷ 105 ∷ []) (5 ∷ []))) (72 ∷ 105 ∷ [])
      (5 ∷ []) [] refl (unfold emit_string emit_chars emit_int32 in refl)
      (unfold emit_string emit_chars emit_int32 in ground arith)
