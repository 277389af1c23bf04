-- ===== src/Vm/State.antt =====
-- `struct RuntimeContext` and `struct Frame` of core/include/solix/runtime.hpp, the operand stack,
-- and the readers of the bytecode in core/src/runtime.cpp.
use solix.Prelude.{
  ℕ, zero, suc, ◌+◌, ◌-◌, ◌*◌, Bool, none, some, List, [], ◌∷◌, get_elem?, length, leb, ltb, ◌==◌,
  if◌then◌else◌,
}
use solix.Outcome.{
  Outcome, ok, throw, undefined, stack_overflow, stack_underflow, malformed_bytecode, ◌>>=◌,
}
use solix.Word.{u32}
use solix.Memory.Heap.{update}
use solix.Memory.State.{Memory}

pub record Frame : Type 0 where
  pub return_ip : ℕ
  pub frame_pointer : ℕ
  pub arg_count : ℕ
  pub closure_env : ℕ

-- `call_stack` holds the frames below `call_depth`, the innermost first. A native function is
-- known by its address, 0 for nullptr.
pub record Vm : Type 0 where
  pub memory : Memory
  pub stack : ℕ → ℕ
  pub stack_capacity : ℕ
  pub stack_pointer : ℕ
  pub bytecode : List ℕ
  pub program_counter : ℕ
  pub exit_code : ℕ
  pub entry_method_called : Bool
  pub call_stack : List Frame
  pub active_closure_env : ℕ
  pub active_exception : ℕ
  pub return_to_cleanup : List (ℕ × ℕ)
  pub native_table : List ℕ
  pub native_registry : List (ℕ × ℕ)
  pub vtables : List (ℕ × List ℕ)
  pub vtable_bases : List (ℕ × ℕ)
  pub itables : List (ℕ × List (ℕ × List ℕ))
  pub vtable_ref_fields : List (ℕ × List ℕ)
  pub vtable_destructors : List (ℕ × ℕ)
  pub active_destructors : List ℕ
  pub instruction_budget : ℕ
  pub instructions_executed : ℕ

abbrev pub call_depth : Vm → ℕ
call_depth s = length s.call_stack

-- `PUSH(val)`
unfoldable pub push : ℕ → Vm → Outcome Vm
push val s =
    if leb s.stack_capacity s.stack_pointer
    then throw stack_overflow
    else ok (record s {
      stack = update s.stack s.stack_pointer val;
      stack_pointer = s.stack_pointer + 1;
    })

-- `POP()`
unfoldable pub pop : Vm → Outcome (ℕ × Vm)
pop s =
    if s.stack_pointer == 0
    then throw stack_underflow
    else ok (s.stack (s.stack_pointer - 1), record s { stack_pointer = s.stack_pointer - 1 })

-- `PEEK()`
unfoldable pub peek : Vm → Outcome ℕ
peek s = if s.stack_pointer == 0 then throw stack_underflow else ok (s.stack (s.stack_pointer - 1))

-- `*(sp - k)`, unchecked.
unfoldable pub below_top : ℕ → Vm → Outcome ℕ
below_top k s = if leb k s.stack_pointer then ok (s.stack (s.stack_pointer - k)) else undefined

-- `code[pc]`, unchecked.
unfoldable pub code_byte : ℕ → Vm → Outcome ℕ
code_byte pc s = elim (get_elem? s.bytecode pc) [ none ↦ undefined | some b ↦ ok b ]

-- `code[program_counter++]`
unfoldable pub next_byte : Vm → Outcome (ℕ × Vm)
next_byte s = do
  b ← code_byte s.program_counter s
  ok (b, record s { program_counter = u32 (s.program_counter + 1) })

-- `n` bytes from `pc`, the most significant first.
unfoldable pub big_endian : ℕ → ℕ → ℕ → Vm → Outcome ℕ
big_endian zero pc acc s = ok acc
big_endian (suc n) pc acc s = do b ← code_byte pc s; big_endian n (pc + 1) (acc * 256 + b) s

-- `read_u32(bytecode, program_counter)`
unfoldable pub code_u32 : Vm → Outcome (ℕ × Vm)
code_u32 s =
    if ltb (length s.bytecode) (u32 (s.program_counter + 4)) then throw malformed_bytecode else do
      val ← big_endian 4 s.program_counter 0 s
      ok (val, record s { program_counter = u32 (s.program_counter + 4) })

-- `read_u64(bytecode, program_counter)`
unfoldable pub code_u64 : Vm → Outcome (ℕ × Vm)
code_u64 s =
    if ltb (length s.bytecode) (u32 (s.program_counter + 8)) then throw malformed_bytecode else do
      val ← big_endian 8 s.program_counter 0 s
      ok (val, record s { program_counter = u32 (s.program_counter + 8) })

unfoldable pub code_bytes : ℕ → ℕ → Vm → Outcome (List ℕ)
code_bytes zero pc s = ok []
code_bytes (suc n) pc s = do b ← code_byte pc s; r ← code_bytes n (pc + 1) s; ok (b ∷ r)

-- `read_string(bytecode, program_counter)`
unfoldable pub code_string : Vm → Outcome (List ℕ × Vm)
code_string s = do
  (len, s1) ← code_u32 s
  if ltb (length s1.bytecode) (u32 (s1.program_counter + len)) then throw malformed_bytecode else do
    str ← code_bytes len s1.program_counter s1
    ok (str, record s1 { program_counter = u32 (s1.program_counter + len) })

-- `call_stack[call_depth - 1]`: outside the vector where there is no frame.
unfoldable pub top_frame : Vm → Outcome Frame
top_frame s = elim s.call_stack [ [] ↦ undefined | f ∷ _ ↦ ok f ]

-- A step of the memory inside the machine.
abbrev pub in_memory : Vm → Outcome Memory → Outcome Vm
in_memory s r = do m ← r; ok (record s { memory = m })

-- What follows an instruction: the next one, or the end of this run of the machine.
pub data Step : Type 0 where
  next : Vm → Step
  stop : Vm → Step

abbrev pub dispatch : Outcome Vm → Outcome Step
dispatch r = do s ← r; ok (next s)
