-- ===== src/Vm/Control.antt =====
-- HALT, EXIT, ASSERT and the instructions that drop references, of `RuntimeContext::run_bytecode`.
use solix.Prelude.{
  ℕ, zero, suc, ◌+◌, ◌/◌, ◌%◌, ◌^◌, List, [], ◌∷◌, Bool, not, ◌&&◌, leb, ltb, ◌==◌, if◌then◌else◌,
}
use solix.Outcome.{Outcome, ok, throw, assertion_failed, ◌>>=◌}
use solix.Word.{u32}
use solix.Memory.State.{Memory, read_u8, read_u64, get_array_length}
use solix.Vm.State.{Vm, Step, stop, call_depth, pop, next_byte, code_u32, code_u64, top_frame}
use solix.Vm.Release.{Engine}

-- `instruction_budget > 0 && instructions_executed >= instruction_budget`
abbrev pub over_budget : Vm → Bool
over_budget s = ltb 0 s.instruction_budget && leb s.instruction_budget s.instructions_executed

unfoldable pub halt : Vm → Outcome Step
halt s =
    if over_budget s
    then ok (stop s)
    else if s.entry_method_called && ltb 0 s.stack_pointer
    then (do (val, s1) ← pop s; ok (stop (record s1 { exit_code = u32 val })))
    else ok (stop s)

unfoldable pub exit : Vm → Outcome Step
exit s = do
  (code_val, s1) ← if ltb 0 s.stack_pointer then pop s else ok (0, s)
  ok (stop (record s1 { exit_code = u32 code_val }))

abbrev pub is_text_length : ℕ → Bool
is_text_length len = not (len == 0) && leb len 100000

-- The array that a field of the message object refers to, if it can be a text.
unfoldable pub text_field : ℕ → ℕ → ℕ × ℕ → Memory → Outcome (ℕ × ℕ)
text_field msg_val offset (char_addr, len) m = do
  field ← read_u64 (u32 msg_val) offset m
  if ltb 0 field && ltb field m.heap_size
      then (do
        f_len ← get_array_length (u32 field) m
        ok (if is_text_length f_len then (field, f_len) else (char_addr, len)))
      else ok (char_addr, len)

-- Where the characters of the message lie: in the array itself or in the array of a field.
unfoldable pub message_text : ℕ → Memory → Outcome (ℕ × ℕ)
message_text msg_val m = do
  len ← get_array_length (u32 msg_val) m
  if is_text_length len then ok (msg_val, len) else do
    (char_addr, len1) ←
        if leb (msg_val + 16) m.heap_size
        then text_field msg_val 8 (msg_val, len) m
        else ok (msg_val, len)
    if is_text_length len1 then ok (char_addr, len1) else text_field msg_val 0 (char_addr, len1) m

unfoldable pub read_chars : ℕ → ℕ → ℕ → Memory → Outcome (List ℕ)
read_chars char_addr i zero m = ok []
read_chars char_addr i (suc n) m = do
  c ← read_u8 char_addr i m
  r ← read_chars char_addr (i + 1) n m
  ok (c ∷ r)

unfoldable pub assert_message : Bool → ℕ → Memory → Outcome (List ℕ)
assert_message has_msg msg_val m =
    if has_msg && (ltb 0 msg_val && ltb msg_val m.heap_size)
    then (do (char_addr, len) ← message_text msg_val m; read_chars (u32 char_addr) 0 len m)
    else ok []

-- The error does not carry the message in the model.
unfoldable pub assert : Vm → Outcome Vm
assert s = do
  (has_msg, s1) ← next_byte s
  (line_num, s2) ← code_u32 s1
  (col_num, s3) ← code_u32 s2
  (msg_val, s4) ← if has_msg == 0 then ok (0, s3) else pop s3
  (c, s5) ← pop s4
  if c == 0
      then (do _ ← assert_message (not (has_msg == 0)) msg_val s5.memory; throw assertion_failed)
      else ok s5

module _ (e : Engine) where
  unfoldable pub dec_ref : Vm → Outcome Vm
  dec_ref s = do (a, s1) ← pop s; e.decrease_reference (u32 a) s1

  unfoldable pub dec_ref_callable : Vm → Outcome Vm
  dec_ref_callable s = do
    (val, s1) ← pop s
    if val / 2 ^ 32 == 0 then ok s1 else e.decrease_reference_callable (val / 2 ^ 32) s1

  abbrev slot_is_ref : ℕ → ℕ → Bool
  slot_is_ref index ref_mask =
      if ltb index 64 then ref_mask / 2 ^ index % 2 == 1 else ref_mask % 2 == 1

  unfoldable pub dec_ref_slot : Vm → Outcome Vm
  dec_ref_slot s = do
    (index, s1) ← code_u32 s
    (ref_mask, s2) ← code_u64 s1
    if slot_is_ref index ref_mask && ltb 0 (call_depth s2)
        then (do
          f ← top_frame s2
          let slot = u32 (f.frame_pointer + index)
          if ltb slot s2.stack_capacity && not (s2.stack slot == 0)
              then e.decrease_reference (u32 (s2.stack slot)) s2
              else ok s2)
        else ok s2
