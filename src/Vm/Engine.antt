-- ===== src/Vm/Engine.antt =====
-- `RuntimeContext::run_bytecode`: the dispatch of an instruction and the loop, and the knot that
-- ties the loop to the reference counting. `RuntimeContext::execute` starts it.
use solix.Prelude.{ℕ, zero, suc, ◌+◌, ◌*◌, List, [], ◌∷◌, none, some, length, leb, if◌then◌else◌}
use solix.Outcome.{Outcome, ok, throw, out_of_fuel, abstract_method, ◌>>=◌}
use solix.Word.{u32, u64}
use solix.OpCode.{OpCode}
use solix.OpCode.Decode.{decode}
use solix.Memory.BlockTag
use solix.Memory.State.{write_u64}
use solix.Memory.Allocate.{dynamic_allocation}
use solix.Vm.Arithmetic
use solix.Vm.Comparison
use solix.Vm.Conversion
use solix.Vm.Variables
use solix.Vm.Objects
use solix.Vm.Calls
use solix.Vm.Classes
use solix.Vm.Exceptions
use solix.Vm.Natives
use solix.Vm.Tuples
use solix.Vm.Release
use solix.Vm.Control
use solix.Vm.Arithmetic.{write_bytes}
use solix.Vm.Control.{over_budget}
use solix.Vm.Release.{Engine}
use solix.Vm.State.{Vm, Step, next, stop, push, dispatch, code_byte}
use solix.Vm.Host.{Host}

-- The labels `op_…`. `fuel` bounds the walks along base classes.
unfoldable pub execute_op : Host → Engine → ℕ → ℕ → OpCode → Vm → Outcome Step
execute_op _ _ _ _ OpCode.push_const_i8 s = dispatch (Arithmetic.push_const_32 s)
execute_op _ _ _ _ OpCode.push_const_i16 s = dispatch (Arithmetic.push_const_32 s)
execute_op _ _ _ _ OpCode.push_const_i32 s = dispatch (Arithmetic.push_const_32 s)
execute_op _ _ _ _ OpCode.push_const_i64 s = dispatch (Arithmetic.push_const_64 s)
execute_op _ _ _ _ OpCode.push_const_u8 s = dispatch (Arithmetic.push_const_32 s)
execute_op _ _ _ _ OpCode.push_const_u16 s = dispatch (Arithmetic.push_const_32 s)
execute_op _ _ _ _ OpCode.push_const_u32 s = dispatch (Arithmetic.push_const_32 s)
execute_op _ _ _ _ OpCode.push_const_u64 s = dispatch (Arithmetic.push_const_64 s)
execute_op _ _ _ _ OpCode.push_const_f32 s = dispatch (Arithmetic.push_const_32 s)
execute_op _ _ _ _ OpCode.push_const_f64 s = dispatch (Arithmetic.push_const_64 s)
execute_op _ _ _ _ OpCode.push_const_string s = dispatch (Arithmetic.push_const_string s)
execute_op _ _ _ _ OpCode.push_true s = dispatch (push 1 s)
execute_op _ _ _ _ OpCode.push_false s = dispatch (push 0 s)
execute_op _ _ _ _ OpCode.push_null s = dispatch (push 0 s)
execute_op _ _ _ _ OpCode.pop s = dispatch (Arithmetic.drop_top s)
execute_op _ _ _ _ OpCode.dup s = dispatch (Arithmetic.dup s)
execute_op _ _ _ _ OpCode.dup2 s = dispatch (Arithmetic.dup2 s)
execute_op _ _ _ _ OpCode.add_i64 s = dispatch (Arithmetic.add_i64 s)
execute_op host _ _ _ OpCode.add_f64 s = dispatch (Arithmetic.add_f64 host s)
execute_op _ _ _ _ OpCode.sub_i64 s = dispatch (Arithmetic.sub_i64 s)
execute_op host _ _ _ OpCode.sub_f64 s = dispatch (Arithmetic.sub_f64 host s)
execute_op _ _ _ _ OpCode.mul_i64 s = dispatch (Arithmetic.mul_i64 s)
execute_op host _ _ _ OpCode.mul_f64 s = dispatch (Arithmetic.mul_f64 host s)
execute_op _ _ _ _ OpCode.div_i64 s = dispatch (Arithmetic.div_i64 s)
execute_op host _ _ _ OpCode.div_f64 s = dispatch (Arithmetic.div_f64 host s)
execute_op _ _ _ _ OpCode.mod_i64 s = dispatch (Arithmetic.mod_i64 s)
execute_op _ _ _ _ OpCode.eq_i64 s = dispatch (Comparison.eq_i64 s)
execute_op host _ _ _ OpCode.eq_f64 s = dispatch (Comparison.eq_f64 host s)
execute_op _ _ _ _ OpCode.neq_i64 s = dispatch (Comparison.neq_i64 s)
execute_op host _ _ _ OpCode.neq_f64 s = dispatch (Comparison.neq_f64 host s)
execute_op _ _ _ _ OpCode.greater_i64 s = dispatch (Comparison.greater_i64 s)
execute_op host _ _ _ OpCode.greater_f64 s = dispatch (Comparison.greater_f64 host s)
execute_op _ _ _ _ OpCode.greater_eq_i64 s = dispatch (Comparison.greater_eq_i64 s)
execute_op host _ _ _ OpCode.greater_eq_f64 s = dispatch (Comparison.greater_eq_f64 host s)
execute_op _ _ _ _ OpCode.less_i64 s = dispatch (Comparison.less_i64 s)
execute_op host _ _ _ OpCode.less_f64 s = dispatch (Comparison.less_f64 host s)
execute_op _ _ _ _ OpCode.less_eq_i64 s = dispatch (Comparison.less_eq_i64 s)
execute_op host _ _ _ OpCode.less_eq_f64 s = dispatch (Comparison.less_eq_f64 host s)
execute_op _ _ _ _ OpCode.logical_not s = dispatch (Arithmetic.logical_not s)
execute_op host _ _ _ OpCode.negate s = dispatch (Arithmetic.negate host s)
execute_op _ _ _ _ OpCode.inc_i64 s = dispatch (Arithmetic.inc_i64 s)
execute_op host _ _ _ OpCode.inc_f64 s = dispatch (Arithmetic.inc_f64 host s)
execute_op _ _ _ _ OpCode.dec_i64 s = dispatch (Arithmetic.dec_i64 s)
execute_op host _ _ _ OpCode.dec_f64 s = dispatch (Arithmetic.dec_f64 host s)
execute_op _ _ _ _ OpCode.get_local s = dispatch (Variables.get_local s)
execute_op _ _ _ _ OpCode.set_local s = dispatch (Variables.set_local s)
execute_op _ _ _ _ OpCode.get_global s = dispatch (Variables.get_global s)
execute_op _ _ _ _ OpCode.set_global s = dispatch (Variables.set_global s)
execute_op _ _ _ _ OpCode.jump s = dispatch (Variables.jump s)
execute_op _ _ _ _ OpCode.jump_if_false s = dispatch (Variables.jump_if_false s)
execute_op _ _ _ _ OpCode.jump_if_true s = dispatch (Variables.jump_if_true s)
execute_op _ _ _ _ OpCode.alloc_static s = dispatch (Objects.alloc_static s)
execute_op _ _ _ _ OpCode.alloc_dynamic s = dispatch (Objects.alloc_dynamic s)
execute_op _ _ _ _ OpCode.get_property s = dispatch (Objects.get_property s)
execute_op _ _ _ _ OpCode.set_property s = dispatch (Objects.set_property s)
execute_op _ _ _ _ OpCode.weak_set_property s = dispatch (Objects.weak_set_property s)
execute_op _ _ _ _ OpCode.get_array s = dispatch (Objects.get_array s)
execute_op _ e _ _ OpCode.set_array s = dispatch (Objects.set_array e.decrease_reference s)
execute_op _ _ _ _ OpCode.array_length s = dispatch (Objects.array_length s)
execute_op _ _ _ _ OpCode.inc_ref s = dispatch (Calls.inc_ref s)
execute_op _ e _ _ OpCode.dec_ref s = dispatch (Control.dec_ref e s)
execute_op _ _ _ _ OpCode.conv_i8 s = dispatch (Conversion.conv_i8 s)
execute_op _ _ _ _ OpCode.conv_i16 s = dispatch (Conversion.conv_i16 s)
execute_op _ _ _ _ OpCode.conv_i32 s = dispatch (Conversion.conv_i32 s)
execute_op _ _ _ _ OpCode.conv_i64 s = dispatch (Conversion.conv_none s)
execute_op _ _ _ _ OpCode.conv_u8 s = dispatch (Conversion.conv_u8 s)
execute_op _ _ _ _ OpCode.conv_u16 s = dispatch (Conversion.conv_u16 s)
execute_op _ _ _ _ OpCode.conv_u32 s = dispatch (Conversion.conv_u32 s)
execute_op _ _ _ _ OpCode.conv_u64 s = dispatch (Conversion.conv_none s)
execute_op host _ _ _ OpCode.conv_f32 s = dispatch (Conversion.conv_f32 host s)
execute_op _ _ _ _ OpCode.conv_f64 s = dispatch (Conversion.conv_none s)
execute_op _ _ _ _ OpCode.call s = dispatch (Calls.call s)
execute_op host _ _ _ OpCode.call_native s = dispatch (Natives.call_native host s)
execute_op host _ _ _ OpCode.define_native s = dispatch (Natives.define_native host s)
execute_op _ _ _ _ OpCode.call_virtual s = dispatch (Calls.call_virtual s)
execute_op _ _ _ _ OpCode.define_vtable s = dispatch (Classes.define_vtable s)
execute_op _ _ _ _ OpCode.set_vtable s = dispatch (Classes.set_vtable s)
execute_op _ _ fuel _ OpCode.cast_check s = dispatch (Classes.cast_check fuel s)
execute_op _ _ fuel _ OpCode.instanceof s = dispatch (Classes.instanceof fuel s)
execute_op _ _ _ stop_call_depth OpCode.return s = Calls.return stop_call_depth s
execute_op _ _ _ _ OpCode.halt s = Control.halt s
execute_op _ _ _ _ OpCode.throw_abstract _ = throw abstract_method
execute_op _ _ _ _ OpCode.register_return_cleanup s =
    dispatch (Exceptions.register_return_cleanup s)
execute_op _ e _ _ OpCode.jmp_to_outer_cleanup s =
    dispatch (Exceptions.jmp_to_outer_cleanup e.decrease_reference s)
execute_op _ e _ _ OpCode.throw_exception s =
    dispatch (Exceptions.throw_exception e.decrease_reference s)
execute_op _ _ _ _ OpCode.get_exception s = dispatch (Exceptions.get_exception s)
execute_op _ e _ _ OpCode.clear_exception s =
    dispatch (Exceptions.clear_exception e.decrease_reference s)
execute_op host _ _ _ OpCode.conv_i_to_f s = dispatch (Conversion.conv_i_to_f host s)
execute_op host _ _ _ OpCode.conv_f_to_i s = dispatch (Conversion.conv_f_to_i host s)
execute_op _ _ _ _ OpCode.negate_i64 s = dispatch (Arithmetic.negate_i64 s)
execute_op _ _ _ _ OpCode.sizeof s = dispatch (Objects.sizeof s)
execute_op _ _ _ _ OpCode.alloc_frame s = dispatch (Variables.alloc_frame s)
execute_op _ _ _ _ OpCode.inc_ref_callable s = dispatch (Calls.inc_ref_callable s)
execute_op _ e _ _ OpCode.dec_ref_callable s = dispatch (Control.dec_ref_callable e s)
execute_op _ _ _ _ OpCode.unpack_captures s = dispatch (Calls.unpack_captures s)
execute_op _ _ _ _ OpCode.pack_closure s = dispatch (Calls.pack_closure s)
execute_op _ _ _ _ OpCode.call_interface s = dispatch (Calls.call_interface s)
execute_op _ _ _ _ OpCode.define_itable s = dispatch (Classes.define_itable s)
execute_op _ e _ _ OpCode.dec_ref_slot s = dispatch (Control.dec_ref_slot e s)
execute_op _ _ _ _ OpCode.assert s = dispatch (Control.assert s)
execute_op _ _ _ _ OpCode.exit s = Control.exit s
execute_op _ _ _ _ OpCode.define_destructor s = dispatch (Classes.define_destructor s)
execute_op _ _ _ _ OpCode.new_tuple s = dispatch (Tuples.new_tuple s)
execute_op _ _ _ _ OpCode.tuple_get s = dispatch (Tuples.tuple_get s)
execute_op _ _ _ _ OpCode.tuple_len s = dispatch (Tuples.tuple_len s)
execute_op _ _ _ _ OpCode.tuple_type s = dispatch (Tuples.tuple_type s)
execute_op _ _ fuel _ OpCode.tuple_cast s = dispatch (Tuples.tuple_cast fuel s)
execute_op _ _ fuel _ OpCode.tuple_instanceof s = dispatch (Tuples.tuple_instanceof fuel s)

-- `DISPATCH()` and the instruction that it goes to.
unfoldable pub step : Host → Engine → ℕ → ℕ → Vm → Outcome Step
step host e fuel stop_call_depth s =
    if leb (length s.bytecode) s.program_counter then Control.halt s else do
      op ← code_byte s.program_counter s
      let s1 = record s {
        program_counter = u32 (s.program_counter + 1);
        instructions_executed = u64 (s.instructions_executed + 1);
      }
      if over_budget s1 then Control.halt (record s1 { exit_code = 75 }) else elim (decode op) [
        | none ↦ Control.halt s1
        | some opcode ↦ execute_op host e fuel stop_call_depth opcode s1
      ]

unfoldable pub continue : Engine → ℕ → Step → Outcome Vm
continue e stop_call_depth (next s) = e.run_bytecode stop_call_depth s
continue e stop_call_depth (stop s) = ok s

-- Each call, and each instruction of a loop, takes one unit of fuel.
unfoldable pub engine : Host → ℕ → Engine
engine host zero = record {
  decrease_reference = λ _ _. out_of_fuel;
  decrease_reference_callable = λ _ _. out_of_fuel;
  run_bytecode = λ _ _. out_of_fuel;
}
engine host (suc fuel) =
    let e = engine host fuel in
    record {
      decrease_reference = λ a s. Release.decrease_reference e a s;
      decrease_reference_callable = λ a s. Release.decrease_reference_callable e a s;
      run_bytecode = λ depth s. (do r ← step host e fuel depth s; continue e depth r);
    }

-- The loop of `execute` over the program's arguments, from the number `i` on.
unfoldable pub store_args : ℕ → ℕ → List (List ℕ) → Vm → Outcome Vm
store_args args_array i [] s = ok s
store_args args_array i (str ∷ args) s = do
  (str_addr, m) ← dynamic_allocation (length str) BlockTag.array_u8 s.memory
  m1 ← write_bytes str_addr 0 str m
  m2 ← write_u64 args_array (u32 (i * 8)) str_addr m1
  store_args args_array (i + 1) args (record s { memory = m2 })

-- `RuntimeContext::execute` with `options.program_args`.
unfoldable pub execute : Host → ℕ → List (List ℕ) → Vm → Outcome Vm
execute host fuel program_args s = do
  let s0 = record s {
    call_stack = record { return_ip = 0; frame_pointer = 0; arg_count = 0; closure_env = 0 } ∷ [];
  }
  (args_array, m) ← dynamic_allocation (length program_args) BlockTag.array_ref s0.memory
  s1 ← store_args (u32 args_array) 0 program_args (record s0 { memory = m })
  s2 ← push (u32 args_array) s1
  (engine host fuel).run_bytecode 0 s2
