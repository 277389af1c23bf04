-- ===== src/OpCode/Print.antt =====
-- `opcode_to_string` of core/src/utilities/optcodes.hpp.
use Prim.Native.String.{String}
use solix.OpCode.{
  OpCode, push_const_i8, push_const_i16, push_const_i32, push_const_i64, push_const_u8,
  push_const_u16, push_const_u32, push_const_u64, push_const_f32, push_const_f64, push_const_string,
  push_true, push_false, push_null, pop, dup, dup2, add_i64, add_f64, sub_i64, sub_f64, mul_i64,
  mul_f64, div_i64, div_f64, mod_i64, eq_i64, eq_f64, neq_i64, neq_f64, greater_i64, greater_f64,
  greater_eq_i64, greater_eq_f64, less_i64, less_f64, less_eq_i64, less_eq_f64, logical_not, negate,
  inc_i64, inc_f64, dec_i64, dec_f64, get_local, set_local, get_global, set_global, jump,
  jump_if_false, jump_if_true, alloc_static, alloc_dynamic, get_property, set_property,
  weak_set_property, get_array, set_array, array_length, inc_ref, dec_ref, conv_i8, conv_i16,
  conv_i32, conv_i64, conv_u8, conv_u16, conv_u32, conv_u64, conv_f32, conv_f64, call, call_native,
  define_native, call_virtual, define_vtable, set_vtable, cast_check, instanceof, return, halt,
  throw_abstract, register_return_cleanup, jmp_to_outer_cleanup, throw_exception, get_exception,
  clear_exception, conv_i_to_f, conv_f_to_i, negate_i64, sizeof, alloc_frame, inc_ref_callable,
  dec_ref_callable, unpack_captures, pack_closure, call_interface, define_itable, dec_ref_slot,
  assert, exit, define_destructor, new_tuple, tuple_get, tuple_len, tuple_type, tuple_cast,
  tuple_instanceof,
}

-- `opcode_to_string`, at a byte that is an enumerator.
unfoldable pub opcode_to_string : OpCode → String
opcode_to_string push_const_i8 = "PUSH_CONST_I8"
opcode_to_string push_const_i16 = "PUSH_CONST_I16"
opcode_to_string push_const_i32 = "PUSH_CONST_I32"
opcode_to_string push_const_i64 = "PUSH_CONST_I64"
opcode_to_string push_const_u8 = "PUSH_CONST_U8"
opcode_to_string push_const_u16 = "PUSH_CONST_U16"
opcode_to_string push_const_u32 = "PUSH_CONST_U32"
opcode_to_string push_const_u64 = "PUSH_CONST_U64"
opcode_to_string push_const_f32 = "PUSH_CONST_F32"
opcode_to_string push_const_f64 = "PUSH_CONST_F64"
opcode_to_string push_const_string = "PUSH_CONST_STRING"
opcode_to_string push_true = "PUSH_TRUE"
opcode_to_string push_false = "PUSH_FALSE"
opcode_to_string push_null = "PUSH_NULL"
opcode_to_string pop = "POP"
opcode_to_string dup = "DUP"
opcode_to_string dup2 = "DUP2"
opcode_to_string add_i64 = "ADD_I64"
opcode_to_string add_f64 = "ADD_F64"
opcode_to_string sub_i64 = "SUB_I64"
opcode_to_string sub_f64 = "SUB_F64"
opcode_to_string mul_i64 = "MUL_I64"
opcode_to_string mul_f64 = "MUL_F64"
opcode_to_string div_i64 = "DIV_I64"
opcode_to_string div_f64 = "DIV_F64"
opcode_to_string mod_i64 = "MOD_I64"
opcode_to_string eq_i64 = "EQ_I64"
opcode_to_string eq_f64 = "EQ_F64"
opcode_to_string neq_i64 = "NEQ_I64"
opcode_to_string neq_f64 = "NEQ_F64"
opcode_to_string greater_i64 = "GREATER_I64"
opcode_to_string greater_f64 = "GREATER_F64"
opcode_to_string greater_eq_i64 = "GREATER_EQ_I64"
opcode_to_string greater_eq_f64 = "GREATER_EQ_F64"
opcode_to_string less_i64 = "LESS_I64"
opcode_to_string less_f64 = "LESS_F64"
opcode_to_string less_eq_i64 = "LESS_EQ_I64"
opcode_to_string less_eq_f64 = "LESS_EQ_F64"
opcode_to_string logical_not = "LOGICAL_NOT"
opcode_to_string negate = "NEGATE"
opcode_to_string inc_i64 = "INC_I64"
opcode_to_string inc_f64 = "INC_F64"
opcode_to_string dec_i64 = "DEC_I64"
opcode_to_string dec_f64 = "DEC_F64"
opcode_to_string get_local = "GET_LOCAL"
opcode_to_string set_local = "SET_LOCAL"
opcode_to_string get_global = "GET_GLOBAL"
opcode_to_string set_global = "SET_GLOBAL"
opcode_to_string jump = "JUMP"
opcode_to_string jump_if_false = "JUMP_IF_FALSE"
opcode_to_string jump_if_true = "JUMP_IF_TRUE"
opcode_to_string alloc_static = "ALLOC_STATIC"
opcode_to_string alloc_dynamic = "ALLOC_DYNAMIC"
opcode_to_string get_property = "GET_PROPERTY"
opcode_to_string set_property = "SET_PROPERTY"
opcode_to_string weak_set_property = "WEAK_SET_PROPERTY"
opcode_to_string get_array = "GET_ARRAY"
opcode_to_string set_array = "SET_ARRAY"
opcode_to_string array_length = "ARRAY_LENGTH"
opcode_to_string inc_ref = "INC_REF"
opcode_to_string dec_ref = "DEC_REF"
opcode_to_string conv_i8 = "CONV_I8"
opcode_to_string conv_i16 = "CONV_I16"
opcode_to_string conv_i32 = "CONV_I32"
opcode_to_string conv_i64 = "CONV_I64"
opcode_to_string conv_u8 = "CONV_U8"
opcode_to_string conv_u16 = "CONV_U16"
opcode_to_string conv_u32 = "CONV_U32"
opcode_to_string conv_u64 = "CONV_U64"
opcode_to_string conv_f32 = "CONV_F32"
opcode_to_string conv_f64 = "CONV_F64"
opcode_to_string call = "CALL"
opcode_to_string call_native = "CALL_NATIVE"
opcode_to_string define_native = "DEFINE_NATIVE"
opcode_to_string call_virtual = "CALL_VIRTUAL"
opcode_to_string define_vtable = "DEFINE_VTABLE"
opcode_to_string set_vtable = "SET_VTABLE"
opcode_to_string cast_check = "CAST_CHECK"
opcode_to_string instanceof = "INSTANCEOF"
opcode_to_string return = "RETURN"
opcode_to_string halt = "HALT"
opcode_to_string throw_abstract = "THROW_ABSTRACT"
opcode_to_string register_return_cleanup = "REGISTER_RETURN_CLEANUP"
opcode_to_string jmp_to_outer_cleanup = "JMP_TO_OUTER_CLEANUP"
opcode_to_string throw_exception = "THROW_EXCEPTION"
opcode_to_string get_exception = "GET_EXCEPTION"
opcode_to_string clear_exception = "CLEAR_EXCEPTION"
opcode_to_string conv_i_to_f = "CONV_I_TO_F"
opcode_to_string conv_f_to_i = "CONV_F_TO_I"
opcode_to_string negate_i64 = "NEGATE_I64"
opcode_to_string sizeof = "SIZEOF"
opcode_to_string alloc_frame = "ALLOC_FRAME"
opcode_to_string inc_ref_callable = "INC_REF_CALLABLE"
opcode_to_string dec_ref_callable = "DEC_REF_CALLABLE"
opcode_to_string unpack_captures = "UNPACK_CAPTURES"
opcode_to_string pack_closure = "PACK_CLOSURE"
opcode_to_string call_interface = "CALL_INTERFACE"
opcode_to_string define_itable = "DEFINE_ITABLE"
opcode_to_string dec_ref_slot = "DEC_REF_SLOT"
opcode_to_string assert = "ASSERT"
opcode_to_string exit = "EXIT"
opcode_to_string define_destructor = "DEFINE_DESTRUCTOR"
opcode_to_string new_tuple = "NEW_TUPLE"
opcode_to_string tuple_get = "TUPLE_GET"
opcode_to_string tuple_len = "TUPLE_LEN"
opcode_to_string tuple_type = "TUPLE_TYPE"
opcode_to_string tuple_cast = "TUPLE_CAST"
opcode_to_string tuple_instanceof = "TUPLE_INSTANCEOF"
