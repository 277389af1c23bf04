-- ===== src/OpCode/Parse.antt =====
-- `string_to_opcode` of core/src/utilities/optcodes.hpp.
use Prim.Native.String.{String}
use text.Mathlib.Text.{◌==◌}
use solix.Prelude.{if◌then◌else◌}
use solix.OpCode.{
  OpCode, push_const_i8, push_const_i16, push_const_i32, push_const_i64, push_const_u8,
  push_const_u16, push_const_u32, push_const_u64, push_const_f32, push_const_f64, push_const_string,
  push_true, push_false, push_null, pop, dup, dup2, add_i64, add_f64, sub_i64, sub_f64, mul_i64,
  mul_f64, div_i64, div_f64, mod_i64, eq_i64, eq_f64, neq_i64, neq_f64, greater_i64, greater_f64,
  greater_eq_i64, greater_eq_f64, less_i64, less_f64, less_eq_i64, less_eq_f64, logical_not, negate,
  inc_i64, inc_f64, dec_i64, dec_f64, get_local, set_local, get_global, set_global, jump,
  jump_if_false, jump_if_true, alloc_static, alloc_dynamic, get_property, set_property,
  weak_set_property, get_array, set_array, array_length, inc_ref, dec_ref, conv_i8, conv_i16,
  conv_i32, conv_i64, conv_u8, conv_u16, conv_u32, conv_u64, conv_f32, conv_f64, call, call_native,
  define_native, call_virtual, define_vtable, set_vtable, cast_check, instanceof, return, halt,
  throw_abstract, register_return_cleanup, jmp_to_outer_cleanup, throw_exception, get_exception,
  clear_exception, conv_i_to_f, conv_f_to_i, negate_i64, sizeof, alloc_frame, inc_ref_callable,
  dec_ref_callable, unpack_captures, pack_closure, call_interface, define_itable, dec_ref_slot,
  assert, exit, define_destructor, new_tuple, tuple_get, tuple_len, tuple_type, tuple_cast,
  tuple_instanceof,
}

-- `string_to_opcode`, a chain of tests that falls back to `HALT`.
unfoldable pub string_to_opcode : String → OpCode
string_to_opcode str =
    if str == "PUSH_CONST_I8"
    then push_const_i8
    else if str == "PUSH_CONST_I16"
    then push_const_i16
    else if str == "PUSH_CONST_I32"
    then push_const_i32
    else if str == "PUSH_CONST_I64"
    then push_const_i64
    else if str == "PUSH_CONST_U8"
    then push_const_u8
    else if str == "PUSH_CONST_U16"
    then push_const_u16
    else if str == "PUSH_CONST_U32"
    then push_const_u32
    else if str == "PUSH_CONST_U64"
    then push_const_u64
    else if str == "PUSH_CONST_F32"
    then push_const_f32
    else if str == "PUSH_CONST_F64"
    then push_const_f64
    else if str == "PUSH_CONST_STRING"
    then push_const_string
    else if str == "PUSH_TRUE"
    then push_true
    else if str == "PUSH_FALSE"
    then push_false
    else if str == "PUSH_NULL"
    then push_null
    else if str == "POP"
    then pop
    else if str == "DUP"
    then dup
    else if str == "DUP2"
    then dup2
    else if str == "ADD_I64"
    then add_i64
    else if str == "ADD_F64"
    then add_f64
    else if str == "SUB_I64"
    then sub_i64
    else if str == "SUB_F64"
    then sub_f64
    else if str == "MUL_I64"
    then mul_i64
    else if str == "MUL_F64"
    then mul_f64
    else if str == "DIV_I64"
    then div_i64
    else if str == "DIV_F64"
    then div_f64
    else if str == "MOD_I64"
    then mod_i64
    else if str == "EQ_I64"
    then eq_i64
    else if str == "EQ_F64"
    then eq_f64
    else if str == "NEQ_I64"
    then neq_i64
    else if str == "NEQ_F64"
    then neq_f64
    else if str == "GREATER_I64"
    then greater_i64
    else if str == "GREATER_F64"
    then greater_f64
    else if str == "GREATER_EQ_I64"
    then greater_eq_i64
    else if str == "GREATER_EQ_F64"
    then greater_eq_f64
    else if str == "LESS_I64"
    then less_i64
    else if str == "LESS_F64"
    then less_f64
    else if str == "LESS_EQ_I64"
    then less_eq_i64
    else if str == "LESS_EQ_F64"
    then less_eq_f64
    else if str == "LOGICAL_NOT"
    then logical_not
    else if str == "NEGATE"
    then negate
    else if str == "INC_I64"
    then inc_i64
    else if str == "INC_F64"
    then inc_f64
    else if str == "DEC_I64"
    then dec_i64
    else if str == "DEC_F64"
    then dec_f64
    else if str == "GET_LOCAL"
    then get_local
    else if str == "SET_LOCAL"
    then set_local
    else if str == "GET_GLOBAL"
    then get_global
    else if str == "SET_GLOBAL"
    then set_global
    else if str == "JUMP"
    then jump
    else if str == "JUMP_IF_FALSE"
    then jump_if_false
    else if str == "JUMP_IF_TRUE"
    then jump_if_true
    else if str == "ALLOC_STATIC"
    then alloc_static
    else if str == "ALLOC_DYNAMIC"
    then alloc_dynamic
    else if str == "GET_PROPERTY"
    then get_property
    else if str == "SET_PROPERTY"
    then set_property
    else if str == "WEAK_SET_PROPERTY"
    then weak_set_property
    else if str == "GET_ARRAY"
    then get_array
    else if str == "SET_ARRAY"
    then set_array
    else if str == "ARRAY_LENGTH"
    then array_length
    else if str == "INC_REF"
    then inc_ref
    else if str == "DEC_REF"
    then dec_ref
    else if str == "CONV_I8"
    then conv_i8
    else if str == "CONV_I16"
    then conv_i16
    else if str == "CONV_I32"
    then conv_i32
    else if str == "CONV_I64"
    then conv_i64
    else if str == "CONV_U8"
    then conv_u8
    else if str == "CONV_U16"
    then conv_u16
    else if str == "CONV_U32"
    then conv_u32
    else if str == "CONV_U64"
    then conv_u64
    else if str == "CONV_F32"
    then conv_f32
    else if str == "CONV_F64"
    then conv_f64
    else if str == "CALL"
    then call
    else if str == "CALL_NATIVE"
    then call_native
    else if str == "DEFINE_NATIVE"
    then define_native
    else if str == "CALL_VIRTUAL"
    then call_virtual
    else if str == "DEFINE_VTABLE"
    then define_vtable
    else if str == "SET_VTABLE"
    then set_vtable
    else if str == "CAST_CHECK"
    then cast_check
    else if str == "INSTANCEOF"
    then instanceof
    else if str == "RETURN"
    then return
    else if str == "HALT"
    then halt
    else if str == "THROW_ABSTRACT"
    then throw_abstract
    else if str == "REGISTER_RETURN_CLEANUP"
    then register_return_cleanup
    else if str == "JMP_TO_OUTER_CLEANUP"
    then jmp_to_outer_cleanup
    else if str == "THROW_EXCEPTION"
    then throw_exception
    else if str == "GET_EXCEPTION"
    then get_exception
    else if str == "CLEAR_EXCEPTION"
    then clear_exception
    else if str == "CONV_I_TO_F"
    then conv_i_to_f
    else if str == "CONV_F_TO_I"
    then conv_f_to_i
    else if str == "NEGATE_I64"
    then negate_i64
    else if str == "SIZEOF"
    then sizeof
    else if str == "ALLOC_FRAME"
    then alloc_frame
    else if str == "INC_REF_CALLABLE"
    then inc_ref_callable
    else if str == "DEC_REF_CALLABLE"
    then dec_ref_callable
    else if str == "UNPACK_CAPTURES"
    then unpack_captures
    else if str == "PACK_CLOSURE"
    then pack_closure
    else if str == "CALL_INTERFACE"
    then call_interface
    else if str == "DEFINE_ITABLE"
    then define_itable
    else if str == "DEC_REF_SLOT"
    then dec_ref_slot
    else if str == "ASSERT"
    then assert
    else if str == "EXIT"
    then exit
    else if str == "DEFINE_DESTRUCTOR"
    then define_destructor
    else if str == "NEW_TUPLE"
    then new_tuple
    else if str == "TUPLE_GET"
    then tuple_get
    else if str == "TUPLE_LEN"
    then tuple_len
    else if str == "TUPLE_TYPE"
    then tuple_type
    else if str == "TUPLE_CAST"
    then tuple_cast
    else if str == "TUPLE_INSTANCEOF"
    then tuple_instanceof
    else halt
