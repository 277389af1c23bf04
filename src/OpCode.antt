-- ===== src/OpCode.antt =====
-- `enum class OpCode` of core/src/utilities/optcodes.hpp, the instruction set.
pub mod Decode
pub mod Names
mod Tests
pub mod Print
pub mod Parse

pub data OpCode : Type 0 where
  push_const_i8 push_const_i16 push_const_i32 push_const_i64 push_const_u8 push_const_u16 : OpCode
  push_const_u32 push_const_u64 push_const_f32 push_const_f64 push_const_string push_true : OpCode
  push_false push_null pop dup dup2 add_i64 add_f64 sub_i64 sub_f64 mul_i64 mul_f64 div_i64 : OpCode
  div_f64 mod_i64 eq_i64 eq_f64 neq_i64 neq_f64 greater_i64 greater_f64 greater_eq_i64 : OpCode
  greater_eq_f64 less_i64 less_f64 less_eq_i64 less_eq_f64 logical_not negate inc_i64 inc_f64 :
      OpCode
  dec_i64 dec_f64 get_local set_local get_global set_global jump jump_if_false jump_if_true : OpCode
  alloc_static alloc_dynamic get_property set_property weak_set_property get_array set_array :
      OpCode
  array_length inc_ref dec_ref conv_i8 conv_i16 conv_i32 conv_i64 conv_u8 conv_u16 conv_u32 : OpCode
  conv_u64 conv_f32 conv_f64 call call_native define_native call_virtual define_vtable : OpCode
  set_vtable cast_check instanceof return halt throw_abstract register_return_cleanup : OpCode
  jmp_to_outer_cleanup throw_exception get_exception clear_exception conv_i_to_f conv_f_to_i :
      OpCode
  negate_i64 sizeof alloc_frame inc_ref_callable dec_ref_callable unpack_captures pack_closure :
      OpCode
  call_interface define_itable dec_ref_slot assert exit define_destructor new_tuple tuple_get :
      OpCode
  tuple_len tuple_type tuple_cast tuple_instanceof : OpCode
