-- ===== src/OpCode/Decode.antt =====
-- The byte of an instruction: the position of its enumerator, which is its label in the dispatch
-- table of `RuntimeContext::run_bytecode`.
use solix.Prelude.{
  ℕ, zero, suc, ◌+◌, ◌≡◌, refl, ◌↔◌, Bool, true, ◌&&◌, Option, some, List, [], ◌∷◌, get_elem?,
  arith, ◌==◌,
}
use solix.OpCode.{
  OpCode, push_const_i8, push_const_i16, push_const_i32, push_const_i64, push_const_u8,
  push_const_u16, push_const_u32, push_const_u64, push_const_f32, push_const_f64, push_const_string,
  push_true, push_false, push_null, pop, dup, dup2, add_i64, add_f64, sub_i64, sub_f64, mul_i64,
  mul_f64, div_i64, div_f64, mod_i64, eq_i64, eq_f64, neq_i64, neq_f64, greater_i64, greater_f64,
  greater_eq_i64, greater_eq_f64, less_i64, less_f64, less_eq_i64, less_eq_f64, logical_not, negate,
  inc_i64, inc_f64, dec_i64, dec_f64, get_local, set_local, get_global, set_global, jump,
  jump_if_false, jump_if_true, alloc_static, alloc_dynamic, get_property, set_property,
  weak_set_property, get_array, set_array, array_length, inc_ref, dec_ref, conv_i8, conv_i16,
  conv_i32, conv_i64, conv_u8, conv_u16, conv_u32, conv_u64, conv_f32, conv_f64, call, call_native,
  define_native, call_virtual, define_vtable, set_vtable, cast_check, instanceof, return, halt,
  throw_abstract, register_return_cleanup, jmp_to_outer_cleanup, throw_exception, get_exception,
  clear_exception, conv_i_to_f, conv_f_to_i, negate_i64, sizeof, alloc_frame, inc_ref_callable,
  dec_ref_callable, unpack_captures, pack_closure, call_interface, define_itable, dec_ref_slot,
  assert, exit, define_destructor, new_tuple, tuple_get, tuple_len, tuple_type, tuple_cast,
  tuple_instanceof,
}

unfoldable pub encode : OpCode → ℕ
encode push_const_i8 = 0
encode push_const_i16 = 1
encode push_const_i32 = 2
encode push_const_i64 = 3
encode push_const_u8 = 4
encode push_const_u16 = 5
encode push_const_u32 = 6
encode push_const_u64 = 7
encode push_const_f32 = 8
encode push_const_f64 = 9
encode push_const_string = 10
encode push_true = 11
encode push_false = 12
encode push_null = 13
encode pop = 14
encode dup = 15
encode dup2 = 16
encode add_i64 = 17
encode add_f64 = 18
encode sub_i64 = 19
encode sub_f64 = 20
encode mul_i64 = 21
encode mul_f64 = 22
encode div_i64 = 23
encode div_f64 = 24
encode mod_i64 = 25
encode eq_i64 = 26
encode eq_f64 = 27
encode neq_i64 = 28
encode neq_f64 = 29
encode greater_i64 = 30
encode greater_f64 = 31
encode greater_eq_i64 = 32
encode greater_eq_f64 = 33
encode less_i64 = 34
encode less_f64 = 35
encode less_eq_i64 = 36
encode less_eq_f64 = 37
encode logical_not = 38
encode negate = 39
encode inc_i64 = 40
encode inc_f64 = 41
encode dec_i64 = 42
encode dec_f64 = 43
encode get_local = 44
encode set_local = 45
encode get_global = 46
encode set_global = 47
encode jump = 48
encode jump_if_false = 49
encode jump_if_true = 50
encode alloc_static = 51
encode alloc_dynamic = 52
encode get_property = 53
encode set_property = 54
encode weak_set_property = 55
encode get_array = 56
encode set_array = 57
encode array_length = 58
encode inc_ref = 59
encode dec_ref = 60
encode conv_i8 = 61
encode conv_i16 = 62
encode conv_i32 = 63
encode conv_i64 = 64
encode conv_u8 = 65
encode conv_u16 = 66
encode conv_u32 = 67
encode conv_u64 = 68
encode conv_f32 = 69
encode conv_f64 = 70
encode call = 71
encode call_native = 72
encode define_native = 73
encode call_virtual = 74
encode define_vtable = 75
encode set_vtable = 76
encode cast_check = 77
encode instanceof = 78
encode return = 79
encode halt = 80
encode throw_abstract = 81
encode register_return_cleanup = 82
encode jmp_to_outer_cleanup = 83
encode throw_exception = 84
encode get_exception = 85
encode clear_exception = 86
encode conv_i_to_f = 87
encode conv_f_to_i = 88
encode negate_i64 = 89
encode sizeof = 90
encode alloc_frame = 91
encode inc_ref_callable = 92
encode dec_ref_callable = 93
encode unpack_captures = 94
encode pack_closure = 95
encode call_interface = 96
encode define_itable = 97
encode dec_ref_slot = 98
encode assert = 99
encode exit = 100
encode define_destructor = 101
encode new_tuple = 102
encode tuple_get = 103
encode tuple_len = 104
encode tuple_type = 105
encode tuple_cast = 106
encode tuple_instanceof = 107

-- `static const void *dispatch_table[]`; a byte past its end halts the machine.
unfoldable pub dispatch_table : List OpCode
dispatch_table =
    push_const_i8 ∷ push_const_i16 ∷ push_const_i32 ∷ push_const_i64 ∷ push_const_u8
    ∷ push_const_u16 ∷ push_const_u32 ∷ push_const_u64 ∷ push_const_f32 ∷ push_const_f64
    ∷ push_const_string ∷ push_true ∷ push_false ∷ push_null ∷ pop ∷ dup ∷ dup2 ∷ add_i64 ∷ add_f64
    ∷ sub_i64 ∷ sub_f64 ∷ mul_i64 ∷ mul_f64 ∷ div_i64 ∷ div_f64 ∷ mod_i64 ∷ eq_i64 ∷ eq_f64
    ∷ neq_i64 ∷ neq_f64 ∷ greater_i64 ∷ greater_f64 ∷ greater_eq_i64 ∷ greater_eq_f64 ∷ less_i64
    ∷ less_f64 ∷ less_eq_i64 ∷ less_eq_f64 ∷ logical_not ∷ negate ∷ inc_i64 ∷ inc_f64 ∷ dec_i64
    ∷ dec_f64 ∷ get_local ∷ set_local ∷ get_global ∷ set_global ∷ jump ∷ jump_if_false
    ∷ jump_if_true ∷ alloc_static ∷ alloc_dynamic ∷ get_property ∷ set_property ∷ weak_set_property
    ∷ get_array ∷ set_array ∷ array_length ∷ inc_ref ∷ dec_ref ∷ conv_i8 ∷ conv_i16 ∷ conv_i32
    ∷ conv_i64 ∷ conv_u8 ∷ conv_u16 ∷ conv_u32 ∷ conv_u64 ∷ conv_f32 ∷ conv_f64 ∷ call ∷ call_native
    ∷ define_native ∷ call_virtual ∷ define_vtable ∷ set_vtable ∷ cast_check ∷ instanceof ∷ return
    ∷ halt ∷ throw_abstract ∷ register_return_cleanup ∷ jmp_to_outer_cleanup ∷ throw_exception
    ∷ get_exception ∷ clear_exception ∷ conv_i_to_f ∷ conv_f_to_i ∷ negate_i64 ∷ sizeof
    ∷ alloc_frame ∷ inc_ref_callable ∷ dec_ref_callable ∷ unpack_captures ∷ pack_closure
    ∷ call_interface ∷ define_itable ∷ dec_ref_slot ∷ assert ∷ exit ∷ define_destructor ∷ new_tuple
    ∷ tuple_get ∷ tuple_len ∷ tuple_type ∷ tuple_cast ∷ tuple_instanceof ∷ []

unfoldable pub decode : ℕ → Option OpCode
decode b = get_elem? dispatch_table b

-- Each instruction is dispatched from the byte that encodes it.
pub decode-encode : (op : OpCode) → decode (encode op) ≡ some op
unfolding decode dispatch_table encode
decode-encode halt = refl
decode-encode _ = refl

-- The instructions of a list are encoded by their positions, counted from `i`.
numbered : ℕ → List OpCode → Bool
numbered i [] = true
numbered i (op ∷ ops) = encode op == i && numbered (i + 1) ops

numbered-get_elem? :
    (i : ℕ) (ops : List OpCode) (k : ℕ) (op : OpCode)
    → numbered i ops ≡ true
    → get_elem? ops k ≡ some op
    → i + k ≡ encode op
unfolding numbered
numbered-get_elem? i [] k op h e = ground arith
numbered-get_elem? i (x ∷ ops) zero op h e = ground arith
numbered-get_elem? i (x ∷ ops) (suc k) op h e = ground (arith, numbered-get_elem? (i + 1) ops k op)

table_numbered : numbered 0 dispatch_table ≡ true
unfolding numbered dispatch_table encode
table_numbered = refl

-- A byte is dispatched to an instruction exactly when it encodes that instruction.
pub decode_iff : (b : ℕ) (op : OpCode) → (decode b ≡ some op) ↔ (b ≡ encode op)
unfolding decode
decode_iff b op = (
  (λ e. let n = numbered-get_elem? 0 dispatch_table b op table_numbered e in omega (arith, n)),
  (λ e. rw e (decode-encode op)),
)
