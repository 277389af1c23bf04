-- ===== src/Parser/State.antt =====
-- `class ParserState` of core/src/processes/parser.cpp: the tokens and its primitives.
use solix.Prelude.{ℕ, Bool, true, false, ◌&&◌, ◌||◌, not, List, [], ◌∷◌, Bytes, ◌==◌, if◌then◌else◌}
use solix.Outcome.{Outcome, ok, throw, undefined, parse_error, bad_variant_access, ◌>>=◌}
use solix.Lexer.Token.{TokenType, text, Token}

-- The values of the enumeration.
unfoldable pub ordinal : TokenType → ℕ
ordinal TokenType.eof_token = 0
ordinal TokenType.unknown_token = 1
ordinal TokenType.identifier = 2
ordinal TokenType.number = 3
ordinal TokenType.string = 4
ordinal TokenType.char = 5
ordinal TokenType.primitive_void = 6
ordinal TokenType.primitive_bool = 7
ordinal TokenType.primitive_int8 = 8
ordinal TokenType.primitive_int16 = 9
ordinal TokenType.primitive_int32 = 10
ordinal TokenType.primitive_int64 = 11
ordinal TokenType.primitive_uint8 = 12
ordinal TokenType.primitive_uint16 = 13
ordinal TokenType.primitive_uint32 = 14
ordinal TokenType.primitive_uint64 = 15
ordinal TokenType.primitive_float32 = 16
ordinal TokenType.primitive_float64 = 17
ordinal TokenType.primitive_char = 18
ordinal TokenType.primitive_tuple = 19
ordinal TokenType.keyword_if = 20
ordinal TokenType.keyword_else = 21
ordinal TokenType.keyword_for = 22
ordinal TokenType.keyword_while = 23
ordinal TokenType.keyword_do = 24
ordinal TokenType.keyword_return = 25
ordinal TokenType.keyword_break = 26
ordinal TokenType.keyword_continue = 27
ordinal TokenType.keyword_switch = 28
ordinal TokenType.keyword_case = 29
ordinal TokenType.keyword_default = 30
ordinal TokenType.keyword_const = 31
ordinal TokenType.keyword_class = 32
ordinal TokenType.keyword_enum = 33
ordinal TokenType.keyword_try = 34
ordinal TokenType.keyword_catch = 35
ordinal TokenType.keyword_finally = 36
ordinal TokenType.keyword_throw = 37
ordinal TokenType.keyword_static = 38
ordinal TokenType.keyword_inline = 39
ordinal TokenType.keyword_alias = 40
ordinal TokenType.keyword_import = 41
ordinal TokenType.keyword_public = 42
ordinal TokenType.keyword_native = 43
ordinal TokenType.keyword_protected = 44
ordinal TokenType.keyword_private = 45
ordinal TokenType.keyword_internal = 46
ordinal TokenType.keyword_package = 47
ordinal TokenType.keyword_new = 48
ordinal TokenType.keyword_operator = 49
ordinal TokenType.keyword_extends = 50
ordinal TokenType.keyword_super = 51
ordinal TokenType.keyword_virtual = 52
ordinal TokenType.keyword_override = 53
ordinal TokenType.keyword_weak = 54
ordinal TokenType.keyword_abstract = 55
ordinal TokenType.keyword_interface = 56
ordinal TokenType.keyword_implements = 57
ordinal TokenType.keyword_instanceof = 58
ordinal TokenType.keyword_sizeof = 59
ordinal TokenType.keyword_assert = 60
ordinal TokenType.keyword_exit = 61
ordinal TokenType.operator_assign = 62
ordinal TokenType.operator_question = 63
ordinal TokenType.operator_plus = 64
ordinal TokenType.operator_minus = 65
ordinal TokenType.operator_multiply = 66
ordinal TokenType.operator_divide = 67
ordinal TokenType.operator_modulo = 68
ordinal TokenType.operator_plus_assign = 69
ordinal TokenType.operator_minus_assign = 70
ordinal TokenType.operator_multiply_assign = 71
ordinal TokenType.operator_divide_assign = 72
ordinal TokenType.operator_modulo_assign = 73
ordinal TokenType.operator_increment = 74
ordinal TokenType.operator_decrement = 75
ordinal TokenType.operator_equal = 76
ordinal TokenType.operator_not_equal = 77
ordinal TokenType.operator_less_than = 78
ordinal TokenType.operator_greater_than = 79
ordinal TokenType.operator_less_equal = 80
ordinal TokenType.operator_greater_equal = 81
ordinal TokenType.operator_logical_and = 82
ordinal TokenType.operator_logical_or = 83
ordinal TokenType.operator_logical_not = 84
ordinal TokenType.operator_bitwise_not = 85
ordinal TokenType.operator_fat_arrow = 86
ordinal TokenType.punctuation_semicolon = 87
ordinal TokenType.punctuation_comma = 88
ordinal TokenType.punctuation_dot = 89
ordinal TokenType.punctuation_colon = 90
ordinal TokenType.punctuation_double_colon = 91
ordinal TokenType.punctuation_open_paren = 92
ordinal TokenType.punctuation_close_paren = 93
ordinal TokenType.punctuation_open_brace = 94
ordinal TokenType.punctuation_close_brace = 95
ordinal TokenType.punctuation_open_bracket = 96
ordinal TokenType.punctuation_close_bracket = 97
ordinal TokenType.punctuation_array_brackets = 98
ordinal TokenType.punctuation_ampersand = 99
ordinal TokenType.punctuation_ellipsis = 100
ordinal TokenType.comment_single_line = 101
ordinal TokenType.comment_multi_line = 102

abbrev pub same_type : TokenType → TokenType → Bool
same_type x y = ordinal x == ordinal y

-- `tokens` is `before`, the last one first, then `next`, then `after`; `current` is the position of
-- `next`.
pub record ParserState : Type 0 where
  pub before : List Token
  pub next : Token
  pub after : List Token

abbrev pub is_at_end : ParserState → Bool
is_at_end s = same_type s.next.type TokenType.eof_token

abbrev pub previous : ParserState → Outcome Token
previous s = elim s.before [ [] ↦ undefined | t ∷ _ ↦ ok t ]

-- `current++`, after which the token is read; there is none behind the last one.
unfoldable pub forward : ParserState → Outcome ParserState
forward s = elim s.after [
  | [] ↦ undefined
  | t ∷ ts ↦ ok (record { before = s.next ∷ s.before; next = t; after = ts })
]

unfoldable pub advance : ParserState → Outcome (Token × ParserState)
advance s = do s1 ← if is_at_end s then ok s else forward s; t ← previous s1; ok (t, s1)

abbrev pub check : TokenType → ParserState → Bool
check type s = not (is_at_end s) && same_type s.next.type type

-- `if (match(type)) …`: whether it does, and the state.
unfoldable pub matches : TokenType → ParserState → Outcome (Bool × ParserState)
matches type s = if check type s then (do r ← advance s; ok (true, r.1)) else ok (false, s)

unfoldable pub consume : TokenType → Bytes → ParserState → Outcome (Token × ParserState)
consume type message s =
    if check type s then advance s else throw (parse_error message s.next.line s.next.column)

-- `std::get<std::string>(t.value)`
abbrev pub text_of : Token → Outcome Bytes
text_of t = elim t.value [ text b ↦ ok b | _ ↦ throw bad_variant_access ]

abbrev pub is_comment : Token → Bool
is_comment t =
    same_type t.type TokenType.comment_single_line || same_type t.type TokenType.comment_multi_line

-- The tokens that the constructor keeps.
abbrev pub without_comments : List Token → List Token
without_comments [] = []
without_comments (t ∷ ts) =
    let rest = without_comments ts in if is_comment t then rest else t ∷ rest

-- Without any token the first `peek` is out of bounds.
abbrev pub at_first : List Token → Outcome ParserState
at_first [] = undefined
at_first (t ∷ ts) = ok (record { before = []; next = t; after = ts })

-- The state that the constructor makes of the tokens.
abbrev pub parser_state : List Token → Outcome ParserState
parser_state tokens = at_first (without_comments tokens)
