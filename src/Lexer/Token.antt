-- ===== src/Lexer/Token.antt =====
-- `core/src/utilities/token.hpp`: the kinds of tokens, the keywords, and the tokens themselves.
use solix.Prelude.{ℕ, List, [], ◌∷◌, Bytes, codes}

pub data TokenType : Type 0 where
  eof_token unknown_token identifier number string char primitive_void primitive_bool : TokenType
  primitive_int8 primitive_int16 primitive_int32 primitive_int64 primitive_uint8 : TokenType
  primitive_uint16 primitive_uint32 primitive_uint64 primitive_float32 primitive_float64 : TokenType
  primitive_char primitive_tuple keyword_if keyword_else keyword_for keyword_while : TokenType
  keyword_do keyword_return keyword_break keyword_continue keyword_switch keyword_case : TokenType
  keyword_default keyword_const keyword_class keyword_enum keyword_try keyword_catch : TokenType
  keyword_finally keyword_throw keyword_static keyword_inline keyword_alias keyword_import :
      TokenType
  keyword_public keyword_native keyword_protected keyword_private keyword_internal : TokenType
  keyword_package keyword_new keyword_operator keyword_extends keyword_super keyword_virtual :
      TokenType
  keyword_override keyword_weak keyword_abstract keyword_interface keyword_implements : TokenType
  keyword_instanceof keyword_sizeof keyword_assert keyword_exit operator_assign : TokenType
  operator_question operator_plus operator_minus operator_multiply operator_divide : TokenType
  operator_modulo operator_plus_assign operator_minus_assign operator_multiply_assign : TokenType
  operator_divide_assign operator_modulo_assign operator_increment operator_decrement : TokenType
  operator_equal operator_not_equal operator_less_than operator_greater_than : TokenType
  operator_less_equal operator_greater_equal operator_logical_and operator_logical_or : TokenType
  operator_logical_not operator_bitwise_not operator_fat_arrow punctuation_semicolon : TokenType
  punctuation_comma punctuation_dot punctuation_colon punctuation_double_colon : TokenType
  punctuation_open_paren punctuation_close_paren punctuation_open_brace : TokenType
  punctuation_close_brace punctuation_open_bracket punctuation_close_bracket : TokenType
  punctuation_array_brackets punctuation_ampersand punctuation_ellipsis comment_single_line :
      TokenType
  comment_multi_line : TokenType

-- `keywords`, an unordered map with distinct keys.
unfoldable pub keywords : List (Bytes × TokenType)
keywords =
    (codes "void", primitive_void)
    ∷ (codes "bool", primitive_bool)
    ∷ (codes "int8", primitive_int8)
    ∷ (codes "int16", primitive_int16)
    ∷ (codes "int32", primitive_int32)
    ∷ (codes "int64", primitive_int64)
    ∷ (codes "uint8", primitive_uint8)
    ∷ (codes "uint16", primitive_uint16)
    ∷ (codes "uint32", primitive_uint32)
    ∷ (codes "uint64", primitive_uint64)
    ∷ (codes "float32", primitive_float32)
    ∷ (codes "float64", primitive_float64)
    ∷ (codes "char", primitive_char)
    ∷ (codes "tuple", primitive_tuple)
    ∷ (codes "if", keyword_if)
    ∷ (codes "else", keyword_else)
    ∷ (codes "for", keyword_for)
    ∷ (codes "while", keyword_while)
    ∷ (codes "do", keyword_do)
    ∷ (codes "return", keyword_return)
    ∷ (codes "break", keyword_break)
    ∷ (codes "continue", keyword_continue)
    ∷ (codes "switch", keyword_switch)
    ∷ (codes "case", keyword_case)
    ∷ (codes "default", keyword_default)
    ∷ (codes "try", keyword_try)
    ∷ (codes "catch", keyword_catch)
    ∷ (codes "finally", keyword_finally)
    ∷ (codes "throw", keyword_throw)
    ∷ (codes "const", keyword_const)
    ∷ (codes "class", keyword_class)
    ∷ (codes "enum", keyword_enum)
    ∷ (codes "static", keyword_static)
    ∷ (codes "inline", keyword_inline)
    ∷ (codes "alias", keyword_alias)
    ∷ (codes "import", keyword_import)
    ∷ (codes "public", keyword_public)
    ∷ (codes "native", keyword_native)
    ∷ (codes "protected", keyword_protected)
    ∷ (codes "private", keyword_private)
    ∷ (codes "internal", keyword_internal)
    ∷ (codes "package", keyword_package)
    ∷ (codes "new", keyword_new)
    ∷ (codes "operator", keyword_operator)
    ∷ (codes "extends", keyword_extends)
    ∷ (codes "super", keyword_super)
    ∷ (codes "virtual", keyword_virtual)
    ∷ (codes "override", keyword_override)
    ∷ (codes "weak", keyword_weak)
    ∷ (codes "abstract", keyword_abstract)
    ∷ (codes "interface", keyword_interface)
    ∷ (codes "implements", keyword_implements)
    ∷ (codes "instanceof", keyword_instanceof)
    ∷ (codes "sizeof", keyword_sizeof)
    ∷ (codes "assert", keyword_assert)
    ∷ (codes "exit", keyword_exit)
    ∷ []

-- `std::variant<int64_t, double, std::string, std::nullptr_t>`; the numbers are 64-bit patterns.
pub data Value : Type 0 where
  int64 : ℕ → Value
  double : ℕ → Value
  text : Bytes → Value
  nullptr : Value

-- The pointer to the source is left out: it is the same for all tokens of a file.
pub record Token : Type 0 where
  pub type : TokenType
  pub line : ℕ
  pub column : ℕ
  pub end_line : ℕ
  pub end_column : ℕ
  pub value : Value
