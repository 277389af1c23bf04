-- ===== src/Lexer/Spelling.antt =====
-- A grammar of tokens for the lexer: how each is written, and what it means.
use solix.Prelude.{
  ℕ, ◌≤◌, ◌≡◌, true, ◌||◌, List, [], ◌∷◌, ◌++◌, Bytes, codes, ◌==◌, if◌then◌else◌, Option, none,
  some, All, ◌^◌,
}
use solix.Lexer.Token.{TokenType, Value, int64, text, nullptr, keywords}
use solix.Lexer.State.{is_alpha, is_digit, is_name}
use solix.Lexer.Literals.{number_of}
use solix.Lexer.Scan.{find_keyword}

-- Operators and punctuation.
pub data Operator : Type 0 where
  open_paren close_paren open_brace close_brace open_bracket close_bracket array_brackets : Operator
  semicolon comma dot ellipsis colon double_colon ampersand question bitwise_not assign : Operator
  equal fat_arrow logical_not not_equal less_than less_equal greater_than greater_equal : Operator
  logical_and logical_or plus increment plus_assign minus decrement minus_assign multiply : Operator
  multiply_assign modulo modulo_assign divide divide_assign : Operator

unfoldable pub operator_text : Operator → Bytes
operator_text open_paren = codes "("
operator_text close_paren = codes ")"
operator_text open_brace = codes "{"
operator_text close_brace = codes "}"
operator_text open_bracket = codes "["
operator_text close_bracket = codes "]"
operator_text array_brackets = codes "[]"
operator_text semicolon = codes ";"
operator_text comma = codes ","
operator_text dot = codes "."
operator_text ellipsis = codes "..."
operator_text colon = codes ":"
operator_text double_colon = codes "::"
operator_text ampersand = codes "&"
operator_text question = codes "?"
operator_text bitwise_not = codes "~"
operator_text assign = codes "="
operator_text equal = codes "=="
operator_text fat_arrow = codes "=>"
operator_text logical_not = codes "!"
operator_text not_equal = codes "!="
operator_text less_than = codes "<"
operator_text less_equal = codes "<="
operator_text greater_than = codes ">"
operator_text greater_equal = codes ">="
operator_text logical_and = codes "&&"
operator_text logical_or = codes "||"
operator_text plus = codes "+"
operator_text increment = codes "++"
operator_text plus_assign = codes "+="
operator_text minus = codes "-"
operator_text decrement = codes "--"
operator_text minus_assign = codes "-="
operator_text multiply = codes "*"
operator_text multiply_assign = codes "*="
operator_text modulo = codes "%"
operator_text modulo_assign = codes "%="
operator_text divide = codes "/"
operator_text divide_assign = codes "/="

unfoldable pub operator_type : Operator → TokenType
operator_type open_paren = TokenType.punctuation_open_paren
operator_type close_paren = TokenType.punctuation_close_paren
operator_type open_brace = TokenType.punctuation_open_brace
operator_type close_brace = TokenType.punctuation_close_brace
operator_type open_bracket = TokenType.punctuation_open_bracket
operator_type close_bracket = TokenType.punctuation_close_bracket
operator_type array_brackets = TokenType.punctuation_array_brackets
operator_type semicolon = TokenType.punctuation_semicolon
operator_type comma = TokenType.punctuation_comma
operator_type dot = TokenType.punctuation_dot
operator_type ellipsis = TokenType.punctuation_ellipsis
operator_type colon = TokenType.punctuation_colon
operator_type double_colon = TokenType.punctuation_double_colon
operator_type ampersand = TokenType.punctuation_ampersand
operator_type question = TokenType.operator_question
operator_type bitwise_not = TokenType.operator_bitwise_not
operator_type assign = TokenType.operator_assign
operator_type equal = TokenType.operator_equal
operator_type fat_arrow = TokenType.operator_fat_arrow
operator_type logical_not = TokenType.operator_logical_not
operator_type not_equal = TokenType.operator_not_equal
operator_type less_than = TokenType.operator_less_than
operator_type less_equal = TokenType.operator_less_equal
operator_type greater_than = TokenType.operator_greater_than
operator_type greater_equal = TokenType.operator_greater_equal
operator_type logical_and = TokenType.operator_logical_and
operator_type logical_or = TokenType.operator_logical_or
operator_type plus = TokenType.operator_plus
operator_type increment = TokenType.operator_increment
operator_type plus_assign = TokenType.operator_plus_assign
operator_type minus = TokenType.operator_minus
operator_type decrement = TokenType.operator_decrement
operator_type minus_assign = TokenType.operator_minus_assign
operator_type multiply = TokenType.operator_multiply
operator_type multiply_assign = TokenType.operator_multiply_assign
operator_type modulo = TokenType.operator_modulo
operator_type modulo_assign = TokenType.operator_modulo_assign
operator_type divide = TokenType.operator_divide
operator_type divide_assign = TokenType.operator_divide_assign

-- A keyword or an identifier, a string, and a decimal number.
pub data Lexeme : Type 0 where
  operator : Operator → Lexeme
  word : ℕ → Bytes → Lexeme
  quoted : Bytes → Lexeme
  decimal : ℕ → Bytes → Lexeme

-- A string with a backslash before each quote and each backslash.
unfoldable pub escaped : Bytes → Bytes
escaped [] = []
escaped (c ∷ cs) = if c == b'"' || c == b'\\' then b'\\' ∷ c ∷ escaped cs else c ∷ escaped cs

abbrev pub spell : Lexeme → Bytes
spell (operator o) = operator_text o
spell (word c cs) = c ∷ cs
spell (quoted v) = b'"' ∷ (escaped v ++ b'"' ∷ [])
spell (decimal c cs) = c ∷ cs

-- A name, by what the table of keywords has for it.
abbrev pub word_meaning : Bytes → Option TokenType → TokenType × Value
word_meaning name (some t) = (t, nullptr)
word_meaning name none = (TokenType.identifier, text name)

-- The type and the value of the token.
abbrev pub meaning : Lexeme → TokenType × Value
meaning (operator o) = (operator_type o, nullptr)
meaning (word c cs) = word_meaning (c ∷ cs) (find_keyword (c ∷ cs) keywords)
meaning (quoted v) = (TokenType.string, text v)
meaning (decimal c cs) = (TokenType.number, int64 (number_of 10 0 (c ∷ cs)))

-- A name begins with a letter or an underscore; a number has decimal digits only, and at most 2^63.
abbrev pub IsLexeme : Lexeme → Type 0
IsLexeme (operator o) = Unit
IsLexeme (word c cs) = ((is_alpha c || c == b'_') ≡ true) × All (λ d. is_name d ≡ true) cs
IsLexeme (quoted v) = Unit
IsLexeme (decimal c cs) =
    (is_digit c ≡ true) × All (λ d. is_digit d ≡ true) cs × (number_of 10 0 (c ∷ cs) ≤ 2 ^ 63)

-- The lexemes with a space behind each.
abbrev pub render : List Lexeme → Bytes
render [] = []
render (x ∷ xs) = spell x ++ b' ' ∷ render xs
