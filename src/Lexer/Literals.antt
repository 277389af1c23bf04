-- ===== src/Lexer/Literals.antt =====
-- The literals of core/src/processes/lexer.cpp: `handle_string`, `handle_character` and
-- `handle_number`.
use solix.Prelude.{
  ℕ, zero, suc, ◌+◌, ◌-◌, ◌*◌, ◌^◌, Bool, true, false, ◌&&◌, ◌||◌, not, [], ◌∷◌, ◌++◌, Bytes, codes,
  leb, ltb, ◌==◌, if◌then◌else◌, length, Option, none, some,
}
use solix.Outcome.{Outcome, ok, throw, out_of_range, out_of_fuel}
use solix.Vm.Conversion.{sign_extend8}
use solix.Lexer.Token.{TokenType, int64, double, text}
use solix.Lexer.State.{
  LexerState, peek, peek_next, is_at_end, advance, add_token, while_peek, lexeme, tail, is_digit,
  is_xdigit,
}

-- The value of a hexadecimal digit.
unfoldable pub hex_digit : ℕ → Option ℕ
hex_digit h =
    if leb b'0' h && leb h b'9'
    then some (h - b'0')
    else if leb b'a' h && leb h b'f'
    then some (h - b'a' + 10)
    else if leb b'A' h && leb h b'F'
    then some (h - b'A' + 10)
    else none

-- What an escape sequence stands for, or how it fails.
pub data Escape : Type 0 where
  byte : ℕ → LexerState → Escape
  unterminated : LexerState → Escape
  invalid : LexerState → Escape

-- The loop over the two digits of `\x`, with `n` to go.
unfoldable pub hex_escape : ℕ → ℕ → LexerState → Escape
hex_escape zero hex_val s = byte hex_val s
hex_escape (suc n) hex_val s = if is_at_end s then unterminated s else elim (hex_digit (peek s)) [
  | none ↦ invalid (advance s)
  | some d ↦ hex_escape n (hex_val * 16 + d) (advance s)
]

-- The `switch (esc)`; `other` is the value of the default case.
unfoldable pub escape : ℕ → ℕ → LexerState → Escape
escape esc other s =
    if esc == b'n'
    then byte b'\n' s
    else if esc == b't'
    then byte b'\t' s
    else if esc == b'r'
    then byte b'\r' s
    else if esc == b'\\'
    then byte b'\\' s
    else if esc == b'\''
    then byte b'\'' s
    else if esc == b'"'
    then byte b'"' s
    else if esc == b'0'
    then byte 0 s
    else if esc == b'x'
    then hex_escape 2 0 s
    else byte other s

abbrev pub unknown : Bytes → LexerState → LexerState
unknown message s = add_token TokenType.unknown_token (text message) s

-- Behind a line break inside a string.
abbrev pub newline : LexerState → LexerState
newline s = record s { current_line = s.current_line + 1; current_column = 1 }

-- The loop of `handle_string` and what follows it.
unfoldable pub string_loop : ℕ → Bytes → LexerState → Outcome LexerState
string_loop zero parsed_string s = out_of_fuel
string_loop (suc fuel) parsed_string s =
    if is_at_end s
    then ok (unknown (codes "Unterminated string literal") s)
    else if peek s == b'"'
    then ok (add_token TokenType.string (text parsed_string) (advance s))
    else elim (peek s == b'\\') [
      | false ↦
          string_loop fuel (parsed_string ++ peek s ∷ [])
            (advance (if peek s == b'\n' then newline s else s))
      | true ↦ elim (is_at_end (advance s)) [
        | true ↦ ok (unknown (codes "Unterminated string literal") (advance s))
        | false ↦ elim (escape (peek (advance s)) (peek (advance s)) (advance (advance s))) [
          | byte c s1 ↦ string_loop fuel (parsed_string ++ c ∷ []) s1
          | unterminated s1 ↦ ok (unknown (codes "Unterminated hex escape in string literal") s1)
          | invalid s1 ↦ ok (unknown (codes "Invalid hex character in string literal") s1)
        ]
      ]
    ]

-- Each round of the loop takes a byte.
abbrev pub handle_string : LexerState → Outcome LexerState
handle_string s = string_loop (suc (length s.rest)) [] s

-- Behind the code point: the closing quote.
unfoldable pub close_character : ℕ → LexerState → LexerState
close_character codepoint s =
    if is_at_end s || not (peek s == b'\'')
    then unknown (codes "Unterminated character literal") s
    else add_token TokenType.char (int64 codepoint) (advance s)

-- `static_cast<uint64_t>(esc)` extends the sign of a char.
unfoldable pub handle_character : LexerState → LexerState
handle_character s =
    if is_at_end s
    then unknown (codes "Unterminated character literal") s
    else if peek s == b'\\'
    then (if is_at_end (advance s)
        then unknown (codes "Unterminated character literal") (advance s)
        else elim (escape (peek (advance s)) (sign_extend8 (peek (advance s)))
            (advance (advance s))) [
              | byte codepoint s1 ↦ close_character codepoint s1
              | unterminated s1 ↦ unknown (codes "Unterminated hex escape") s1
              | invalid s1 ↦ unknown (codes "Invalid hex character") s1
            ])
    else close_character (peek s) (advance s)

-- `text` without its last byte where that is one of a suffix.
abbrev pub chop : (ℕ → Bool) → Bytes → Bytes
chop p [] = []
chop p (c ∷ []) = if p c then [] else c ∷ []
chop p (c ∷ d ∷ r) = c ∷ chop p (d ∷ r)

abbrev pub is_long : ℕ → Bool
is_long c = c == b'L' || c == b'l'

abbrev pub is_float : ℕ → Bool
is_float c = c == b'f' || c == b'F'

-- The number that digits spell, after a number; a byte that is no digit counts for nothing.
unfoldable pub number_of : ℕ → ℕ → Bytes → ℕ
number_of base acc [] = acc
number_of base acc (c ∷ cs) =
    number_of base (elim (hex_digit c) [ none ↦ acc | some d ↦ acc * base + d ]) cs

-- `std::stoull` on digits of the base, `none` for std::out_of_range.
abbrev pub stoull : ℕ → Bytes → Option ℕ
stoull base digits = let n = number_of base 0 digits in if ltb n (2 ^ 64) then some n else none

-- `std::stoll` on decimal digits.
abbrev pub stoll : Bytes → Option ℕ
stoll digits = let n = number_of 10 0 digits in if ltb n (2 ^ 63) then some n else none

-- `if (peek() == 'L' || peek() == 'l') advance();`
abbrev pub skip_one : (ℕ → Bool) → LexerState → LexerState
skip_one p s = if p (peek s) then advance s else s

abbrev pub number_token : ℕ → LexerState → LexerState
number_token n s = add_token TokenType.number (int64 n) s

-- `add_token(NUMBER, value)`, or the complaint of the handler of std::out_of_range.
unfoldable pub ranged_token : Option ℕ → LexerState → LexerState
ranged_token value s = elim value [
  | some n ↦ number_token n s
  | none ↦ unknown (codes "Integer literal out of range: " ++ lexeme s) s
]

-- A literal with the prefix `0x` or `0b`, at its end.
unfoldable pub prefixed_token : ℕ → Bytes → LexerState → LexerState
prefixed_token base complaint s =
    let clean = chop is_long (lexeme s) in
    if leb (length clean) 2
    then unknown (complaint ++ lexeme s) s
    else ranged_token (stoull base (tail (tail clean))) s

-- The same behind the prefix.
abbrev pub prefixed_literal : ℕ → (ℕ → Bool) → Bytes → LexerState → LexerState
prefixed_literal base is_base_digit complaint s =
    prefixed_token base complaint (skip_one is_long (while_peek is_base_digit s))

-- `stod` stands for `std::stod` on digits, a point and digits; `none` is std::out_of_range.
unfoldable pub float_token : (Bytes → Option ℕ) → LexerState → Outcome LexerState
float_token stod s = elim (stod (chop is_float (lexeme s))) [
  | none ↦ throw out_of_range
  | some d ↦ ok (add_token TokenType.number (double d) s)
]

-- At the point.
abbrev pub float_literal : (Bytes → Option ℕ) → LexerState → Outcome LexerState
float_literal stod s = float_token stod (skip_one is_float (while_peek is_digit (advance s)))

-- A number of up to 2^63: `stoll`, and `stoull` where that is out of range.
unfoldable pub signed_value : Bytes → Option ℕ
signed_value clean = elim (stoll clean) [
  | some n ↦ some n
  | none ↦ elim (stoull 10 clean) [
    | none ↦ none
    | some uval ↦ if leb uval (2 ^ 63) then some uval else none
  ]
]

abbrev pub decimal_literal : LexerState → LexerState
decimal_literal s =
    let s1 = skip_one is_long s in ranged_token (signed_value (chop is_long (lexeme s1))) s1

abbrev pub is_binary : ℕ → Bool
is_binary c = c == b'0' || c == b'1'

unfoldable pub handle_number : (Bytes → Option ℕ) → ℕ → LexerState → Outcome LexerState
handle_number stod first_char s =
    if first_char == b'0' && (peek s == b'x' || peek s == b'X')
    then ok (prefixed_literal 16 is_xdigit (codes "Invalid hexadecimal literal: ") (advance s))
    else if first_char == b'0' && (peek s == b'b' || peek s == b'B')
    then ok (prefixed_literal 2 is_binary (codes "Invalid binary literal: ") (advance s))
    else (let s1 = while_peek is_digit s in
        if peek s1 == b'.' && is_digit (peek_next s1)
        then float_literal stod s1
        else ok (decimal_literal s1))
