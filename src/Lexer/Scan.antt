-- ===== src/Lexer/Scan.antt =====
-- `LexerState::tokenize` of core/src/processes/lexer.cpp, with `handle_identifier`, the operators and
-- the comments.
use solix.Prelude.{
  ℕ, zero, suc, ◌+◌, Bool, true, false, ◌&&◌, ◌||◌, not, List, [], ◌∷◌, ◌++◌, Bytes, ◌==◌, ◌^◌, ltb,
  if◌then◌else◌, length, Option, none, some,
}
use solix.Outcome.{Outcome, ok, out_of_fuel, ◌>>=◌}
use solix.Lexer.Token.{TokenType, Token, text, nullptr, keywords}
use solix.Lexer.State.{
  LexerState, peek, peek_next, is_at_end, matches, advance, add_token, while_peek, lexeme, is_digit,
  is_alpha, is_name,
}
use solix.Lexer.Literals.{handle_string, handle_character, handle_number, unknown, newline}

unfoldable pub same : Bytes → Bytes → Bool
same [] [] = true
same (x ∷ xs) (y ∷ ys) = x == y && same xs ys
same _ _ = false

-- `keywords.find(name)`
unfoldable pub find_keyword : Bytes → List (Bytes × TokenType) → Option TokenType
find_keyword name [] = none
find_keyword name ((k, t) ∷ r) =
    let later = find_keyword name r in if same name k then some t else later

unfoldable pub handle_identifier : LexerState → LexerState
handle_identifier s =
    let s1 = while_peek is_name s in
    elim (find_keyword (lexeme s1) keywords) [
      | some t ↦ add_token t nullptr s1
      | none ↦ add_token TokenType.identifier (text (lexeme s1)) s1
    ]

abbrev pub mark : TokenType → LexerState → LexerState
mark type s = add_token type nullptr s

-- `add_token(match(expected) ? longer : shorter)`
abbrev pub mark_longer : ℕ → TokenType → TokenType → LexerState → LexerState
mark_longer expected longer shorter s =
    if matches expected s then mark longer (advance s) else mark shorter s

-- The same with two longer operators.
abbrev pub mark_longest : ℕ → TokenType → ℕ → TokenType → TokenType → LexerState → LexerState
mark_longest first longer second longer' shorter s =
    if matches first s then mark longer (advance s) else mark_longer second longer' shorter s

-- A line break in a comment.
abbrev pub comment_line : LexerState → LexerState
comment_line s = record s { current_line = s.current_line + 1; current_column = 0 }

-- The loop of `/*`.
unfoldable pub block_comment : ℕ → LexerState → Outcome LexerState
block_comment zero s = out_of_fuel
block_comment (suc fuel) s =
    let s1 = if peek s == b'\n' then comment_line s else s in
    let rest = block_comment fuel (advance s1) in
    if is_at_end s
    then ok s
    else if peek s == b'*' && peek_next s == b'/'
    then ok (advance (advance s1))
    else rest

unfoldable pub handle_slash : LexerState → Outcome LexerState
handle_slash s =
    if matches b'=' s
    then ok (mark TokenType.operator_divide_assign (advance s))
    else if matches b'/' s
    then ok (mark TokenType.comment_single_line (while_peek (λ c. not (c == b'\n')) (advance s)))
    else if matches b'*' s
    then (do
      s1 ← block_comment (suc (length s.rest)) (advance s)
      ok (mark TokenType.comment_multi_line s1))
    else ok (mark TokenType.operator_divide s)

-- The `switch (current_character)` but for the slash.
unfoldable pub handle_operator : ℕ → LexerState → LexerState
handle_operator c s =
    if c == b'('
    then mark TokenType.punctuation_open_paren s
    else if c == b')'
    then mark TokenType.punctuation_close_paren s
    else if c == b'{'
    then mark TokenType.punctuation_open_brace s
    else if c == b'}'
    then mark TokenType.punctuation_close_brace s
    else if c == b'['
    then mark_longer b']' TokenType.punctuation_array_brackets TokenType.punctuation_open_bracket s
    else if c == b']'
    then mark TokenType.punctuation_close_bracket s
    else if c == b';'
    then mark TokenType.punctuation_semicolon s
    else if c == b','
    then mark TokenType.punctuation_comma s
    else if c == b'.'
    then (if peek s == b'.' && peek_next s == b'.'
        then mark TokenType.punctuation_ellipsis (advance (advance s))
        else mark TokenType.punctuation_dot s)
    else if c == b':'
    then mark_longer b':' TokenType.punctuation_double_colon TokenType.punctuation_colon s
    else if c == b'?'
    then mark TokenType.operator_question s
    else if c == b'~'
    then mark TokenType.operator_bitwise_not s
    else if c == b'='
    then mark_longest b'=' TokenType.operator_equal b'>' TokenType.operator_fat_arrow
        TokenType.operator_assign s
    else if c == b'!'
    then mark_longer b'=' TokenType.operator_not_equal TokenType.operator_logical_not s
    else if c == b'<'
    then mark_longer b'=' TokenType.operator_less_equal TokenType.operator_less_than s
    else if c == b'>'
    then mark_longer b'=' TokenType.operator_greater_equal TokenType.operator_greater_than s
    else if c == b'&'
    then mark_longer b'&' TokenType.operator_logical_and TokenType.punctuation_ampersand s
    else if c == b'|'
    then (if matches b'|' s
        then mark TokenType.operator_logical_or (advance s)
        else unknown (b'|' ∷ []) s)
    else if c == b'+'
    then mark_longest b'+' TokenType.operator_increment b'=' TokenType.operator_plus_assign
        TokenType.operator_plus s
    else if c == b'-'
    then mark_longest b'-' TokenType.operator_decrement b'=' TokenType.operator_minus_assign
        TokenType.operator_minus s
    else if c == b'*'
    then mark_longer b'=' TokenType.operator_multiply_assign TokenType.operator_multiply s
    else if c == b'%'
    then mark_longer b'=' TokenType.operator_modulo_assign TokenType.operator_modulo s
    else unknown (c ∷ []) s

abbrev pub is_blank : ℕ → Bool
is_blank c = c == b' ' || c == b'\r' || c == b'\t'

-- A token that begins with `c`, which has been read.
unfoldable pub scan_token : (Bytes → Option ℕ) → ℕ → LexerState → Outcome LexerState
scan_token stod c s =
    if is_alpha c || c == b'_'
    then ok (handle_identifier s)
    else if is_digit c
    then handle_number stod c s
    else if c == b'"'
    then handle_string s
    else if c == b'\''
    then ok (handle_character s)
    else if c == b'/'
    then handle_slash s
    else ok (handle_operator c s)

-- `start_pos = current_pos; start_column = current_column;`
abbrev pub begin_token : LexerState → LexerState
begin_token s = record s { start = s.rest; start_column = s.current_column }

-- One round of the loop of `tokenize`, at a byte `c`.
unfoldable pub round : (Bytes → Option ℕ) → ℕ → LexerState → Outcome LexerState
round stod c s =
    if is_blank c
    then ok (advance s)
    else if c == b'\n'
    then ok (newline (advance s))
    else scan_token stod c (advance (begin_token s))

-- The token at the end of the file.
abbrev pub eof_token : LexerState → Token
eof_token s = record {
  type = TokenType.eof_token;
  line = s.current_line;
  column = s.current_column;
  end_line = s.current_line;
  end_column = s.current_column;
  value = nullptr;
}

unfoldable pub rounds : (Bytes → Option ℕ) → ℕ → LexerState → Outcome (List Token)
rounds stod zero s = out_of_fuel
rounds stod (suc fuel) s =
    if is_at_end s
    then ok (s.tokens ++ eof_token s ∷ [])
    else (do s1 ← round stod (peek s) s; rounds stod fuel s1)

abbrev pub initial : Bytes → LexerState
initial source_code = record {
  rest = source_code;
  start = source_code;
  current_line = 1;
  current_column = 1;
  start_column = 1;
  tokens = [];
}

-- The position and the column are `uint32_t`. A source is modelled while neither can wrap; on one of
-- 2^32 bytes or more `current_pos` starts again at 0 and the loop does not end.
abbrev pub fits_counters : Bytes → Bool
fits_counters source_code = ltb (length source_code + 1) (2 ^ 32)

-- Each round takes a byte.
unfoldable pub tokenize : (Bytes → Option ℕ) → Bytes → Outcome (List Token)
tokenize stod source_code =
    if fits_counters source_code
    then rounds stod (suc (length source_code)) (initial source_code)
    else out_of_fuel
