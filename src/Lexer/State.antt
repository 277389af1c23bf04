-- ===== src/Lexer/State.antt =====
-- `class LexerState` of core/src/processes/lexer.cpp and its primitives.
use solix.Prelude.{
  ℕ, ◌+◌, ◌-◌, Bool, true, false, ◌&&◌, ◌||◌, List, [], ◌∷◌, ◌++◌, Bytes, leb, ◌==◌, if◌then◌else◌,
  length,
}
use solix.Lexer.Token.{TokenType, Value, Token}

-- `rest` is `source_code` from `current_pos` on, and `start` is it from `start_pos` on. The positions,
-- the line and the column are `uint32_t`. Each is at most one more than the bytes that have been read,
-- and `tokenize` runs this model on sources of less than 2^32 - 1 bytes only.
pub record LexerState : Type 0 where
  pub rest : Bytes
  pub start : Bytes
  pub current_line : ℕ
  pub current_column : ℕ
  pub start_column : ℕ
  pub tokens : List Token

abbrev pub head_or_nul : Bytes → ℕ
head_or_nul [] = 0
head_or_nul (c ∷ cs) = c

abbrev pub tail : Bytes → Bytes
tail [] = []
tail (c ∷ cs) = cs

abbrev pub peek : LexerState → ℕ
peek s = head_or_nul s.rest

abbrev pub peek_next : LexerState → ℕ
peek_next s = head_or_nul (tail s.rest)

abbrev pub is_at_end : LexerState → Bool
is_at_end s = elim s.rest [ [] ↦ true | _ ∷ _ ↦ false ]

-- The state after `advance()`, which returns what `peek()` does.
abbrev pub advance : LexerState → LexerState
advance s = record s { rest = tail s.rest; current_column = s.current_column + 1 }

-- `if (match(expected)) … else …`
abbrev pub matches : ℕ → LexerState → Bool
matches expected s = elim s.rest [ [] ↦ false | c ∷ _ ↦ c == expected ]

abbrev pub token_at : TokenType → Value → LexerState → Token
token_at type value s = record {
  type = type;
  line = s.current_line;
  column = s.start_column;
  end_line = s.current_line;
  end_column = s.current_column;
  value = value;
}

abbrev pub add_token : TokenType → Value → LexerState → LexerState
add_token type value s = record s { tokens = s.tokens ++ token_at type value s ∷ [] }

-- `while (p(peek())) advance();` for a test that is false of the null character.
unfoldable pub advance_while : (ℕ → Bool) → Bytes → LexerState → LexerState
advance_while p [] s = s
advance_while p (c ∷ cs) s = let r = advance_while p cs (advance s) in if p c then r else s

abbrev pub while_peek : (ℕ → Bool) → LexerState → LexerState
while_peek p s = advance_while p s.rest s

abbrev pub take : ℕ → Bytes → Bytes
take Prim.Native.Nat.zero cs = []
take (Prim.Native.Nat.suc n) [] = []
take (Prim.Native.Nat.suc n) (c ∷ cs) = c ∷ take n cs

-- `source_code.substr(start_pos, current_pos - start_pos)`
abbrev pub lexeme : LexerState → Bytes
lexeme s = take (length s.start - length s.rest) s.start

-- The character tests of <cctype> in the C locale.
abbrev pub is_digit : ℕ → Bool
is_digit c = leb b'0' c && leb c b'9'

abbrev pub is_alpha : ℕ → Bool
is_alpha c = (leb b'A' c && leb c b'Z') || (leb b'a' c && leb c b'z')

abbrev pub is_xdigit : ℕ → Bool
is_xdigit c = is_digit c || (leb b'A' c && leb c b'F') || (leb b'a' c && leb c b'f')

abbrev pub is_name : ℕ → Bool
is_name c = is_alpha c || is_digit c || c == b'_'
