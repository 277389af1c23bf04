-- ===== src/Lexer/Tokenize.antt =====
-- `LexerState::tokenize` as a whole: it ends, and the order of its tokens.
use solix.Prelude.{ℕ, ◌+◌, ◌≤◌, ◌≡◌, ◌≢◌, List, [], ◌∷◌, ◌++◌, Bytes, All}
use solix.Lexer.Token.{Token, TokenType}
use solix.Lexer.State.{LexerState}
use solix.Lexer.Scan.{eof_token, initial}
use solix.Lexer.Reading.{breaks, Moves}

abbrev pub IsProper : Token → Type 0
IsProper t = t.type ≢ TokenType.eof_token

-- The lines of the tokens grow from `low` on and end at `high` or before.
abbrev pub Ordered : ℕ → List Token → ℕ → Type 0
Ordered low [] high = low ≤ high
Ordered low (t ∷ ts) high = (low ≤ t.line) × Ordered t.line ts high

-- What holds between two rounds of the loop.
record Good (src : Bytes) (s : LexerState) : Type 0 where
  moved : Moves (initial src) s
  proper : All IsProper s.tokens
  ordered : Ordered 1 s.tokens s.current_line

-- What the lexer returns for a source.
pub record Tokenized (src : Bytes) (ts : List Token) : Type 0 where
  pub body : List Token
  pub last : Token
  pub split : ts ≡ body ++ last ∷ []
  pub ends : last.type ≡ TokenType.eof_token
  pub proper : All IsProper body
  pub ordered : Ordered 1 body last.line
  pub bounded : last.line ≤ 1 + breaks src
