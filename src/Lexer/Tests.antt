-- ===== src/Lexer/Tests.antt =====
-- The lexer on small sources.
use solix.Prelude.{ℕ, ◌≡◌, refl, List, [], ◌∷◌, ◌++◌, Bytes, codes, map, All, Option, none, arith}
use solix.Outcome.{ok}
use solix.Lexer.Token.{Token, TokenType, nullptr}
use solix.Lexer.Literals
use solix.Lexer.Scan.{tokenize}
use solix.Lexer.Spelling.{Lexeme, operator, word, quoted, decimal, IsLexeme, meaning, render}
use solix.Lexer.Spelling
use solix.Lexer.LexemesRead.{kind}
use solix.Lexer.RoundTrip.{tokenize-render}

abbrev no_float : Bytes → Option ℕ
no_float digits = none

-- A declaration with a comment, over two lines.
abbrev declaration : Bytes
declaration = codes "int32 x = 0x1F; // hi" ++ b'\n' ∷ codes "class A { }"

-- `return f_1 ( "a\"b" ) += 42 ;`
abbrev lexemes : List Lexeme
lexemes =
    word b'r' (codes "eturn")
    ∷ word b'f' (codes "_1")
    ∷ operator Spelling.open_paren
    ∷ quoted (b'a' ∷ b'"' ∷ b'b' ∷ [])
    ∷ operator Spelling.close_paren
    ∷ operator Spelling.plus_assign
    ∷ decimal b'4' (codes "2")
    ∷ operator Spelling.semicolon
    ∷ []

lexemes-IsLexeme : All IsLexeme lexemes
unfolding Literals.number_of Literals.hex_digit
lexemes-IsLexeme = (
  (refl, (refl, (refl, (refl, (refl, (refl, tt)))))),
  ((refl, (refl, (refl, tt))), (tt, (tt, (tt, (tt, ((refl, (refl, tt), omega arith), (tt, tt))))))),
)

tokenize-render_example :
    (ts : List Token) × (tokenize no_float (render lexemes) ≡ ok ts)
    × (map kind ts ≡ map meaning lexemes ++ (TokenType.eof_token, nullptr) ∷ [])
unfolding Spelling.operator_text Spelling.escaped
tokenize-render_example = tokenize-render no_float lexemes lexemes-IsLexeme (omega arith)
