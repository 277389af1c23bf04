-- ===== src/Lexer/RoundTrip.antt =====
-- The lexer reads back what the grammar of `Spelling` writes.
use solix.Prelude.{
  ℕ, zero, suc, ◌<◌, ◌≡◌, refl, ◌∙◌, ap, List, [], ◌∷◌, ◌++◌, Bytes, map, arith, length, Option,
  All, ◌+◌, ◌^◌, true,
}
use mathlib.Core.List.{append_assoc, map-append}
use solix.Outcome.{ok, ◌>>=◌}
use solix.Lexer.Token.{Token, TokenType, Value, nullptr}
use solix.Lexer.State.{LexerState, head_or_nul, advance}
use solix.Lexer.Scan
use solix.Lexer.Reading.{length-append}
use solix.Lexer.Spelling.{
  Operator, open_paren, operator_text, Lexeme, operator, word, quoted, decimal, spell, meaning,
  IsLexeme, render,
}
use solix.Lexer.LexemesRead.{at, kind}
use solix.Lexer.LexemeRounds.{lexeme-Rounds}

operator_text-nonempty : (o : Operator) → 0 < length (operator_text o)
unfolding operator_text
operator_text-nonempty open_paren = omega arith
operator_text-nonempty _ = omega arith

spell-nonempty : (x : Lexeme) → 0 < length (spell x)
spell-nonempty (operator o) = operator_text-nonempty o
spell-nonempty (word c w) = omega arith
spell-nonempty (quoted v) = omega arith
spell-nonempty (decimal c w) = omega arith

-- A round of the loop, at a byte and at the end.
rounds-step :
    (stod : Bytes → Option ℕ) (fuel : ℕ) (r : Bytes) (s t : LexerState)
    → 0 < length r
    → Scan.round stod (head_or_nul r) (at r s) ≡ ok t
    → Scan.rounds stod (suc fuel) (at r s) ≡ Scan.rounds stod fuel t
unfolding Scan.rounds
rounds-step stod fuel [] s t h e = absurd (omega (arith, h))
rounds-step stod fuel (c ∷ r) s t h e = ap (λ o. (do u ← o; Scan.rounds stod fuel u)) e

rounds-blank :
    (stod : Bytes → Option ℕ) (fuel : ℕ) (r : Bytes) (s : LexerState)
    → Scan.rounds stod (suc fuel) (at (b' ' ∷ r) s)
      ≡ Scan.rounds stod fuel (advance (at (b' ' ∷ r) s))
unfolding Scan.rounds Scan.round
rounds-blank stod fuel r s = refl

rounds-end :
    (stod : Bytes → Option ℕ) (fuel : ℕ) (s : LexerState)
    → Scan.rounds stod (suc fuel) (at [] s) ≡ ok (s.tokens ++ Scan.eof_token (at [] s) ∷ [])
unfolding Scan.rounds
rounds-end stod fuel s = refl

abbrev eof : List (TokenType × Value)
eof = (TokenType.eof_token, nullptr) ∷ []

-- The tokens of the lexemes behind those that are there.
abbrev Lexed : (Bytes → Option ℕ) → ℕ → List Lexeme → LexerState → Type 0
Lexed stod fuel xs s =
    (ts : List Token) × (Scan.rounds stod fuel (at (render xs) s) ≡ ok ts)
    × (map kind ts ≡ map kind s.tokens ++ (map meaning xs ++ eof))

rounds-Lexed :
    (stod : Bytes → Option ℕ) (fuel : ℕ) (xs : List Lexeme) (s : LexerState)
    → length (render xs) < fuel
    → All IsLexeme xs
    → Lexed stod fuel xs s
rounds-Lexed stod zero xs s f h = absurd (omega (arith, f))
rounds-Lexed stod (suc fuel) [] s f h =
    (s.tokens ++ Scan.eof_token (at [] s) ∷ [], rounds-end stod fuel s, map-append kind s.tokens _)
rounds-Lexed stod (suc zero) (x ∷ xs) s f h =
    absurd (omega (arith, f, length-append (spell x) (b' ' ∷ render xs), spell-nonempty x))
rounds-Lexed stod (suc (suc fuel)) (x ∷ xs) s f (h, hs) =
    let (t, step, r) = lexeme-Rounds stod x (render xs) s h in
    let u = advance (at (b' ' ∷ render xs) t) in
    let size = length-append (spell x) (b' ' ∷ render xs) in
    let full = spell-nonempty x in
    let (ts, steps, e) = rounds-Lexed stod fuel xs u (omega (arith, f, size, full)) hs in
    (
      ts,
      rounds-step stod (suc fuel) (spell x ++ b' ' ∷ render xs) s t (omega (arith, size, full)) step
          ∙ ap (λ q. Scan.rounds stod (suc fuel) (at q t)) r.left
          ∙ rounds-blank stod fuel (render xs) t
          ∙ steps,
      e
          ∙ ap (λ l. map kind l ++ (map meaning xs ++ eof)) r.added
          ∙ ap (λ l. l ++ (map meaning xs ++ eof)) (map-append kind s.tokens (r.token ∷ []))
          ∙ append_assoc (map kind s.tokens) (kind r.token ∷ []) (map meaning xs ++ eof)
          ∙ ap (λ k. map kind s.tokens ++ k ∷ (map meaning xs ++ eof)) r.means,
    )

-- A source of less than 2^32 - 1 bytes that consists of operators, names, strings of any bytes and
-- decimal numbers up to 2^63, with or without leading zeros, with a space behind each, is lexed as
-- exactly these in order and the end of the file: each operator has its type, a name the type of
-- its keyword or else itself as an identifier, a string with its quotes and backslashes escaped
-- its bytes, and a number its value.
pub tokenize-render :
    (stod : Bytes → Option ℕ) (xs : List Lexeme)
    → All IsLexeme xs
    → length (render xs) + 1 < 2 ^ 32
    → (ts : List Token) × (Scan.tokenize stod (render xs) ≡ ok ts)
      × (map kind ts ≡ map meaning xs ++ (TokenType.eof_token, nullptr) ∷ [])
unfolding Scan.tokenize
tokenize-render stod xs h n =
    let short : Scan.fits_counters (render xs) ≡ true = ground arith in
    rw short
      (rounds-Lexed stod (suc (length (render xs))) xs (Scan.initial (render xs)) (omega arith) h)
