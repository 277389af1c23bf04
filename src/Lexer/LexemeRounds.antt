-- ===== src/Lexer/LexemeRounds.antt =====
-- What a round reads of a decimal number, and of any lexeme.
use solix.Prelude.{
  ℕ, ◌^◌, ◌≤◌, ◌≡◌, refl, ◌∙◌, ap, inl, inr, true, ◌&&◌, [], ◌∷◌, ◌++◌, Bytes, arith, ◌==◌,
  if◌then◌else◌, Option, some, Bool-cases, All,
}
use solix.Outcome.{ok}
use solix.Lexer.State.{LexerState, peek, peek_next, is_digit}
use solix.Lexer.Literals
use solix.Lexer.Scan
use solix.Lexer.Spelling.{Lexeme, operator, word, quoted, decimal, IsLexeme}
use solix.Lexer.LexemesRead.{
  advance_while-All, lexeme-append, digit-plain, digits-head, operator-Read, Rounds, begun, behind,
  word-Rounds, digit-short, quoted-Rounds,
}

-- A number has no suffix to take off.
chop-digits : (w : Bytes) → All (λ d. is_digit d ≡ true) w → Literals.chop Literals.is_long w ≡ w
chop-digits [] h = refl
chop-digits (c ∷ []) (h, _) = rw (digit-short c h) refl
chop-digits (c ∷ d ∷ w) (h, hs) = ap (λ x. c ∷ x) (chop-digits (d ∷ w) hs)

signed_value-small :
    (w : Bytes)
    → Literals.number_of 10 0 w ≤ 2 ^ 63
    → Literals.signed_value w ≡ some (Literals.number_of 10 0 w)
unfolding Literals.signed_value
signed_value-small w h = ground arith

decimal_literal-digits :
    (c : ℕ) (w rest : Bytes) (s : LexerState)
    → IsLexeme (decimal c w)
    → Literals.decimal_literal (behind c w (b' ' ∷ rest) s)
      ≡ Literals.number_token (Literals.number_of 10 0 (c ∷ w)) (behind c w (b' ' ∷ rest) s)
unfolding Literals.ranged_token
decimal_literal-digits c w rest s (h, hs, small) =
    let t = behind c w (b' ' ∷ rest) s in
    ap (λ l. Literals.ranged_token (Literals.signed_value (Literals.chop Literals.is_long l)) t)
      (lexeme-append (c ∷ w) (b' ' ∷ rest) t)
    ∙ ap (λ l. Literals.ranged_token (Literals.signed_value l) t) (chop-digits (c ∷ w) (h, hs))
    ∙ ap (λ n. Literals.ranged_token n t) (signed_value-small (c ∷ w) small)

handle_number-decimal :
    (stod : Bytes → Option ℕ) (c : ℕ) (w rest : Bytes) (s : LexerState)
    → IsLexeme (decimal c w)
    → Literals.handle_number stod c (begun c (w ++ b' ' ∷ rest) s)
      ≡ ok (Literals.number_token (Literals.number_of 10 0 (c ∷ w)) (behind c w (b' ' ∷ rest) s))
unfolding Literals.handle_number
handle_number-decimal stod c w rest s (h, hs, small) =
    let (x, b) = digits-head w rest hs in
    let digits =
      ap
        (λ t.
          if peek t == b'.' && is_digit (peek_next t)
          then Literals.float_literal stod t
          else ok (Literals.decimal_literal t))
        (advance_while-All is_digit w (b' ' ∷ rest) (begun c (w ++ b' ' ∷ rest) s) hs refl)
      ∙ ap ok (decimal_literal-digits c w rest s (h, hs, small)) in
    elim (Bool-cases (c == b'0')) [ inl e ↦ rw (e, x, b) digits | inr e ↦ rw e digits ]

decimal-Rounds :
    (stod : Bytes → Option ℕ) (c : ℕ) (w rest : Bytes) (s : LexerState)
    → IsLexeme (decimal c w)
    → Rounds stod (decimal c w) rest s
unfolding Scan.round Scan.scan_token
decimal-Rounds stod c w rest s (h, hs, small) =
    let (blank, line, name) = digit-plain c h in
    (
      Literals.number_token (Literals.number_of 10 0 (c ∷ w)) (behind c w (b' ' ∷ rest) s),
      rw (blank, line, name, h) (handle_number-decimal stod c w rest s (h, hs, small)),
      record { token = _; left = refl; added = refl; means = refl },
    )

pub lexeme-Rounds :
    (stod : Bytes → Option ℕ) (x : Lexeme) (rest : Bytes) (s : LexerState)
    → IsLexeme x
    → Rounds stod x rest s
lexeme-Rounds stod (operator o) rest s h = operator-Read stod o rest s
lexeme-Rounds stod (word c w) rest s h = word-Rounds stod c w rest s h
lexeme-Rounds stod (quoted v) rest s h = quoted-Rounds stod v rest s
lexeme-Rounds stod (decimal c w) rest s h = decimal-Rounds stod c w rest s h
