-- ===== src/Lexer/NumberRead.antt =====
-- What the literals of numbers read and add.
use solix.Prelude.{
  ℕ, ◌≡◌, refl, ◌⊎◌, inl, inr, Bool, ◌&&◌, ◌||◌, ◌++◌, Bytes, codes, leb, ◌==◌, length, Option,
  none, some, Bool-cases, Option-cases,
}
use solix.Outcome.{Outcome, ok, throw, out_of_range}
use solix.Lexer.Token.{TokenType, int64, double}
use solix.Lexer.State.{
  LexerState, peek, peek_next, advance, add_token, while_peek, lexeme, tail, is_digit, is_xdigit,
}
use solix.Lexer.Literals.{
  skip_one, number_token, prefixed_literal, float_literal, float_token, prefixed_token,
  ranged_token, signed_value, decimal_literal, handle_number, is_long, is_float, is_binary, stoull,
  chop,
}
use solix.Lexer.Reading.{
  Reads, Emits, Reads-trans, Reads-Emits, add_token-Emits, advance-Reads, advance_while-Reads,
}
use solix.Lexer.LiteralsRead.{unknown-Emits, skip_one-Reads}

number_token-Emits : (n : ℕ) (s : LexerState) → Emits s (number_token n s)
number_token-Emits n s = add_token-Emits TokenType.number (int64 n) s (λ e. cc)

digits-Reads : (p q : ℕ → Bool) (s : LexerState) → Reads s (skip_one q (while_peek p s))
digits-Reads p q s =
    Reads-trans (advance_while-Reads p s.rest s) (skip_one-Reads q (while_peek p s))

ranged_token-Emits : (value : Option ℕ) (s : LexerState) → Emits s (ranged_token value s)
unfolding ranged_token
ranged_token-Emits none s = unknown-Emits (codes "Integer literal out of range: " ++ lexeme s) s
ranged_token-Emits (some n) s = number_token-Emits n s

prefixed_token-Emits :
    (base : ℕ) (complaint : Bytes) (s : LexerState) → Emits s (prefixed_token base complaint s)
unfolding prefixed_token
prefixed_token-Emits base complaint s =
    elim (Bool-cases (leb (length (chop is_long (lexeme s))) 2)) [
      | inl e ↦ rw (e, prefixed_token) (unknown-Emits (complaint ++ lexeme s) s)
      | inr e ↦
          rw (e, prefixed_token)
            (ranged_token-Emits (stoull base (tail (tail (chop is_long (lexeme s))))) s)
    ]

prefixed_literal-Emits :
    (base : ℕ) (p : ℕ → Bool) (complaint : Bytes) (s : LexerState)
    → Emits s (prefixed_literal base p complaint (advance s))
prefixed_literal-Emits base p complaint s =
    Reads-Emits (Reads-trans (advance-Reads s) (digits-Reads p is_long (advance s)))
      (prefixed_token-Emits base complaint (skip_one is_long (while_peek p (advance s))))

-- What a step that may throw does when it does not.
unfoldable pub EmitsOrRaises : LexerState → Outcome LexerState → Type 0
EmitsOrRaises s r = (r ≡ throw out_of_range) ⊎ ((t : LexerState) × (r ≡ ok t) × Emits s t)

float_literal-Emits :
    (stod : Bytes → Option ℕ) (s : LexerState) → EmitsOrRaises s (float_literal stod s)
unfolding float_token EmitsOrRaises
float_literal-Emits stod s =
    let s1 = skip_one is_float (while_peek is_digit (advance s)) in
    elim (Option-cases (stod (chop is_float (lexeme s1)))) [
      | inl e ↦ inl (rw (e, float_token) refl)
      | inr (d, e) ↦ inr (
        add_token TokenType.number (double d) s1,
        rw (e, float_token) refl,
        Reads-Emits (Reads-trans (advance-Reads s) (digits-Reads is_digit is_float (advance s)))
            (add_token-Emits TokenType.number (double d) s1 (λ x. cc)),
      )
    ]

decimal_literal-Emits : (s : LexerState) → Emits s (decimal_literal s)
decimal_literal-Emits s = Reads-Emits (skip_one-Reads is_long s) (
    ranged_token-Emits (signed_value (chop is_long (lexeme (skip_one is_long s))))
      (skip_one is_long s))

pub handle_number-Emits :
    (stod : Bytes → Option ℕ) (c : ℕ) (s : LexerState) → EmitsOrRaises s (handle_number stod c s)
unfolding handle_number EmitsOrRaises
handle_number-Emits stod c s = elim (Bool-cases (c == b'0' && (peek s == b'x' || peek s == b'X'))) [
  | inl e ↦ inr (
    _,
    rw (e, handle_number) refl,
    prefixed_literal-Emits 16 is_xdigit (codes "Invalid hexadecimal literal: ") s,
  )
  | inr e ↦ elim (Bool-cases (c == b'0' && (peek s == b'b' || peek s == b'B'))) [
    | inl f ↦ inr (
      _,
      rw (e, f, handle_number) refl,
      prefixed_literal-Emits 2 is_binary (codes "Invalid binary literal: ") s,
    )
    | inr f ↦
        let s1 = while_peek is_digit s in
        let d : Reads s s1 = advance_while-Reads is_digit s.rest s in
        elim (Bool-cases (peek s1 == b'.' && is_digit (peek_next s1))) [
          | inl g ↦ elim (float_literal-Emits stod s1) [
            | inl h ↦ inl (rw (e, f, g, handle_number) h)
            | inr (t, h, m) ↦ inr (t, rw (e, f, g, handle_number) h, Reads-Emits d m)
          ]
          | inr g ↦
              inr (_, rw (e, f, g, handle_number) refl, Reads-Emits d (decimal_literal-Emits s1))
        ]
  ]
]
