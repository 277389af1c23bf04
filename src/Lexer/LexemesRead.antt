-- ===== src/Lexer/LexemesRead.antt =====
-- What a round of the lexer reads of an operator, a name or a string with a space behind it.
use solix.Prelude.{
  ℕ, zero, suc, ◌+◌, ◌<◌, ◌≡◌, subst, refl, sym, ◌∙◌, ap, ◌⊎◌, inl, inr, Bool, true, false, ◌||◌,
  List, [], ◌∷◌, ◌++◌, Bytes, arith, ◌==◌, length, Option, none, some, Bool-cases, All,
}
use mathlib.Core.List.{append_assoc, append-nil}
use solix.Outcome.{ok}
use solix.Lexer.Token.{Token, TokenType, Value, text, nullptr, keywords}
use solix.Lexer.State.{
  LexerState, head_or_nul, advance, add_token, advance_while, take, lexeme, is_digit, is_alpha,
  is_name,
}
use solix.Lexer.Literals
use solix.Lexer.Scan
use solix.Lexer.Reading.{length-append}
use solix.Lexer.Spelling.{
  Operator, operator_text, operator_type, word_meaning, Lexeme, word, quoted, escaped, spell,
  meaning, IsLexeme,
}

abbrev pub kind : Token → TokenType × Value
kind t = (t.type, t.value)

abbrev pub at : Bytes → LexerState → LexerState
at r s = record s { rest = r }

-- The lexer is behind a lexeme with its token added.
pub record Read (x : TokenType × Value) (tokens : List Token) (rest : Bytes) (t : LexerState)
    : Type 0 where
  pub token : Token
  pub left : t.rest ≡ rest
  pub added : t.tokens ≡ tokens ++ token ∷ []
  pub means : kind token ≡ x

pub advance_while-All :
    (p : ℕ → Bool) (w r : Bytes) (s : LexerState)
    → All (λ d. p d ≡ true) w
    → p (head_or_nul r) ≡ false
    → advance_while p (w ++ r) (at (w ++ r) s)
      ≡ record s { rest = r; current_column = s.current_column + length w }
unfolding advance_while
advance_while-All p [] [] s h k = ap (λ n. record s { rest = []; current_column = n }) (omega arith)
advance_while-All p [] (c ∷ r) s h k =
    rw k (ap (λ n. record s { rest = c ∷ r; current_column = n }) (omega arith))
advance_while-All p (c ∷ w) r s (h, hs) k = rw h (
    advance_while-All p w r (record s { current_column = s.current_column + 1 }) hs k
    ∙ ap (λ n. record s { rest = r; current_column = n }) (omega arith))

take-append : (w r : Bytes) → take (length w) (w ++ r) ≡ w
take-append [] r = refl
take-append (c ∷ w) r = ap (λ x. c ∷ x) (take-append w r)

pub lexeme-append :
    (w r : Bytes) (s : LexerState) → lexeme (record s { start = w ++ r; rest = r }) ≡ w
lexeme-append w r s = ap (λ n. take n (w ++ r)) (omega (arith, length-append w r)) ∙ take-append w r

-- A letter or a digit is no blank and begins no other token.
letter-plain :
    (c : ℕ) → (is_alpha c || c == b'_') ≡ true → (Scan.is_blank c ≡ false) × ((c == b'\n') ≡ false)
letter-plain c h = ground arith

pub digit-plain :
    (c : ℕ)
    → is_digit c ≡ true
    → (Scan.is_blank c ≡ false) × ((c == b'\n') ≡ false) × ((is_alpha c || c == b'_') ≡ false)
digit-plain c h = ground arith

pub digits-head :
    (w rest : Bytes)
    → All (λ d. is_digit d ≡ true) w
    → let d = head_or_nul (w ++ b' ' ∷ rest) in
      ((d == b'x' || d == b'X') ≡ false) × ((d == b'b' || d == b'B') ≡ false)
digits-head [] rest h = (refl, refl)
digits-head (d ∷ w) rest (h, hs) = ground arith

pub operator-Read :
    (stod : Bytes → Option ℕ) (o : Operator) (rest : Bytes) (s : LexerState)
    → (t : LexerState) × (Scan.round stod
          (head_or_nul (operator_text o ++ b' ' ∷ rest))
          (at (operator_text o ++ b' ' ∷ rest) s)
        ≡ ok t)
      × Read (operator_type o, nullptr) s.tokens (b' ' ∷ rest) t
unfolding Scan.round Scan.scan_token Scan.handle_operator Scan.handle_slash operator_text
    operator_type
operator-Read stod Operator.open_paren rest s =
    (_, refl, record { token = _; left = refl; added = refl; means = refl })
operator-Read stod _ rest s =
    (_, refl, record { token = _; left = refl; added = refl; means = refl })

abbrev pub Rounds : (Bytes → Option ℕ) → Lexeme → Bytes → LexerState → Type 0
Rounds stod x rest s =
    (t : LexerState) × (Scan.round stod (head_or_nul (spell x ++ b' ' ∷ rest))
        (at (spell x ++ b' ' ∷ rest) s)
      ≡ ok t)
    × Read (meaning x) s.tokens (b' ' ∷ rest) t

-- What `handle_identifier` does behind a name.
abbrev named : Bytes → LexerState → Option TokenType → LexerState
named n s found = elim found [
  | some t ↦ add_token t nullptr s
  | none ↦ add_token TokenType.identifier (text n) s
]

named-Read :
    (n rest : Bytes) (s : LexerState) (found : Option TokenType)
    → Read (word_meaning n found) s.tokens (b' ' ∷ rest) (named n (at (b' ' ∷ rest) s) found)
named-Read n rest s (some t) = record { token = _; left = refl; added = refl; means = refl }
named-Read n rest s none = record { token = _; left = refl; added = refl; means = refl }

-- The state at the first byte, which has been read.
abbrev pub begun : ℕ → Bytes → LexerState → LexerState
begun c r s = advance (Scan.begin_token (at (c ∷ r) s))

-- The state behind `c ∷ w`.
abbrev pub behind : ℕ → Bytes → Bytes → LexerState → LexerState
behind c w r s = record (begun c (w ++ r) s) {
  rest = r;
  current_column = s.current_column + 1 + length w;
}

handle_identifier-named :
    (c : ℕ) (w rest : Bytes) (s : LexerState)
    → All (λ d. is_name d ≡ true) w
    → Scan.handle_identifier (begun c (w ++ b' ' ∷ rest) s)
      ≡ named (c ∷ w) (behind c w (b' ' ∷ rest) s) (Scan.find_keyword (c ∷ w) keywords)
unfolding Scan.handle_identifier
handle_identifier-named c w rest s h =
    ap (λ t. named (lexeme t) t (Scan.find_keyword (lexeme t) keywords))
      (advance_while-All is_name w (b' ' ∷ rest) (begun c (w ++ b' ' ∷ rest) s) h refl)
    ∙ ap (λ n. named n (behind c w (b' ' ∷ rest) s) (Scan.find_keyword n keywords))
        (lexeme-append (c ∷ w) (b' ' ∷ rest) (behind c w (b' ' ∷ rest) s))

pub word-Rounds :
    (stod : Bytes → Option ℕ) (c : ℕ) (w rest : Bytes) (s : LexerState)
    → IsLexeme (word c w)
    → Rounds stod (word c w) rest s
unfolding Scan.round Scan.scan_token
word-Rounds stod c w rest s (h, hs) =
    let (blank, line) = letter-plain c h in
    (
      _,
      rw (blank, line, h) (ap ok (handle_identifier-named c w rest s hs)),
      named-Read (c ∷ w) rest (behind c w (b' ' ∷ rest) s) (Scan.find_keyword (c ∷ w) keywords),
    )

quote-cases : (c : ℕ) → (c == b'"' || c == b'\\') ≡ true → (c ≡ b'"') ⊎ (c ≡ b'\\')
quote-cases c h = ground arith

plain-cases :
    (c : ℕ) → (c == b'"' || c == b'\\') ≡ false → ((c == b'"') ≡ false) × ((c == b'\\') ≡ false)
plain-cases c h = ground arith

pub digit-short : (c : ℕ) → is_digit c ≡ true → Literals.is_long c ≡ false
digit-short c h = ground arith

string_loop-quote :
    (fuel : ℕ) (r parsed : Bytes) (s : LexerState)
    → Literals.string_loop (suc fuel) parsed (at (b'"' ∷ r) s)
      ≡ ok (add_token TokenType.string (text parsed) (advance (at (b'"' ∷ r) s)))
unfolding Literals.string_loop
string_loop-quote fuel r parsed s = refl

-- A round of the string loop, at an escaped byte and at a plain one.
string_loop-escape :
    (fuel c : ℕ) (r parsed : Bytes) (s : LexerState)
    → (c == b'"' || c == b'\\') ≡ true
    → Literals.string_loop (suc fuel) parsed (at (b'\\' ∷ c ∷ r) s)
      ≡ Literals.string_loop fuel
          (parsed ++ c ∷ [])
          (record s { rest = r; current_column = s.current_column + 1 + 1 })
unfolding Literals.string_loop Literals.escape
string_loop-escape fuel c r parsed s h = elim (quote-cases c h) [
  | inl e ↦ rw e refl
  | inr e ↦ rw e refl
]

string_loop-byte :
    (fuel c : ℕ) (r parsed : Bytes) (s : LexerState)
    → (c == b'"' || c == b'\\') ≡ false
    → (u : LexerState) × (u.tokens ≡ s.tokens)
      × (Literals.string_loop (suc fuel) parsed (at (c ∷ r) s)
          ≡ Literals.string_loop fuel (parsed ++ c ∷ []) (at r u))
unfolding Literals.string_loop
string_loop-byte fuel c r parsed s h =
    let (k, l) = plain-cases c h in
    elim (Bool-cases (c == b'\n')) [
      | inl e ↦ (advance (Literals.newline s), refl, rw (k, l, e) refl)
      | inr e ↦ (advance s, refl, rw (k, l, e) refl)
    ]

escaped-shorter : (c : ℕ) (v : Bytes) → length (escaped v) < length (escaped (c ∷ v))
unfolding escaped
escaped-shorter c v = elim (Bool-cases (c == b'"' || c == b'\\')) [
  | inl k ↦ rw k (omega arith)
  | inr k ↦ rw k (omega arith)
]

-- The string loop reads an escaped string up to its quote.
abbrev Quoted : ℕ → Bytes → Bytes → Bytes → Bytes → LexerState → Type 0
Quoted fuel r rest parsed w s =
    (t : LexerState) × (Literals.string_loop fuel parsed (at r s) ≡ ok t)
    × Read (TokenType.string, text w) s.tokens rest t

string_loop-Quoted :
    (fuel : ℕ) (v rest parsed w : Bytes) (s : LexerState)
    → length (escaped v) < fuel
    → parsed ++ v ≡ w
    → Quoted fuel (escaped v ++ b'"' ∷ rest) rest parsed w s
unfolding escaped
string_loop-Quoted zero v rest parsed w s f e = absurd (omega (arith, f))
string_loop-Quoted (suc fuel) [] rest parsed w s f e = (
  _,
  string_loop-quote fuel rest parsed s,
  record {
    token = _;
    left = refl;
    added = refl;
    means = ap (λ x. (TokenType.string, text x)) (sym (append-nil parsed) ∙ e);
  },
)
string_loop-Quoted (suc fuel) (c ∷ v) rest parsed w s f e =
    let r = escaped v ++ b'"' ∷ rest in
    let f' : length (escaped v) < fuel = omega (arith, f, escaped-shorter c v) in
    let e' = append_assoc parsed (c ∷ []) v ∙ e in
    elim (Bool-cases (c == b'"' || c == b'\\')) [
      | inl k ↦
          let u : LexerState = record s { current_column = s.current_column + 1 + 1 } in
          let (t, steps, h) = string_loop-Quoted fuel v rest (parsed ++ c ∷ []) w u f' e' in
          rw k (t, string_loop-escape fuel c r parsed s k ∙ steps, h)
      | inr k ↦
          let (u, kept, step) = string_loop-byte fuel c r parsed s k in
          let (t, steps, h) = string_loop-Quoted fuel v rest (parsed ++ c ∷ []) w u f' e' in
          rw k (t, step ∙ steps, subst (λ ts. Read (TokenType.string, text w) ts rest t) kept h)
    ]

pub quoted-Rounds :
    (stod : Bytes → Option ℕ) (v rest : Bytes) (s : LexerState) → Rounds stod (quoted v) rest s
unfolding Scan.round Scan.scan_token
quoted-Rounds stod v rest s =
    let r = escaped v ++ b'"' ∷ b' ' ∷ rest in
    let bound : length (escaped v) < suc (length r) =
      omega (arith, length-append (escaped v) (b'"' ∷ b' ' ∷ rest)) in
    let (t, e, h) =
      string_loop-Quoted (suc (length r)) v (b' ' ∷ rest) [] v (begun b'"' r s) bound refl in
    (
      t,
      ap (λ q. Scan.round stod b'"' (at (b'"' ∷ q) s))
            (append_assoc (escaped v) (b'"' ∷ []) (b' ' ∷ rest))
          ∙ e,
      h,
    )
