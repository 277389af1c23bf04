-- ===== src/Lexer/LiteralsRead.antt =====
-- What the literals of the lexer take from the source.
use solix.Prelude.{
  ℕ, zero, suc, ◌+◌, ◌*◌, ◌<◌, ◌≡◌, refl, ◌⊎◌, inl, inr, Bool, false, ◌||◌, not, [], ◌∷◌, ◌++◌,
  Bytes, codes, arith, ◌==◌, if◌then◌else◌, length, Bool-cases, Option-cases,
}
use solix.Outcome.{ok}
use solix.Vm.Conversion.{sign_extend8}
use solix.Lexer.Token.{TokenType, text, int64}
use solix.Lexer.State.{LexerState, peek, is_at_end, advance, add_token}
use solix.Lexer.Literals.{
  hex_digit, Escape, byte, unterminated, invalid, hex_escape, escape, unknown, newline, string_loop,
  close_character, handle_character, skip_one,
}
use solix.Lexer.Reading.{
  Reads, Emits, Reads-refl, Reads-trans, Reads-Emits, add_token-Emits, advance-Reads, Moves-length,
  advance-length, break-Reads,
}

pub unknown-Emits : (message : Bytes) (s : LexerState) → Emits s (unknown message s)
unknown-Emits message s = add_token-Emits TokenType.unknown_token (text message) s (λ e. cc)

abbrev EscapeReads : LexerState → Escape → Type 0
EscapeReads s (byte c t) = Reads s t
EscapeReads s (unterminated t) = Reads s t
EscapeReads s (invalid t) = Reads s t

EscapeReads-trans : {s t : LexerState} (e : Escape) → Reads s t → EscapeReads t e → EscapeReads s e
EscapeReads-trans (byte c t) a b = Reads-trans a b
EscapeReads-trans (unterminated t) a b = Reads-trans a b
EscapeReads-trans (invalid t) a b = Reads-trans a b

hex_escape-Reads : (n v : ℕ) (s : LexerState) → EscapeReads s (hex_escape n v s)
unfolding hex_escape
hex_escape-Reads zero v s = Reads-refl s
hex_escape-Reads (suc n) v s = elim (Bool-cases (is_at_end s)) [
  | inl e ↦ rw (e, hex_escape) (Reads-refl s)
  | inr e ↦ elim (Option-cases (hex_digit (peek s))) [
    | inl d ↦ rw (e, d, hex_escape) (advance-Reads s)
    | inr (x, d) ↦
        rw (e, d, hex_escape)
          (EscapeReads-trans (hex_escape n (v * 16 + x) (advance s)) (advance-Reads s)
            (hex_escape-Reads n (v * 16 + x) (advance s)))
  ]
]

escape-Reads : (esc other : ℕ) (s : LexerState) → EscapeReads s (escape esc other s)
unfolding escape
escape-Reads esc other s = ground (arith, Reads-refl s, hex_escape-Reads 2 0 s)

-- The state behind a backslash and the byte after it.
abbrev behind_escape : LexerState → LexerState
behind_escape s = advance (advance s)

string_escape-Reads :
    (other : ℕ) (s : LexerState) → EscapeReads s (escape (peek (advance s)) other (behind_escape s))
string_escape-Reads other s =
    EscapeReads-trans (escape (peek (advance s)) other (behind_escape s))
      (Reads-trans (advance-Reads s) (advance-Reads (advance s)))
      (escape-Reads (peek (advance s)) other (behind_escape s))

abbrev over_byte : LexerState → LexerState
over_byte s = advance (if peek s == b'\n' then newline s else s)

over_byte-Reads : (s : LexerState) → Reads s (over_byte s)
over_byte-Reads s = elim (Bool-cases (peek s == b'\n')) [
  | inl e ↦ rw e (break-Reads s (advance (newline s)) (ground arith) refl refl refl)
  | inr e ↦ rw e (advance-Reads s)
]

over_byte-length :
    (s : LexerState) → is_at_end s ≡ false → length (over_byte s).rest < length s.rest
over_byte-length s h = elim (Bool-cases (peek s == b'\n')) [
  | inl e ↦ rw e (advance-length s h)
  | inr e ↦ rw e (advance-length s h)
]

Escape-cases :
    (x : Escape)
    → (((c : ℕ) × (t : LexerState) × (x ≡ byte c t)) ⊎ ((t : LexerState) × (x ≡ unterminated t)))
      ⊎ ((t : LexerState) × (x ≡ invalid t))
Escape-cases (byte c t) = inl (inl (c, t, refl))
Escape-cases (unterminated t) = inl (inr (t, refl))
Escape-cases (invalid t) = inr (t, refl)

abbrev EscapeShorter : LexerState → Escape → Type 0
EscapeShorter s (byte c t) = length t.rest < length s.rest
EscapeShorter s (unterminated t) = Unit
EscapeShorter s (invalid t) = Unit

EscapeReads-Shorter :
    (s s1 : LexerState) (x : Escape)
    → length s1.rest < length s.rest
    → EscapeReads s1 x
    → EscapeShorter s x
EscapeReads-Shorter s s1 (byte c t) h r = omega (arith, Moves-length r.moves)
EscapeReads-Shorter s s1 (unterminated t) h r = tt
EscapeReads-Shorter s s1 (invalid t) h r = tt

string_escape-Shorter :
    (other : ℕ) (s : LexerState)
    → is_at_end s ≡ false
    → EscapeShorter s (escape (peek (advance s)) other (behind_escape s))
string_escape-Shorter other s h =
    EscapeReads-Shorter s (behind_escape s) (escape (peek (advance s)) other (behind_escape s))
      (omega (arith, advance-length s h, Moves-length (advance-Reads (advance s)).moves))
      (escape-Reads (peek (advance s)) other (behind_escape s))

abbrev unterminated_character : Bytes
unterminated_character = codes "Unterminated character literal"

abbrev unterminated_string : LexerState → LexerState
unterminated_string s = unknown (codes "Unterminated string literal") s

-- The string loop ends, given a unit of fuel for each byte and one more, with a single token.
pub string_loop-Emits :
    (fuel : ℕ) (parsed : Bytes) (s : LexerState)
    → length s.rest < fuel
    → (t : LexerState) × (string_loop fuel parsed s ≡ ok t) × Emits s t
unfolding string_loop
string_loop-Emits zero parsed s h = absurd (omega arith)
string_loop-Emits (suc fuel) parsed s h = elim (Bool-cases (is_at_end s)) [
  | inl e ↦ (
    unterminated_string s,
    rw (e, string_loop) refl,
    unknown-Emits (codes "Unterminated string literal") s,
  )
  | inr e ↦ elim (Bool-cases (peek s == b'"')) [
    | inl q ↦ (
      add_token TokenType.string (text parsed) (advance s),
      rw (e, q, string_loop) refl,
      Reads-Emits (advance-Reads s)
          (add_token-Emits TokenType.string (text parsed) (advance s) (λ x. cc)),
    )
    | inr q ↦ elim (Bool-cases (peek s == b'\\')) [
      | inr b ↦
          let (t, r, m) =
            string_loop-Emits fuel (parsed ++ peek s ∷ []) (over_byte s)
              (omega (arith, over_byte-length s e)) in
          (t, rw (e, q, b, string_loop) r, Reads-Emits (over_byte-Reads s) m)
      | inl b ↦ elim (Bool-cases (is_at_end (advance s))) [
        | inl f ↦ (
          unterminated_string (advance s),
          rw (e, q, b, f, string_loop) refl,
          Reads-Emits (advance-Reads s)
              (unknown-Emits (codes "Unterminated string literal") (advance s)),
        )
        | inr f ↦
            let x : Escape = escape (peek (advance s)) (peek (advance s)) (behind_escape s) in
            let er : EscapeReads s x = string_escape-Reads (peek (advance s)) s in
            let l : EscapeShorter s x = string_escape-Shorter (peek (advance s)) s e in
            elim (Escape-cases x) [
              | inl (inl (c, t1, y)) ↦
                  let (t, r, m) =
                    string_loop-Emits fuel (parsed ++ c ∷ []) t1 (omega (arith, rw y at l)) in
                  (t, rw (e, q, b, f, y, string_loop) r, Reads-Emits (rw y at er) m)
              | inl (inr (t1, y)) ↦ (
                unknown (codes "Unterminated hex escape in string literal") t1,
                rw (e, q, b, f, y, string_loop) refl,
                Reads-Emits (rw y at er)
                    (unknown-Emits (codes "Unterminated hex escape in string literal") t1),
              )
              | inr (t1, y) ↦ (
                unknown (codes "Invalid hex character in string literal") t1,
                rw (e, q, b, f, y, string_loop) refl,
                Reads-Emits (rw y at er)
                    (unknown-Emits (codes "Invalid hex character in string literal") t1),
              )
            ]
      ]
    ]
  ]
]

close_character-Emits : (c : ℕ) (s : LexerState) → Emits s (close_character c s)
unfolding close_character
close_character-Emits c s = elim (Bool-cases (is_at_end s || not (peek s == b'\''))) [
  | inl e ↦ rw (e, close_character) (unknown-Emits unterminated_character s)
  | inr e ↦
      rw (e, close_character)
        (Reads-Emits (advance-Reads s)
          (add_token-Emits TokenType.char (int64 c) (advance s) (λ x. cc)))
]

pub handle_character-Emits : (s : LexerState) → Emits s (handle_character s)
unfolding handle_character
handle_character-Emits s = elim (Bool-cases (is_at_end s)) [
  | inl e ↦ rw (e, handle_character) (unknown-Emits unterminated_character s)
  | inr e ↦ elim (Bool-cases (peek s == b'\\')) [
    | inr b ↦
        rw (e, b, handle_character)
          (Reads-Emits (advance-Reads s) (close_character-Emits (peek s) (advance s)))
    | inl b ↦ elim (Bool-cases (is_at_end (advance s))) [
      | inl f ↦
          rw (e, b, f, handle_character)
            (Reads-Emits (advance-Reads s) (unknown-Emits unterminated_character (advance s)))
      | inr f ↦
          let x : Escape =
            escape (peek (advance s)) (sign_extend8 (peek (advance s))) (behind_escape s) in
          let er : EscapeReads s x = string_escape-Reads (sign_extend8 (peek (advance s))) s in
          elim (Escape-cases x) [
            | inl (inl (c, t1, y)) ↦
                rw (e, b, f, y, handle_character)
                  (Reads-Emits (rw y at er) (close_character-Emits c t1))
            | inl (inr (t1, y)) ↦
                rw (e, b, f, y, handle_character)
                  (Reads-Emits (rw y at er) (unknown-Emits (codes "Unterminated hex escape") t1))
            | inr (t1, y) ↦
                rw (e, b, f, y, handle_character)
                  (Reads-Emits (rw y at er) (unknown-Emits (codes "Invalid hex character") t1))
          ]
    ]
  ]
]

pub skip_one-Reads : (p : ℕ → Bool) (s : LexerState) → Reads s (skip_one p s)
skip_one-Reads p s = elim (Bool-cases (p (peek s))) [
  | inl e ↦ rw e (advance-Reads s)
  | inr e ↦ rw e (Reads-refl s)
]
