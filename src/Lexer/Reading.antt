-- ===== src/Lexer/Reading.antt =====
-- What the parts of the lexer take from the source, and what they do to the line number.
use solix.Prelude.{
  ℕ, ◌+◌, ◌≤◌, ◌<◌, ◌≡◌, ◌≢◌, refl, sym, ◌∙◌, ap, inl, inr, Bool, false, [], ◌∷◌, ◌++◌, Bytes,
  arith, ◌==◌, if◌then◌else◌, length, Bool-cases, List-cases,
}
use mathlib.Core.List.{append_assoc}
use solix.Lexer.Token.{Token, TokenType, Value}
use solix.Lexer.State.{
  LexerState, advance, tail, peek, is_at_end, add_token, token_at, advance_while,
}

-- The number of line breaks.
unfoldable pub breaks : Bytes → ℕ
breaks [] = 0
breaks (c ∷ cs) = (if c == b'\n' then 1 else 0) + breaks cs

pub breaks-append : (a b : Bytes) → breaks (a ++ b) ≡ breaks a + breaks b
unfolding breaks
breaks-append [] b = omega arith
breaks-append (c ∷ a) b = omega (arith, breaks-append a b)

-- From `s` to `t` the lexer reads `used`; the line number grows, by no more than the line breaks
-- that were read.
pub record Moves (s t : LexerState) : Type 0 where
  pub used : Bytes
  pub split : s.rest ≡ used ++ t.rest
  pub up : s.current_line ≤ t.current_line
  pub bounded : t.current_line ≤ s.current_line + breaks used

-- The same with no token added.
pub record Reads (s t : LexerState) : Type 0 where
  pub moves : Moves s t
  pub tokens_kept : t.tokens ≡ s.tokens

-- The same with one token added, not the one for the end of the file, on the line reached.
pub record Emits (s t : LexerState) : Type 0 where
  pub moves : Moves s t
  pub token : Token
  pub added : t.tokens ≡ s.tokens ++ token ∷ []
  pub on_line : token.line ≡ t.current_line
  pub not_eof : token.type ≢ TokenType.eof_token

pub Moves-trans : {s t u : LexerState} → Moves s t → Moves t u → Moves s u
Moves-trans {u = u} a b = record {
  used = a.used ++ b.used;
  split = a.split ∙ ap (λ r. a.used ++ r) b.split ∙ sym (append_assoc a.used b.used u.rest);
  up = omega (arith, a.up, b.up);
  bounded = omega (arith, a.bounded, b.bounded, breaks-append a.used b.used);
}

pub Reads-refl : (s : LexerState) → Reads s s
unfolding breaks
Reads-refl s = record {
  moves = record { used = []; split = refl; up = omega arith; bounded = omega arith };
  tokens_kept = refl;
}

pub Reads-trans : {s t u : LexerState} → Reads s t → Reads t u → Reads s u
Reads-trans a b = record {
  moves = Moves-trans a.moves b.moves;
  tokens_kept = b.tokens_kept ∙ a.tokens_kept;
}

pub Reads-Emits : {s t u : LexerState} → Reads s t → Emits t u → Emits s u
Reads-Emits a b = record {
  moves = Moves-trans a.moves b.moves;
  token = b.token;
  added = b.added ∙ ap (λ ts. ts ++ b.token ∷ []) a.tokens_kept;
  on_line = b.on_line;
  not_eof = b.not_eof;
}

pub add_token-Emits :
    (type : TokenType) (value : Value) (s : LexerState)
    → type ≢ TokenType.eof_token
    → Emits s (add_token type value s)
unfolding breaks
add_token-Emits type value s n = record {
  moves = record { used = []; split = refl; up = omega arith; bounded = omega arith };
  token = token_at type value s;
  added = refl;
  on_line = refl;
  not_eof = n;
}

tail-split : (cs : Bytes) → (used : Bytes) × (cs ≡ used ++ tail cs) × (length used ≤ 1)
tail-split [] = ([], refl, omega arith)
tail-split (c ∷ cs) = (c ∷ [], refl, omega arith)

pub advance-Reads : (s : LexerState) → Reads s (advance s)
advance-Reads s =
    let (used, e, h) = tail-split s.rest in
    record {
      moves = record { used = used; split = e; up = omega arith; bounded = omega arith };
      tokens_kept = refl;
    }

pub advance_while-Reads :
    (p : ℕ → Bool) (cs : Bytes) (s : LexerState) → Reads s (advance_while p cs s)
unfolding advance_while
advance_while-Reads p [] s = Reads-refl s
advance_while-Reads p (c ∷ cs) s = elim (Bool-cases (p c)) [
  | inl e ↦
      rw (e, advance_while) (Reads-trans (advance-Reads s) (advance_while-Reads p cs (advance s)))
  | inr e ↦ rw (e, advance_while) (Reads-refl s)
]

pub length-append : (xs ys : Bytes) → length (xs ++ ys) ≡ length xs + length ys
length-append [] ys = omega arith
length-append (x ∷ xs) ys = omega (arith, length-append xs ys)

pub Moves-length : {s t : LexerState} → Moves s t → length t.rest ≤ length s.rest
Moves-length {t = t} m =
    omega (arith, ap (λ (r : Bytes). length r) m.split, length-append m.used t.rest)

pub advance-length :
    (s : LexerState) → is_at_end s ≡ false → length (advance s).rest < length s.rest
advance-length s h = elim (List-cases s.rest) [
  | inl e ↦ absurd (ground arith)
  | inr (c, cs, e) ↦ rw e (omega arith)
]

-- A line break that is counted before or behind the step over it.
pub break-Reads :
    (s t : LexerState)
    → peek s ≡ b'\n'
    → t.rest ≡ tail s.rest
    → t.current_line ≡ s.current_line + 1
    → t.tokens ≡ s.tokens
    → Reads s t
unfolding breaks
break-Reads s t p r l k = elim (List-cases s.rest) [
  | inl e ↦ absurd (ground arith)
  | inr (c, cs, e) ↦ record {
    moves = record {
      used = c ∷ [];
      split = e ∙ ap (λ x. c ∷ x) (sym (r ∙ ap tail e));
      up = omega (arith, l);
      bounded = ground (arith);
    };
    tokens_kept = k;
  }
]
