-- ===== src/Parser/Start.antt =====
-- Where the parser begins on the tokens of the lexer.
use solix.Prelude.{
  ◌≡◌, ◌≢◌, refl, sym, arith, subst, ◌∙◌, ap, true, false, ◌||◌, List, [], ◌∷◌, ◌++◌, Bytes,
  Bool-cases, inl, inr,
}
use solix.Outcome.{ok}
use solix.Lexer.Token.{TokenType, Token}
use solix.Lexer.Tokenize.{Tokenized}
use solix.Parser.State.{
  ParserState, ordinal, same_type, is_comment, without_comments, at_first, parser_state,
}
use solix.Parser.Forward.{Ends}

eof-same : (t : TokenType) → t ≡ TokenType.eof_token → same_type t TokenType.eof_token ≡ true
unfolding ordinal
eof-same t e = ap (λ u. same_type u TokenType.eof_token) e

eof-kept : (t : Token) → t.type ≡ TokenType.eof_token → is_comment t ≡ false
unfolding ordinal
eof-kept t e =
    ap (λ u. same_type u TokenType.comment_single_line || same_type u TokenType.comment_multi_line)
      e

without_comments-last :
    (ts : List Token) (t : Token)
    → t.type ≡ TokenType.eof_token
    → without_comments (ts ++ t ∷ []) ≡ without_comments ts ++ t ∷ []
without_comments-last [] t e = rw (eof-kept t e) refl
without_comments-last (u ∷ ts) t e = elim (Bool-cases (is_comment u)) [
  | inl c ↦ rw c (without_comments-last ts t e)
  | inr c ↦ rw c (ap (λ l. u ∷ l) (without_comments-last ts t e))
]

Ends-last :
    (n : Token) (ts : List Token) (t : Token) → t.type ≡ TokenType.eof_token → Ends n (ts ++ t ∷ [])
Ends-last n [] t e = eof-same t.type e
Ends-last n (u ∷ ts) t e = Ends-last u ts t e

line-kept :
    (t : TokenType)
    → t ≡ TokenType.comment_single_line
    → same_type t TokenType.comment_single_line ≢ false
unfolding ordinal
line-kept t e h = let k = ap ordinal e in ground arith

block-kept :
    (t : TokenType)
    → t ≡ TokenType.comment_multi_line
    → same_type t TokenType.comment_multi_line ≢ false
unfolding ordinal
block-kept t e h = let k = ap ordinal e in ground arith

-- The second list is the first one without the comments.
pub data Kept : List Token → List Token → Type 0 where
  nil : Kept [] []
  skip_line :
      {t : Token} {ts us : List Token}
      → t.type ≡ TokenType.comment_single_line
      → Kept ts us
      → Kept (t ∷ ts) us
  skip_block :
      {t : Token} {ts us : List Token}
      → t.type ≡ TokenType.comment_multi_line
      → Kept ts us
      → Kept (t ∷ ts) us
  keep :
      {t : Token} {ts us : List Token}
      → t.type ≢ TokenType.comment_single_line
      → t.type ≢ TokenType.comment_multi_line
      → Kept ts us
      → Kept (t ∷ ts) (t ∷ us)

line-type : (t : TokenType) → ordinal t ≡ 101 → t ≡ TokenType.comment_single_line
unfolding ordinal
line-type TokenType.comment_single_line h = refl
line-type _ h = absurd (omega arith)

block-type : (t : TokenType) → ordinal t ≡ 102 → t ≡ TokenType.comment_multi_line
unfolding ordinal
block-type TokenType.comment_multi_line h = refl
block-type _ h = absurd (omega arith)

kept : (ts : List Token) → Kept ts (without_comments ts)
unfolding ordinal
kept [] = Kept.nil
kept (t ∷ ts) =
    let rest = kept ts in
    elim (Bool-cases (same_type t.type TokenType.comment_single_line)) [
      | inl l ↦ rw l (Kept.skip_line (line-type t.type (ground arith)) rest)
      | inr l ↦ elim (Bool-cases (same_type t.type TokenType.comment_multi_line)) [
        | inl b ↦ rw (l, b) (Kept.skip_block (block-type t.type (ground arith)) rest)
        | inr b ↦
            rw (l, b)
              (Kept.keep (λ e. absurd (line-kept t.type e l)) (λ e. absurd (block-kept t.type e b))
                rest)
      ]
    ]

-- The parser is before all of the tokens but the comments, of which the last is the end of the
-- file.
abbrev pub Starts : List Token → ParserState → Type 0
Starts tokens s =
    (parser_state tokens ≡ ok s)
    × Kept tokens (s.next ∷ s.after)
    × Ends s.next s.after
    × (s.before ≡ [])

at_first-Ends :
    (ts : List Token) (t : Token)
    → t.type ≡ TokenType.eof_token
    → (s : ParserState) × (at_first (ts ++ t ∷ []) ≡ ok s)
      × (s.next ∷ s.after ≡ ts ++ t ∷ [])
      × Ends s.next s.after
      × (s.before ≡ [])
at_first-Ends [] t e = (_, refl, refl, eof-same t.type e, refl)
at_first-Ends (u ∷ ts) t e = (_, refl, refl, Ends-last u ts t e, refl)

starts :
    (ts : List Token) (t : Token)
    → t.type ≡ TokenType.eof_token
    → (s : ParserState) × Starts (ts ++ t ∷ []) s
starts ts t e =
    let (s, a, l, b, c) = at_first-Ends (without_comments ts) t e in
    let w = without_comments-last ts t e in
    (s, (ap at_first w ∙ a, subst (Kept (ts ++ t ∷ [])) (w ∙ sym l) (kept (ts ++ t ∷ [])), b, c))

-- On tokens as the lexer returns them for a source the parser begins at a token, with nothing
-- read. The tokens from there on are those of the lexer in their order without the comments, and
-- no other is left out; the last one is the end of the file.
pub parser_state-Starts :
    (src : Bytes) (tokens : List Token) → Tokenized src tokens → (s : ParserState) × Starts tokens s
parser_state-Starts src tokens h =
    subst (λ ts. (s : ParserState) × Starts ts s) (sym h.split) (starts h.body h.last h.ends)
