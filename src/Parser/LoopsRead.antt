-- ===== src/Parser/LoopsRead.antt =====
-- Dotted names at tokens of given kinds.
use solix.Prelude.{
  ℕ, zero, suc, ◌≤◌, ◌≡◌, refl, ap, Bool, true, false, ◌||◌, List, [], ◌∷◌, ◌++◌, Bytes, codes,
  arith, if◌then◌else◌, length,
}
use solix.Outcome.{ok, throw, bad_variant_access}
use solix.Lexer.Token.{TokenType, Value, Token, text}
use solix.Lexer.LexemesRead.{kind}
use solix.Parser.State.{ParserState, ordinal, matches, text_of}
use solix.Parser.Types.{match_dot, dotted_name}
use solix.Parser.TypeSyntax.{
  Kind, mark, begins, spell_parts, spell_brackets, spell_pairs, dotted, dot_ahead,
}
use solix.Parser.Sees.{Sees, Yields, >>=-Yields, matches-hit, matches-miss, consume-Took}

or-left : (b c : Bool) → (b || c) ≡ false → b ≡ false
or-left true c h = absurd (cc)
or-left false c h = refl

or-right : (b c : Bool) → (b || c) ≡ false → c ≡ false
or-right true c h = absurd (cc)
or-right false c h = h

match_dot-hit :
    (colons : Bool) (s : ParserState) (l : List Kind)
    → Sees s (
        mark (if colons then TokenType.punctuation_double_colon else TokenType.punctuation_dot) ∷ l)
    → 1 ≤ length l
    → Yields (match_dot s) true l
unfolding ordinal
match_dot-hit false s l h p =
    >>=-Yields (matches TokenType.punctuation_dot s) true l _ true l
      (matches-hit TokenType.punctuation_dot s _ l h (refl, refl) p) (λ t g. (t, refl, g))
match_dot-hit true s l h p =
    >>=-Yields (matches TokenType.punctuation_dot s) false _ _ true l
      (matches-miss TokenType.punctuation_dot s _ h refl)
      (λ t g. matches-hit TokenType.punctuation_double_colon t _ l g (refl, refl) p)

match_dot-miss :
    (s : ParserState) (l : List Kind)
    → Sees s l
    → dot_ahead l ≡ false
    → Yields (match_dot s) false l
match_dot-miss s l h e =
    let dots = begins TokenType.punctuation_dot l in
    let colons = begins TokenType.punctuation_double_colon l in
    >>=-Yields (matches TokenType.punctuation_dot s) false l _ false l
      (matches-miss TokenType.punctuation_dot s l h (or-left dots colons e))
      (λ t g. matches-miss TokenType.punctuation_double_colon t l g (or-right dots colons e))

-- The text of a token of a known kind.
pub text_of-kind :
    (t : Token) (type : TokenType) (b : Bytes) → kind t ≡ (type, text b) → text_of t ≡ ok b
text_of-kind t type b e =
    ap {A = TokenType × Value} (λ k. elim k.1 [ text c ↦ ok c | _ ↦ throw bad_variant_access ]) e

pub parts-size :
    (parts : List (Bool × Bytes)) (r : List Kind) → length r ≤ length (spell_parts parts r)
parts-size [] r = omega arith
parts-size ((colons, part) ∷ parts) r = omega (arith, parts-size parts r)

pub brackets-size : (i : ℕ) (r : List Kind) → length r ≤ length (spell_brackets i r)
brackets-size zero r = omega arith
brackets-size (suc i) r = omega (arith, brackets-size i r)

pub pairs-size : (j : ℕ) (r : List Kind) → length r ≤ length (spell_pairs j r)
pairs-size zero r = omega arith
pairs-size (suc j) r = omega (arith, pairs-size j r)

pub dotted_name-reads :
    (n : ℕ) (name : Bytes) (parts : List (Bool × Bytes)) (r : List Kind) (s : ParserState)
    → Sees s (spell_parts parts r)
    → dot_ahead r ≡ false
    → 1 ≤ length r
    → length (spell_parts parts r) ≤ n
    → Yields (dotted_name n name s) (dotted name parts) r
unfolding dotted_name ordinal
dotted_name-reads zero name [] r s h e p f = absurd (omega (arith, p, f))
dotted_name-reads zero name (x ∷ parts) r s h e p f = absurd (omega (arith, f))
dotted_name-reads (suc n) name [] r s h e p f =
    >>=-Yields (match_dot s) false r _ name r (match_dot-miss s r h e) (λ t g. (t, refl, g))
dotted_name-reads (suc n) name ((colons, part) ∷ parts) r s h e p f =
    let l = spell_parts parts r in
    let full : 1 ≤ length l = omega (arith, p, parts-size parts r) in
    >>=-Yields (match_dot s) true ((TokenType.identifier, text part) ∷ l) _
      (dotted name ((colons, part) ∷ parts)) r
      (match_dot-hit colons s ((TokenType.identifier, text part) ∷ l) h (omega arith))
      (λ t g.
        let (u, a, i, k) =
          consume-Took TokenType.identifier (codes "Expected identifier after '.' or '::' in type")
            t _ l g (refl, refl) full in
        rw (a, text_of-kind t.next TokenType.identifier part k)
          (dotted_name-reads n (name ++ codes "." ++ part) parts r u i e p (omega (arith, f))))
