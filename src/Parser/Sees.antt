-- ===== src/Parser/Sees.antt =====
-- What the primitives of the parser do at tokens of given kinds.
use solix.Prelude.{
  suc, ◌≤◌, ◌≡◌, refl, sym, ◌∙◌, ap, Bool, true, false, ◌&&◌, not, List, [], ◌∷◌, Bytes, map, arith,
  length,
}
use solix.Outcome.{Outcome, ok, ◌>>=◌}
use solix.Lexer.Token.{TokenType, Token}
use solix.Lexer.LexemesRead.{kind}
use solix.Parser.State.{
  ParserState, same_type, is_at_end, check, forward, advance, matches, consume,
}
use solix.Parser.TypeSyntax.{Kind, type_at, begins}

-- The tokens from the next one on.
abbrev pub Sees : ParserState → List Kind → Type 0
Sees s l = map kind (s.next ∷ s.after) ≡ l

-- A step returns `a` and leaves the tokens `l`.
abbrev pub Yields {ℓ} : {A : Type ℓ} → Outcome (A × ParserState) → A → List Kind → Type ℓ
Yields m a l = (t : ParserState) × (m ≡ ok (a, t)) × Sees t l

pub >>=-Yields {ℓ κ} :
    {A : Type ℓ} {B : Type κ} (m : Outcome (A × ParserState)) (a : A) (l : List Kind)
    (f : A × ParserState → Outcome (B × ParserState)) (b : B) (r : List Kind)
    → Yields m a l
    → ((t : ParserState) → Sees t l → Yields (f (a, t)) b r)
    → Yields (m >>= f) b r
>>=-Yields m a l f b r (t, e, h) k = let (u, d, g) = k t h in (u, ap (λ o. o >>= f) e ∙ d, g)

pub Sees-type : (s : ParserState) (l : List Kind) → Sees s l → s.next.type ≡ type_at 0 l
Sees-type s l h = ap (type_at 0) h

abbrev rest_of : List Kind → List Kind
rest_of [] = []
rest_of (k ∷ l) = l

length-map-kind : (ts : List Token) → length (map kind ts) ≡ length ts
length-map-kind [] = refl
length-map-kind (t ∷ ts) = omega (arith, length-map-kind ts)

pub Sees-length : (s : ParserState) (l : List Kind) → Sees s l → length l ≡ suc (length s.after)
Sees-length s l h = sym (ap length h) ∙ length-map-kind (s.next ∷ s.after)

abbrev kind_at_front : Kind → List Kind → Kind
kind_at_front d [] = d
kind_at_front d (k ∷ l) = k

and-miss : (b c : Bool) → c ≡ false → (not b && c) ≡ false
and-miss true c e = refl
and-miss false c e = e

-- The next token is read, and others follow.
abbrev pub Took : ParserState → Kind → List Kind → Type 0
Took s k l = (t : ParserState) × (advance s ≡ ok (s.next, t)) × Sees t l × (kind s.next ≡ k)

advance-Took' :
    (b : List Token) (n : Token) (a : List Token) (k : Kind) (l : List Kind)
    → let s : ParserState = record { before = b; next = n; after = a } in
      Sees s (k ∷ l) → is_at_end s ≡ false → 1 ≤ length l → Took s k l
unfolding advance forward
advance-Took' b n [] k l h e p = absurd (omega (arith, p, ap length (ap rest_of h)))
advance-Took' b n (t ∷ ts) k l h e p = (
  record { before = n ∷ b; next = t; after = ts },
  rw e refl,
  ap rest_of h,
  ap (kind_at_front k) h,
)

pub Sees-at_end :
    (s : ParserState) (k : Kind) (l : List Kind)
    → Sees s (k ∷ l)
    → is_at_end s ≡ same_type k.0 TokenType.eof_token
Sees-at_end s k l h = ap (λ t. same_type t TokenType.eof_token) (Sees-type s (k ∷ l) h)

pub advance-Took :
    (s : ParserState) (k : Kind) (l : List Kind)
    → Sees s (k ∷ l)
    → same_type k.0 TokenType.eof_token ≡ false
    → 1 ≤ length l
    → Took s k l
advance-Took s k l h e p = advance-Took' s.before s.next s.after k l h (Sees-at_end s k l h ∙ e) p

-- The test of a token by the kinds that are there.
pub check-Sees :
    (type : TokenType) (s : ParserState) (l : List Kind)
    → Sees s l
    → check type s
      ≡ (not (same_type (type_at 0 l) TokenType.eof_token) && same_type (type_at 0 l) type)
check-Sees type s l h =
    ap (λ t. not (same_type t TokenType.eof_token) && same_type t type) (Sees-type s l h)

-- The next token is of a type, and is not the end of the file.
abbrev pub Is : TokenType → Kind → Type 0
Is type k = (same_type k.0 TokenType.eof_token ≡ false) × (same_type k.0 type ≡ true)

pub check-Is :
    (type : TokenType) (s : ParserState) (k : Kind) (l : List Kind)
    → Sees s (k ∷ l)
    → Is type k
    → check type s ≡ true
check-Is type s k l h (e, i) = check-Sees type s (k ∷ l) h ∙ rw (e, i) refl

pub check-miss :
    (type : TokenType) (s : ParserState) (l : List Kind)
    → Sees s l
    → begins type l ≡ false
    → check type s ≡ false
check-miss type s l h e = check-Sees type s l h ∙ and-miss _ _ e

pub matches-hit :
    (type : TokenType) (s : ParserState) (k : Kind) (l : List Kind)
    → Sees s (k ∷ l)
    → Is type k
    → 1 ≤ length l
    → Yields (matches type s) true l
unfolding matches
matches-hit type s k l h i p =
    let (t, a, g, _) = advance-Took s k l h i.0 p in (t, rw (check-Is type s k l h i, a) refl, g)

pub matches-miss :
    (type : TokenType) (s : ParserState) (l : List Kind)
    → Sees s l
    → begins type l ≡ false
    → Yields (matches type s) false l
unfolding matches
matches-miss type s l h e = (s, rw (check-miss type s l h e) refl, h)

-- A token that is required: it is the next one.
pub consume-Took :
    (type : TokenType) (message : Bytes) (s : ParserState) (k : Kind) (l : List Kind)
    → Sees s (k ∷ l)
    → Is type k
    → 1 ≤ length l
    → (t : ParserState) × (consume type message s ≡ ok (s.next, t)) × Sees t l × (kind s.next ≡ k)
unfolding consume
consume-Took type message s k l h i p =
    let (t, a, g, e) = advance-Took s k l h i.0 p in (t, rw (check-Is type s k l h i, a) refl, g, e)
