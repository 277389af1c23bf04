-- ===== src/Parser/Forward.antt =====
-- Where the primitives of `ParserState` leave the parser.
use solix.Prelude.{
  ◌+◌, ◌≤◌, ◌<◌, ◌≡◌, refl, sym, subst, ◌∙◌, Bool, true, false, ◌&&◌, not, List, [], ◌∷◌, Bytes,
  arith, length, Bool-cases, inl, inr,
}
use solix.Outcome.{Outcome, ok, throw, undefined, out_of_fuel, bad_variant_access, ◌>>=◌}
use solix.Lexer.Token.{TokenType, Value, Token, text}
use solix.Parser.State.{
  ParserState, same_type, is_at_end, check, forward, advance, matches, consume, previous, text_of,
}

-- The result is a value with a property or an exception: no access out of bounds, enough fuel.
abbrev pub Safe {ℓ} : {A : Type ℓ} → (A → Type 0) → Outcome A → Type 0
Safe P (ok a) = P a
Safe P (throw e) = Unit
Safe P undefined = ⊥
Safe P out_of_fuel = ⊥

pub >>=-Safe {ℓ κ} :
    {A : Type ℓ} {B : Type κ} (P : A → Type 0) (Q : B → Type 0) (m : Outcome A) (f : A → Outcome B)
    → Safe P m
    → ((a : A) → P a → Safe Q (f a))
    → Safe Q (m >>= f)
>>=-Safe P Q (ok a) f h k = k a h
>>=-Safe P Q (throw e) f h k = tt
>>=-Safe P Q undefined f h k = absurd h
>>=-Safe P Q out_of_fuel f h k = absurd h

-- The last token is the end of the file.
abbrev pub Ends : Token → List Token → Type 0
Ends t [] = same_type t.type TokenType.eof_token ≡ true
Ends t (u ∷ us) = Ends u us

-- All tokens, from those that have been read.
abbrev pub rewind : List Token → List Token → List Token
rewind [] ts = ts
rewind (b ∷ bs) ts = rewind bs (b ∷ ts)

-- The parser is at `t` after it was at `s`, between the same tokens.
pub record Forward (s t : ParserState) : Type 0 where
  pub ends : Ends t.next t.after
  pub up : length s.before ≤ length t.before
  pub kept : rewind t.before (t.next ∷ t.after) ≡ rewind s.before (s.next ∷ s.after)
  pub size : length t.before + length t.after ≡ length s.before + length s.after

pub Forward-refl : (s : ParserState) → Ends s.next s.after → Forward s s
Forward-refl s e = record { ends = e; up = omega arith; kept = refl; size = refl }

pub Forward-trans : {s t u : ParserState} → Forward s t → Forward t u → Forward s u
Forward-trans f g = record {
  ends = g.ends;
  up = omega (arith, f.up, g.up);
  kept = g.kept ∙ f.kept;
  size = g.size ∙ f.size;
}

-- A token that is not the last one is read.
pub record Reads (s t : ParserState) : Type 0 where
  pub forward : Forward s t
  pub strict : length s.before < length t.before

advance-Reads' :
    (b : List Token) (n : Token) (a : List Token)
    → let s : ParserState = record { before = b; next = n; after = a } in
      Ends n a → is_at_end s ≡ false → (t : ParserState) × (advance s ≡ ok (n, t)) × Reads s t
unfolding forward advance
advance-Reads' b n [] e h = absurd (cc)
advance-Reads' b n (t ∷ ts) e h = (
  record { before = n ∷ b; next = t; after = ts },
  rw h refl,
  record {
    forward = record { ends = e; up = omega arith; kept = refl; size = omega arith };
    strict = omega arith;
  },
)

-- `advance()` reads the next token where there is one.
pub advance-Reads :
    (s : ParserState)
    → Ends s.next s.after
    → is_at_end s ≡ false
    → (t : ParserState) × (advance s ≡ ok (s.next, t)) × Reads s t
advance-Reads s e h = advance-Reads' s.before s.next s.after e h

not-and : (b c : Bool) → (not b && c) ≡ true → b ≡ false
not-and true c h = absurd (cc)
not-and false c h = refl

pub check-open : (type : TokenType) (s : ParserState) → check type s ≡ true → is_at_end s ≡ false
check-open type s h = not-and (is_at_end s) _ h

-- Whether a token is taken, and then that it is.
abbrev pub Matched : ParserState → Bool × ParserState → Type 0
Matched s r = Forward s r.1 × (r.0 ≡ true → length s.before < length r.1.before)

pub matches-Matched :
    (type : TokenType) (s : ParserState) → Ends s.next s.after → Safe (Matched s) (matches type s)
unfolding matches
matches-Matched type s e = elim (Bool-cases (check type s)) [
  | inl c ↦
      let (t, a, r) = advance-Reads s e (check-open type s c) in
      rw (c, a) (r.forward, λ _. r.strict)
  | inr c ↦ rw c (Forward-refl s e, λ h. absurd (cc))
]

-- What reads a token on its way.
abbrev pub Taken {ℓ} : {A : Type ℓ} → ParserState → A × ParserState → Type 0
Taken s r = Reads s r.1

pub consume-Taken :
    (type : TokenType) (message : Bytes) (s : ParserState)
    → Ends s.next s.after
    → Safe (Taken s) (consume type message s)
unfolding consume
consume-Taken type message s e = elim (Bool-cases (check type s)) [
  | inl c ↦ let (t, a, r) = advance-Reads s e (check-open type s c) in rw (c, a) r
  | inr c ↦ rw c tt
]

-- `advance()` where a token has been read or is there.
abbrev pub Advanced {ℓ} : {A : Type ℓ} → ParserState → A × ParserState → Type 0
Advanced s r = Forward s r.1 × (0 < length r.1.before)

previous-Advanced :
    (b : List Token) (n : Token) (a : List Token)
    → let s : ParserState = record { before = b; next = n; after = a } in
      Ends n a → 0 < length b → Safe (Advanced s) (do t ← previous s; ok (t, s))
previous-Advanced [] n a e h = absurd (omega (arith, h))
previous-Advanced (t ∷ b) n a e h = (Forward-refl _ e, h)

advance-end : (s : ParserState) → is_at_end s ≡ true → advance s ≡ (do t ← previous s; ok (t, s))
unfolding advance
advance-end s h = rw h refl

pub advance-Advanced :
    (s : ParserState)
    → Ends s.next s.after
    → (is_at_end s ≡ true → 0 < length s.before)
    → Safe (Advanced s) (advance s)
advance-Advanced s e h = elim (Bool-cases (is_at_end s)) [
  | inl k ↦
      subst (Safe (Advanced s)) (sym (advance-end s k))
        (previous-Advanced s.before s.next s.after e (h k))
  | inr k ↦ let (t, a, r) = advance-Reads s e k in rw a (r.forward, omega (arith, r.strict))
]

-- What keeps the parser between its tokens.
abbrev pub Onward {ℓ} : {A : Type ℓ} → ParserState → A × ParserState → Type 0
Onward s r = Forward s r.1

pub Safe-map {ℓ} :
    {A : Type ℓ} (P Q : A → Type 0) (m : Outcome A) → Safe P m → ((a : A) → P a → Q a) → Safe Q m
Safe-map P Q (ok a) h k = k a h
Safe-map P Q (throw e) h k = tt
Safe-map P Q undefined h k = absurd h
Safe-map P Q out_of_fuel h k = absurd h

pub Onward-from {ℓ} :
    {A : Type ℓ} {s t : ParserState} (m : Outcome (A × ParserState))
    → Forward s t
    → Safe (Onward t) m
    → Safe (Onward s) m
Onward-from {s = s} {t = t} m f h = Safe-map (Onward t) (Onward s) m h (λ a g. Forward-trans f g)

text_of-Safe' :
    (v : Value) → Safe (λ _. Unit) (elim v [ text b ↦ ok b | _ ↦ throw bad_variant_access ])
text_of-Safe' (Value.int64 n) = tt
text_of-Safe' (Value.double n) = tt
text_of-Safe' (Value.text b) = tt
text_of-Safe' Value.nullptr = tt

pub text_of-Safe : (t : Token) → Safe (λ _. Unit) (text_of t)
text_of-Safe t = text_of-Safe' t.value
