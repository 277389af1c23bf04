-- ===== src/Parser/LoopsForward.antt =====
-- The loops of the parser of types go forward, stay between the tokens and end.
use solix.Prelude.{
  ℕ, zero, suc, ◌+◌, ◌<◌, ◌≡◌, refl, Bool, true, false, ◌&&◌, List, [], ◌∷◌, ◌++◌, Bytes, codes,
  arith, length, Bool-cases, inl, inr,
}
use solix.Outcome.{Outcome, ok}
use solix.Lexer.Token.{TokenType, Token}
use solix.Parser.State.{
  ParserState, same_type, is_at_end, check, advance, matches, consume, text_of,
}
use solix.Parser.Types.{
  match_dot, dotted_name, array_brackets, bracket_pair, empty_brackets, array_suffix,
}
use solix.Parser.Forward.{
  Safe, >>=-Safe, Ends, Forward-refl, Forward-trans, check-open, advance-Reads, Matched,
  matches-Matched, Taken, consume-Taken, Advanced, advance-Advanced, Onward, Safe-map, Onward-from,
  text_of-Safe,
}

pub and-left : (b c : Bool) → (b && c) ≡ true → b ≡ true
and-left true c h = refl
and-left false c h = absurd (cc)

match_dot-Matched : (s : ParserState) → Ends s.next s.after → Safe (Matched s) (match_dot s)
match_dot-Matched s e =
    >>=-Safe (Matched s) (Matched s) (matches TokenType.punctuation_dot s) _
      (matches-Matched TokenType.punctuation_dot s e)
      (λ r (f, g). elim (Bool-cases r.0) [
        | inl k ↦ rw k (f, λ _. g k)
        | inr k ↦ rw k (
            Safe-map (Matched r.1) (Matched s) (matches TokenType.punctuation_double_colon r.1)
              (matches-Matched TokenType.punctuation_double_colon r.1 f.ends)
              (λ a (f', g'). (Forward-trans f f', λ h. omega (arith, f.up, g' h))))
      ])

-- A match that leaves less to read.
pub shorter :
    (s : ParserState) (r : Bool × ParserState)
    → Matched s r
    → r.0 ≡ true
    → length r.1.after < length s.after
shorter s r (f, g) h = omega (arith, f.size, g h)

pub dotted_name-Onward :
    (n : ℕ) (name : Bytes) (s : ParserState)
    → Ends s.next s.after
    → length s.after < n
    → Safe (Onward s) (dotted_name n name s)
unfolding dotted_name
dotted_name-Onward zero name s e h = absurd (omega (arith, h))
dotted_name-Onward (suc n) name s e h =
    >>=-Safe (Matched s) (Onward s) (match_dot s) _ (match_dot-Matched s e) (λ r m.
      elim (Bool-cases r.0) [
        | inl k ↦ rw k (
            >>=-Safe (Taken r.1) (Onward s) (consume TokenType.identifier _ r.1) _
              (consume-Taken TokenType.identifier _ r.1 m.0.ends)
              (λ id t.
                >>=-Safe (λ _. Unit) (Onward s) (text_of id.0) _ (text_of-Safe id.0)
                  (λ part _.
                    Onward-from (dotted_name n (name ++ codes "." ++ part) id.1)
                      (Forward-trans m.0 t.forward)
                      (dotted_name-Onward n (name ++ codes "." ++ part) id.1 t.forward.ends
                        (omega (arith, h, shorter s r m k, t.forward.size, t.strict))))))
        | inr k ↦ rw k m.0
      ])

array_brackets-Onward :
    (n depth : ℕ) (s : ParserState)
    → Ends s.next s.after
    → length s.after < n
    → Safe (Onward s) (array_brackets n depth s)
unfolding array_brackets
array_brackets-Onward zero depth s e h = absurd (omega (arith, h))
array_brackets-Onward (suc n) depth s e h =
    >>=-Safe (Matched s) (Onward s) (matches TokenType.punctuation_array_brackets s) _
      (matches-Matched TokenType.punctuation_array_brackets s e)
      (λ r m. elim (Bool-cases r.0) [
        | inl k ↦ rw k (
            Onward-from (array_brackets n (depth + 1) r.1) m.0 (
              array_brackets-Onward n (depth + 1) r.1 m.0.ends (omega (arith, h, shorter s r m k))))
        | inr k ↦ rw k m.0
      ])

pair-Safe :
    (past : Outcome Bool) (n : Token) (a : List Token)
    → same_type n.type TokenType.eof_token ≡ false
    → Ends n a
    → Safe
        (λ p. p ≡ true → same_type n.type TokenType.eof_token ≡ false)
        (elim a [ [] ↦ past | t ∷ _ ↦ ok (same_type t.type TokenType.punctuation_close_bracket) ])
pair-Safe past n [] k e = absurd (cc)
pair-Safe past n (t ∷ ts) k e = λ _. k

-- Between its tokens the test for `[` and `]` never looks past them.
bracket_pair-Safe' :
    (past : Outcome Bool) (b : List Token) (n : Token) (a : List Token)
    → let s : ParserState = record { before = b; next = n; after = a } in
      Ends n a → Safe (λ p. p ≡ true → is_at_end s ≡ false) (bracket_pair past s)
bracket_pair-Safe' past b n a e =
    let s : ParserState = record { before = b; next = n; after = a } in
    elim (Bool-cases (check TokenType.punctuation_open_bracket s)) [
      | inl k ↦ rw k (pair-Safe past n a (check-open TokenType.punctuation_open_bracket s k) e)
      | inr k ↦ rw k (λ h. absurd (cc))
    ]

bracket_pair-Safe :
    (past : Outcome Bool) (s : ParserState)
    → Ends s.next s.after
    → Safe (λ p. p ≡ true → is_at_end s ≡ false) (bracket_pair past s)
bracket_pair-Safe past s e = bracket_pair-Safe' past s.before s.next s.after e

empty_brackets-Onward :
    (past : Outcome Bool) (n depth : ℕ) (s : ParserState)
    → Ends s.next s.after
    → length s.after < n
    → Safe (Onward s) (empty_brackets past n depth s)
unfolding empty_brackets
empty_brackets-Onward past zero depth s e h = absurd (omega (arith, h))
empty_brackets-Onward past (suc n) depth s e h =
    >>=-Safe (λ p. p ≡ true → is_at_end s ≡ false) (Onward s) (bracket_pair past s) _
      (bracket_pair-Safe past s e)
      (λ p k. elim (Bool-cases p) [
        | inl b ↦
            let (t, a, r) = advance-Reads s e (k b) in
            rw (b, a)
              (>>=-Safe (Advanced t) (Onward s) (advance t) _
                (advance-Advanced t r.forward.ends (λ _. omega (arith, r.strict)))
                (λ u (f, _).
                  Onward-from (empty_brackets past n (depth + 1) u.1) (Forward-trans r.forward f) (
                    empty_brackets-Onward past n (depth + 1) u.1 f.ends
                      (omega (arith, h, r.forward.size, r.strict, f.size, f.up)))))
        | inr b ↦ rw b (Forward-refl s e)
      ])

pub array_suffix-Onward :
    (past : Outcome Bool) (depth : ℕ) (s : ParserState)
    → Ends s.next s.after
    → Safe (Onward s) (array_suffix past depth s)
array_suffix-Onward past depth s e =
    >>=-Safe (Onward s) (Onward s) (array_brackets (suc (length s.after)) depth s) _
      (array_brackets-Onward (suc (length s.after)) depth s e (omega arith))
      (λ r f.
        Onward-from (empty_brackets past (suc (length r.1.after)) r.0 r.1) f
          (empty_brackets-Onward past (suc (length r.1.after)) r.0 r.1 f.ends (omega arith)))
