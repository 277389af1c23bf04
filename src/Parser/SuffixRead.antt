-- ===== src/Parser/SuffixRead.antt =====
-- The loops over brackets and the test for `(*)`, at tokens of given kinds.
use solix.Prelude.{
  ℕ, zero, suc, ◌+◌, ◌≤◌, ◌≡◌, refl, sym, subst, ◌∙◌, ap, Bool, true, false, ◌&&◌, List, [], ◌∷◌,
  map, arith, length, Bool-cases, inl, inr,
}
use solix.Outcome.{Outcome, ok}
use solix.Lexer.Token.{TokenType, Token}
use solix.Lexer.LexemesRead.{kind}
use solix.Parser.State.{ParserState, ordinal, same_type, check, matches}
use solix.Parser.Types.{
  array_brackets, bracket_pair, empty_brackets, array_suffix, function_pointer_ahead,
}
use solix.Parser.TypeSyntax.{
  Kind, mark, type_at, begins, spell_brackets, spell_pairs, pair_ahead, star_ahead, StopsArray,
}
use solix.Parser.Sees.{
  Sees, Yields, >>=-Yields, Sees-length, advance-Took, check-Is, check-miss, matches-hit,
  matches-miss,
}
use solix.Parser.LoopsRead.{brackets-size, pairs-size}

pub array_brackets-reads :
    (n depth i : ℕ) (r : List Kind) (s : ParserState)
    → Sees s (spell_brackets i r)
    → begins TokenType.punctuation_array_brackets r ≡ false
    → 1 ≤ length r
    → length (spell_brackets i r) ≤ n
    → Yields (array_brackets n depth s) (depth + i) r
unfolding array_brackets ordinal
array_brackets-reads zero depth i r s h e p f = absurd (omega (arith, p, f, brackets-size i r))
array_brackets-reads (suc n) depth zero r s h e p f =
    >>=-Yields (matches TokenType.punctuation_array_brackets s) false r _ (depth + 0) r
      (matches-miss TokenType.punctuation_array_brackets s r h e)
      (λ t g. (t, ap (λ d. ok (d, t)) (omega arith), g))
array_brackets-reads (suc n) depth (suc i) r s h e p f =
    >>=-Yields (matches TokenType.punctuation_array_brackets s) true (spell_brackets i r) _
      (depth + suc i) r
      (matches-hit TokenType.punctuation_array_brackets s _ (spell_brackets i r) h (refl, refl)
        (omega (arith, p, brackets-size i r)))
      (λ t g.
        subst (λ d. Yields (array_brackets n (depth + 1) t) d r) (omega arith)
          (array_brackets-reads n (depth + 1) i r t g e p (omega (arith, f))))

and-right : (b c : Bool) → b ≡ true → (b && c) ≡ false → c ≡ false
and-right true c b h = h
and-right false c b h = absurd (cc)

and-false : (b : Bool) → (b && false) ≡ false
and-false true = refl
and-false false = refl

after-type :
    (past : Outcome Bool) (n : Token) (a : List Token) (l : List Kind)
    → map kind (n ∷ a) ≡ l
    → 2 ≤ length l
    → elim a [ [] ↦ past | t ∷ _ ↦ ok (same_type t.type TokenType.punctuation_close_bracket) ]
      ≡ ok (same_type (type_at 1 l) TokenType.punctuation_close_bracket)
after-type past n [] l h p = absurd (omega (arith, p, ap length h))
after-type past n (t ∷ a) l h p =
    ap (λ x. ok (same_type (type_at 1 x) TokenType.punctuation_close_bracket)) h

bracket_pair-open :
    (past : Outcome Bool) (s : ParserState) (l : List Kind)
    → Sees s l
    → check TokenType.punctuation_open_bracket s ≡ true
    → 2 ≤ length l
    → bracket_pair past s ≡ ok (same_type (type_at 1 l) TokenType.punctuation_close_bracket)
bracket_pair-open past s l h c p = rw c (after-type past s.next s.after l h p)

bracket_pair-hit :
    (past : Outcome Bool) (s : ParserState) (l : List Kind)
    → Sees s
        (mark TokenType.punctuation_open_bracket ∷ mark TokenType.punctuation_close_bracket ∷ l)
    → bracket_pair past s ≡ ok true
unfolding ordinal
bracket_pair-hit past s l h =
    bracket_pair-open past s _ h (check-Is TokenType.punctuation_open_bracket s _ _ h (refl, refl))
      (omega arith)

bracket_pair-miss :
    (past : Outcome Bool) (s : ParserState) (l : List Kind)
    → Sees s l
    → pair_ahead l ≡ false
    → (begins TokenType.punctuation_open_bracket l ≡ true → 2 ≤ length l)
    → bracket_pair past s ≡ ok false
bracket_pair-miss past s l h e k = elim (Bool-cases (begins TokenType.punctuation_open_bracket l)) [
  | inr b ↦ rw (check-miss TokenType.punctuation_open_bracket s l h b) refl
  | inl b ↦
      let close =
        and-right (begins TokenType.punctuation_open_bracket l)
          (same_type (type_at 1 l) TokenType.punctuation_close_bracket) b e in
      elim (Bool-cases (check TokenType.punctuation_open_bracket s)) [
        | inr c ↦ rw c refl
        | inl c ↦ bracket_pair-open past s l h c (k b) ∙ ap ok close
      ]
]

empty_brackets-reads :
    (past : Outcome Bool) (n depth j : ℕ) (r : List Kind) (s : ParserState)
    → Sees s (spell_pairs j r)
    → StopsArray r
    → length (spell_pairs j r) ≤ n
    → Yields (empty_brackets past n depth s) (depth + j) r
unfolding empty_brackets ordinal
empty_brackets-reads past zero depth j r s h e f =
    absurd (omega (arith, e.present, f, pairs-size j r))
empty_brackets-reads past (suc n) depth zero r s h e f =
    rw (bracket_pair-miss past s r h e.pair e.behind) (s, ap (λ d. ok (d, s)) (omega arith), h)
empty_brackets-reads past (suc n) depth (suc j) r s h e f =
    let l = spell_pairs j r in
    let full : 1 ≤ length l = omega (arith, e.present, pairs-size j r) in
    let (t, a, g, _) =
      advance-Took s _ (mark TokenType.punctuation_close_bracket ∷ l) h refl (omega arith) in
    let (u, b, i, _) = advance-Took t _ l g refl full in
    rw (bracket_pair-hit past s l h, a, b)
      (subst (λ d. Yields (empty_brackets past n (depth + 1) u) d r) (omega arith)
        (empty_brackets-reads past n (depth + 1) j r u i e (omega (arith, f))))

pairs-brackets :
    (j : ℕ) (r : List Kind)
    → StopsArray r
    → begins TokenType.punctuation_array_brackets (spell_pairs j r) ≡ false
unfolding ordinal
pairs-brackets zero r e = e.brackets
pairs-brackets (suc j) r e = refl

pub array_suffix-reads :
    (past : Outcome Bool) (depth i j : ℕ) (r : List Kind) (s : ParserState)
    → Sees s (spell_brackets i (spell_pairs j r))
    → StopsArray r
    → Yields (array_suffix past depth s) (depth + (i + j)) r
array_suffix-reads past depth i j r s h e =
    >>=-Yields (array_brackets (suc (length s.after)) depth s) (depth + i) (spell_pairs j r) _
      (depth + (i + j)) r
      (array_brackets-reads (suc (length s.after)) depth i (spell_pairs j r) s h
        (pairs-brackets j r e) (omega (arith, e.present, pairs-size j r))
        (omega (arith, Sees-length s _ h)))
      (λ t g.
        subst (λ d. Yields (empty_brackets past (suc (length t.after)) (depth + i) t) d r)
          (omega arith)
          (empty_brackets-reads past (suc (length t.after)) (depth + i) j r t g e
            (omega (arith, Sees-length t _ g))))

abbrev star_test : List Kind → Bool
star_test l =
    same_type (type_at 1 l) TokenType.operator_multiply
    && same_type (type_at 2 l) TokenType.punctuation_close_paren

-- The test for `(*)` by the kinds that are there.
ahead-test :
    (b : List Token) (n : Token) (a : List Token)
    → let s : ParserState = record { before = b; next = n; after = a } in
      function_pointer_ahead s
      ≡ (check TokenType.punctuation_open_paren s && star_test (map kind (n ∷ a)))
unfolding ordinal
ahead-test b n [] = refl
ahead-test b n (t ∷ []) =
    let s : ParserState = record { before = b; next = n; after = t ∷ [] } in
    ap (λ x. check TokenType.punctuation_open_paren s && x)
      (sym (and-false (same_type t.type TokenType.operator_multiply)))
ahead-test b n (t ∷ u ∷ a) = refl

ahead-Sees :
    (s : ParserState) (l : List Kind)
    → Sees s l
    → function_pointer_ahead s ≡ (check TokenType.punctuation_open_paren s && star_test l)
ahead-Sees s l h =
    ahead-test s.before s.next s.after
    ∙ ap (λ x. check TokenType.punctuation_open_paren s && star_test x) h

pub ahead-hit :
    (s : ParserState) (l : List Kind)
    → Sees s (
        mark TokenType.punctuation_open_paren
        ∷ mark TokenType.operator_multiply
        ∷ mark TokenType.punctuation_close_paren
        ∷ l)
    → function_pointer_ahead s ≡ true
unfolding ordinal
ahead-hit s l h =
    ahead-Sees s _ h
    ∙ ap (λ c. c && true) (check-Is TokenType.punctuation_open_paren s _ _ h (refl, refl))

pub ahead-miss :
    (s : ParserState) (l : List Kind)
    → Sees s l
    → star_ahead l ≡ false
    → function_pointer_ahead s ≡ false
ahead-miss s l h e =
    let paren = begins TokenType.punctuation_open_paren l in
    elim (Bool-cases paren) [
      | inr b ↦
          ahead-Sees s l h
          ∙ ap (λ c. c && star_test l) (check-miss TokenType.punctuation_open_paren s l h b)
      | inl b ↦
          ahead-Sees s l h
          ∙ ap (λ x. check TokenType.punctuation_open_paren s && x)
              (and-right paren (star_test l) b e)
          ∙ and-false (check TokenType.punctuation_open_paren s)
    ]
