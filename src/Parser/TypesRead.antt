-- ===== src/Parser/TypesRead.antt =====
-- The parser of types reads back what the grammar of `TypeSyntax` writes.
use solix.Prelude.{
  ℕ, zero, suc, ◌+◌, ◌≤◌, ◌≡◌, refl, subst, ◌∙◌, ap, Bool, true, false, List, ◌∷◌, Bytes, codes,
  arith, length,
}
use solix.Outcome.{ok, undefined}
use solix.Lexer.Token.{TokenType, text}
use solix.Parser.State.{ParserState, ordinal, same_type, advance, matches}
use solix.Parser.TypeInfo.{TypeInfo, TypeList, nil, cons}
use solix.Parser.Types.{
  dotted_name, array_suffix, Parse, comma_types, template_arguments, function_parameters,
  function_pointers, function_pointer, type_base, type_body, parse_type, parse_type_info,
  is_primitive, primitive_name,
}
use solix.Parser.TypeSyntax.{
  Kind, mark, type_at, begins, Primitive, primitive_type, Syntax, syntax, Base, primitive, tuple,
  named, Arguments, More, last, more, Functions, plain, function, spell_parts, spell_brackets,
  spell_pairs, spell, spell_base, spell_arguments, spell_more, spell_parameters, spell_functions,
  dot_ahead, dotted, array_of, meaning, base_meaning, arguments_meaning, more_meaning,
  functions_meaning, name_ahead, pair_ahead, star_ahead, StopsArray, Stops,
}
use solix.Parser.TypeSyntax
use solix.Parser.Sees.{
  Sees, Yields, >>=-Yields, Sees-length, advance-Took, check-Is, check-miss, matches-hit,
  matches-miss, consume-Took,
}
use solix.Parser.LoopsRead.{parts-size, brackets-size, pairs-size, dotted_name-reads, text_of-kind}
use solix.Parser.SuffixRead.{array_suffix-reads, ahead-hit, ahead-miss}
use solix.Parser.Spelled.{
  greater-Stops, paren-Stops, comma-Stops, functions-StopsArray, suffix-name, primitive-is,
  primitive-open, name-less, arguments-dot, spell-head, spell-size, base-size, arguments-size,
  parameters-size, functions-size,
}

-- A parser that reads the types of up to `b` tokens with what follows.
abbrev ReadsTypes : Parse → ℕ → Type 0
ReadsTypes parse b =
    (x : Syntax) (r : List Kind) (s : ParserState)
    → Sees s (spell x r)
    → Stops r
    → length (spell x r) ≤ b
    → Yields (parse s) (meaning x) r

list-reads :
    (parse : Parse) (b : ℕ) (reads : ReadsTypes parse b) (n : ℕ) (x : Syntax) (m : More)
    (r : List Kind) (s : ParserState)
    → Sees s (spell x (spell_more m r))
    → Stops r
    → begins TokenType.punctuation_comma r ≡ false
    → length (spell x (spell_more m r)) ≤ b
    → length (spell x (spell_more m r)) ≤ n
    → Yields (comma_types parse n s) (cons (meaning x) (more_meaning m)) r
unfolding spell_more more_meaning comma_types ordinal
list-reads parse b reads zero x m r s h e c f n =
    absurd (omega (arith, n, spell-size x (spell_more m r)))
list-reads parse b reads (suc k) x last r s h e c f n =
    >>=-Yields (parse s) (meaning x) r _ (cons (meaning x) nil) r (reads x r s h e f) (λ t g.
      >>=-Yields (matches TokenType.punctuation_comma t) false r _ (cons (meaning x) nil) r
        (matches-miss TokenType.punctuation_comma t r g c) (λ u i. (u, refl, i)))
list-reads parse b reads (suc k) x (more y m) r s h e c f n =
    let r1 = spell y (spell_more m r) in
    let r2 = mark TokenType.punctuation_comma ∷ r1 in
    let all = cons (meaning x) (cons (meaning y) (more_meaning m)) in
    let size = spell-size x r2 in
    >>=-Yields (parse s) (meaning x) r2 _ all r (reads x r2 s h (comma-Stops r1) f) (λ t g.
      >>=-Yields (matches TokenType.punctuation_comma t) true r1 _ all r
        (matches-hit TokenType.punctuation_comma t _ r1 g (refl, refl)
          (omega (arith, spell-size y (spell_more m r))))
        (λ u i.
          >>=-Yields (comma_types parse k u) (cons (meaning y) (more_meaning m)) r _ all r
            (list-reads parse b reads k y m r u i e c (omega (arith, f, size))
              (omega (arith, n, size)))
            (λ v w. (v, refl, w))))

arguments-reads :
    (parse : Parse) (b : ℕ) (reads : ReadsTypes parse b) (a : Arguments) (r : List Kind)
    (s : ParserState)
    → Sees s (spell_arguments a r)
    → begins TokenType.operator_less_than r ≡ false
    → 1 ≤ length r
    → length (spell_arguments a r) ≤ suc b
    → Yields (template_arguments parse s) (arguments_meaning a) r
unfolding spell_arguments arguments_meaning template_arguments ordinal
arguments-reads parse b reads TypeSyntax.none r s h e l f =
    >>=-Yields (matches TokenType.operator_less_than s) false r _ nil r
      (matches-miss TokenType.operator_less_than s r h e) (λ t g. (t, refl, g))
arguments-reads parse b reads (TypeSyntax.some x m) r s h e l f =
    let r1 = mark TokenType.operator_greater_than ∷ r in
    let r2 = spell x (spell_more m r1) in
    let full : 1 ≤ length r2 = omega (arith, spell-size x (spell_more m r1)) in
    >>=-Yields (matches TokenType.operator_less_than s) true r2 _
      (cons (meaning x) (more_meaning m)) r
      (matches-hit TokenType.operator_less_than s _ r2 h (refl, refl) full)
      (λ t g.
        >>=-Yields (comma_types parse (suc (length t.after)) t) (cons (meaning x) (more_meaning m))
          r1 _ (cons (meaning x) (more_meaning m)) r
          (list-reads parse b reads (suc (length t.after)) x m r1 t g (greater-Stops r) refl
            (omega (arith, f)) (omega (arith, Sees-length t r2 g)))
          (λ u k.
            let (v, c, i, _) =
              consume-Took TokenType.operator_greater_than
                (codes "Expected '>' after template arguments") u _ r k (refl, refl) l in
            rw c (v, refl, i)))

base-reads :
    (parse : Parse) (b : ℕ) (reads : ReadsTypes parse b) (base : Base) (r : List Kind)
    (s : ParserState)
    → Sees s (spell_base base r)
    → name_ahead r ≡ false
    → 1 ≤ length r
    → length (spell_base base r) ≤ suc b
    → (t : ParserState) × (advance s ≡ ok (s.next, t))
      × Yields (type_base parse s.next t) (base_meaning base) r
unfolding spell_base base_meaning type_base ordinal
base-reads parse b reads (primitive p) r s h e l f =
    let (t, a, g, k) = advance-Took s (mark (primitive_type p)) r h (primitive-open p) l in
    let is : is_primitive s.next.type ≡ true =
      ap {A = Kind} (λ q. is_primitive q.0) k ∙ primitive-is p in
    let name = ap {A = Kind} (λ q. ok ((primitive_name q.0, nil, false), t)) k in
    (t, a, (t, rw is name, g))
base-reads parse b reads (tuple a) r s h e l f =
    let r1 = spell_arguments a r in
    let (t, o, g, k) =
      advance-Took s (mark TokenType.primitive_tuple) r1 h refl
        (omega (arith, l, arguments-size a r)) in
    let no : is_primitive s.next.type ≡ false = ap {A = Kind} (λ q. is_primitive q.0) k in
    let yes : same_type s.next.type TokenType.primitive_tuple ≡ true =
      ap {A = Kind} (λ q. same_type q.0 TokenType.primitive_tuple) k in
    (
      t,
      o,
      rw (no, yes)
          (>>=-Yields (template_arguments parse t) (arguments_meaning a) r _
            (codes "tuple", arguments_meaning a, true) r
            (arguments-reads parse b reads a r t g (name-less r e) l (omega (arith, f)))
            (λ u i. (u, refl, i))),
    )
base-reads parse b reads (named name parts a) r s h e l f =
    let r1 = spell_arguments a r in
    let r2 = spell_parts parts r1 in
    let size = arguments-size a r in
    let size1 = parts-size parts r1 in
    let (t, o, g, k) =
      advance-Took s (TokenType.identifier, text name) r2 h refl (omega (arith, l, size, size1)) in
    let no : is_primitive s.next.type ≡ false = ap {A = Kind} (λ q. is_primitive q.0) k in
    let other : same_type s.next.type TokenType.primitive_tuple ≡ false =
      ap {A = Kind} (λ q. same_type q.0 TokenType.primitive_tuple) k in
    let yes : same_type s.next.type TokenType.identifier ≡ true =
      ap {A = Kind} (λ q. same_type q.0 TokenType.identifier) k in
    let result : Bytes × TypeList × Bool = (dotted name parts, arguments_meaning a, false) in
    (
      t,
      o,
      rw (no, other, yes, text_of-kind s.next TokenType.identifier name k)
          (>>=-Yields (dotted_name (suc (length t.after)) name t) (dotted name parts) r1 _ result r
            (dotted_name-reads (suc (length t.after)) name parts r1 t g (arguments-dot a r e)
              (omega (arith, l, size)) (omega (arith, Sees-length t r2 g)))
            (λ u i.
              >>=-Yields (template_arguments parse u) (arguments_meaning a) r _ result r
                (arguments-reads parse b reads a r u i (name-less r e) l (omega (arith, f, size1)))
                (λ v w. (v, refl, w)))),
    )

parameters-reads :
    (parse : Parse) (b : ℕ) (reads : ReadsTypes parse b) (p : Arguments) (r : List Kind)
    (s : ParserState)
    → Sees s (spell_parameters p (mark TokenType.punctuation_close_paren ∷ r))
    → length (spell_parameters p (mark TokenType.punctuation_close_paren ∷ r)) ≤ b
    → Yields
        (function_parameters parse s)
        (arguments_meaning p)
        (mark TokenType.punctuation_close_paren ∷ r)
unfolding spell_parameters arguments_meaning function_parameters ordinal
parameters-reads parse b reads TypeSyntax.none r s h f =
    rw (check-Is TokenType.punctuation_close_paren s _ r h (refl, refl)) (s, refl, h)
parameters-reads parse b reads (TypeSyntax.some x m) r s h f =
    let r1 = mark TokenType.punctuation_close_paren ∷ r in
    rw (check-miss TokenType.punctuation_close_paren s _ h (spell-head x (spell_more m r1))) (
      list-reads parse b reads (suc (length s.after)) x m r1 s h (paren-Stops r) refl f
        (omega (arith, Sees-length s _ h)))

functions-reads :
    (parse : Parse) (b : ℕ) (reads : ReadsTypes parse b) (n : ℕ) (fs : Functions) (type : TypeInfo)
    (r : List Kind) (s : ParserState)
    → Sees s (spell_functions fs r)
    → Stops r
    → length (spell_functions fs r) ≤ b
    → length (spell_functions fs r) ≤ n
    → Yields (function_pointers parse n type s) (functions_meaning fs type) r
unfolding spell_functions functions_meaning function_pointers ordinal
functions-reads parse b reads zero fs type r s h e f n =
    absurd (omega (arith, n, e.array.present, functions-size fs r))
functions-reads parse b reads (suc k) plain type r s h e f n =
    rw (ahead-miss s r h e.star) (s, refl, h)
functions-reads parse b reads (suc k) (function p i j fs) type r s h e f n =
    let r1 = spell_functions fs r in
    let r2 = spell_pairs j r1 in
    let r3 = spell_brackets i r2 in
    let r4 = spell_parameters p (mark TokenType.punctuation_close_paren ∷ r3) in
    let size = functions-size fs r in
    let size1 = pairs-size j r1 in
    let size2 = brackets-size i r2 in
    let size3 = parameters-size p (mark TokenType.punctuation_close_paren ∷ r3) in
    let (t, a, t', _) = advance-Took s _ _ h refl (omega arith) in
    let (u, c, u', _) = advance-Took t _ _ t' refl (omega arith) in
    let (v, d, v', _) = advance-Took u _ _ u' refl (omega arith) in
    let (w, o, w', _) =
      consume-Took TokenType.punctuation_open_paren
        (codes "Expected '(' for function pointer parameters") v _ r4 v' (refl, refl)
        (omega (arith, size3)) in
    let result = functions_meaning fs (function_pointer type (arguments_meaning p) (i + j)) in
    rw (ahead-hit s _ h, a, c, d, o)
      (>>=-Yields (function_parameters parse w) (arguments_meaning p)
        (mark TokenType.punctuation_close_paren ∷ r3) _ result r
        (parameters-reads parse b reads p r3 w w' (omega (arith, f)))
        (λ x x'.
          let (y, q, y', _) =
            consume-Took TokenType.punctuation_close_paren
              (codes "Expected ')' after function pointer parameters") x _ r3 x' (refl, refl)
              (omega (arith, e.array.present, size, size1, size2)) in
          rw q (
            >>=-Yields (array_suffix (ok false) 0 y) (i + j) r1 _ result r
              (subst (λ depth. Yields (array_suffix (ok false) 0 y) depth r1) (omega arith)
                (array_suffix-reads (ok false) 0 i j r1 y y' (functions-StopsArray fs r e)))
              (λ z z'.
                functions-reads parse b reads k fs
                  (function_pointer type (arguments_meaning p) (i + j)) r z z' e
                  (omega (arith, f, size1, size2, size3))
                  (omega (arith, n, size1, size2, size3))))))

syntax-reads :
    (fuel : ℕ) (x : Syntax) (r : List Kind) (s : ParserState)
    → Sees s (spell x r)
    → Stops r
    → length (spell x r) ≤ fuel
    → Yields (parse_type fuel s) (meaning x) r
unfolding spell meaning parse_type type_body
syntax-reads zero x r s h e f = absurd (omega (arith, f, spell-size x r))
syntax-reads (suc fuel) (syntax b i j fs) r s h e f =
    let r1 = spell_functions fs r in
    let r2 = spell_pairs j r1 in
    let r3 = spell_brackets i r2 in
    let size = functions-size fs r in
    let size1 = pairs-size j r1 in
    let size2 = brackets-size i r2 in
    let size3 = base-size b r3 in
    let (t, a, (u, d, g)) =
      base-reads (parse_type fuel) fuel (syntax-reads fuel) b r3 s h (suffix-name i j fs r e)
        (omega (arith, e.array.present, size, size1, size2)) f in
    rw (a, d)
      (>>=-Yields (array_suffix undefined 0 u) (i + j) r1 _
        (functions_meaning fs (array_of (base_meaning b) (i + j))) r
        (subst (λ n. Yields (array_suffix undefined 0 u) n r1) (omega arith)
          (array_suffix-reads undefined 0 i j r1 u g (functions-StopsArray fs r e)))
        (λ v k.
          functions-reads (parse_type fuel) fuel (syntax-reads fuel) (suc (length v.after)) fs
            (array_of (base_meaning b) (i + j)) r v k e (omega (arith, f, size1, size2, size3))
            (omega (arith, Sees-length v r1 k))))

-- At the tokens of a type as the grammar of types writes it, with a dotted name, nested arguments,
-- tuples, brackets as one token or two, and suffixes of function pointers, the parser of types
-- returns that type and stops behind it, where the tokens that follow do not continue a type.
pub parse_type_info-spell :
    (x : Syntax) (r : List Kind) (s : ParserState)
    → Sees s (spell x r)
    → Stops r
    → Yields (parse_type_info s) (meaning x) r
unfolding parse_type_info
parse_type_info-spell x r s h e =
    syntax-reads (suc (suc (length s.after))) x r s h e (omega (arith, Sees-length s (spell x r) h))
