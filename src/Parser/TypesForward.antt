-- ===== src/Parser/TypesForward.antt =====
-- The parser of types goes forward, stays between its tokens and ends.
use solix.Prelude.{
  ℕ, zero, suc, ◌≤◌, ◌<◌, ◌≡◌, true, false, codes, arith, length, Bool-cases, inl, inr,
}
use solix.Outcome.{Outcome, ok, undefined, ◌>>=◌}
use solix.Lexer.Token.{TokenType, Token}
use solix.Parser.State.{
  ParserState, same_type, is_at_end, check, advance, matches, consume, text_of,
}
use solix.Parser.TypeInfo.{TypeInfo, type_info, nil, null}
use solix.Parser.Types.{
  dotted_name, array_suffix, Parse, comma_types, template_arguments, function_parameters,
  function_pointers, function_pointer, function_pointer_ahead, type_base, type_body, parse_type,
  parse_type_info, is_primitive,
}
use solix.Parser.Forward.{
  Safe, >>=-Safe, Ends, Forward-refl, Forward-trans, check-open, advance-Reads, Matched,
  matches-Matched, Taken, consume-Taken, Advanced, advance-Advanced, Onward, Onward-from,
  text_of-Safe,
}
use solix.Parser.LoopsForward.{and-left, shorter, dotted_name-Onward, array_suffix-Onward}

-- A parser that goes forward wherever fewer than `b` tokens are left behind the next one.
abbrev Fits : Parse → ℕ → Type 0
Fits parse b =
    (s : ParserState)
    → Ends s.next s.after
    → 0 < length s.before
    → length s.after < b
    → Safe (Onward s) (parse s)

comma_types-Onward :
    (parse : Parse) (b n : ℕ) (s : ParserState)
    → Fits parse b
    → Ends s.next s.after
    → 0 < length s.before
    → length s.after < b
    → length s.after < n
    → Safe (Onward s) (comma_types parse n s)
unfolding comma_types
comma_types-Onward parse b zero s p e z l h = absurd (omega (arith, h))
comma_types-Onward parse b (suc n) s p e z l h =
    >>=-Safe (Onward s) (Onward s) (parse s) _ (p s e z l) (λ t f.
      >>=-Safe (Matched t.1) (Onward s) (matches TokenType.punctuation_comma t.1) _
        (matches-Matched TokenType.punctuation_comma t.1 f.ends)
        (λ r m.
          let g = Forward-trans f m.0 in
          elim (Bool-cases r.0) [
            | inl k ↦
                let less = shorter t.1 r m k in
                rw k (
                  >>=-Safe (Onward r.1) (Onward s) (comma_types parse n r.1) _
                    (comma_types-Onward parse b n r.1 p m.0.ends (omega (arith, z, g.up))
                      (omega (arith, l, less, f.size, f.up)) (omega (arith, h, less, f.size, f.up)))
                    (λ ts i. Forward-trans g i))
            | inr k ↦ rw k g
          ]))

template_arguments-Onward :
    (parse : Parse) (s : ParserState)
    → Fits parse (length s.after)
    → Ends s.next s.after
    → Safe (Onward s) (template_arguments parse s)
unfolding template_arguments
template_arguments-Onward parse s p e =
    >>=-Safe (Matched s) (Onward s) (matches TokenType.operator_less_than s) _
      (matches-Matched TokenType.operator_less_than s e)
      (λ r m. elim (Bool-cases r.0) [
        | inl k ↦ rw k (
            >>=-Safe (Onward r.1) (Onward s) (comma_types parse (suc (length r.1.after)) r.1) _
              (comma_types-Onward parse (length s.after) (suc (length r.1.after)) r.1 p m.0.ends
                (omega (arith, m.1 k)) (shorter s r m k) (omega arith))
              (λ ts f.
                >>=-Safe (Taken ts.1) (Onward s) (consume TokenType.operator_greater_than _ ts.1) _
                  (consume-Taken TokenType.operator_greater_than _ ts.1 f.ends)
                  (λ c t. Forward-trans m.0 (Forward-trans f t.forward))))
        | inr k ↦ rw k m.0
      ])

function_parameters-Onward :
    (parse : Parse) (b : ℕ) (s : ParserState)
    → Fits parse b
    → Ends s.next s.after
    → 0 < length s.before
    → length s.after < b
    → Safe (Onward s) (function_parameters parse s)
unfolding function_parameters
function_parameters-Onward parse b s p e z l =
    elim (Bool-cases (check TokenType.punctuation_close_paren s)) [
      | inl k ↦ rw k (Forward-refl s e)
      | inr k ↦ rw k (comma_types-Onward parse b (suc (length s.after)) s p e z l (omega arith))
    ]

-- Behind `(*)`.
abbrev function_rest : Parse → ℕ → TypeInfo → ParserState → Outcome (TypeInfo × ParserState)
function_rest parse n type s = do
  paren ←
      consume TokenType.punctuation_open_paren
        (codes "Expected '(' for function pointer parameters") s
  params ← function_parameters parse paren.1
  close ←
      consume TokenType.punctuation_close_paren
        (codes "Expected ')' after function pointer parameters") params.1
  depth ← array_suffix (ok false) 0 close.1
  function_pointers parse n (function_pointer type params.0 depth.0) depth.1

-- A call of the loop goes forward from states behind `s`.
abbrev Continues : Parse → ℕ → ParserState → Type 0
Continues parse n s =
    (type : TypeInfo) (t : ParserState)
    → Ends t.next t.after
    → length t.after ≤ length s.after
    → Safe (Onward t) (function_pointers parse n type t)

function_rest-Onward :
    (parse : Parse) (b n : ℕ) (type : TypeInfo) (s : ParserState)
    → Fits parse b
    → Ends s.next s.after
    → 0 < length s.before
    → length s.after < b
    → Continues parse n s
    → Safe (Onward s) (function_rest parse n type s)
function_rest-Onward parse b n type s p e z l k =
    >>=-Safe (Taken s) (Onward s) (consume TokenType.punctuation_open_paren _ s) _
      (consume-Taken TokenType.punctuation_open_paren _ s e)
      (λ paren r.
        >>=-Safe (Onward paren.1) (Onward s) (function_parameters parse paren.1) _
          (function_parameters-Onward parse b paren.1 p r.forward.ends (omega (arith, r.strict))
            (omega (arith, l, r.forward.size, r.forward.up)))
          (λ params f.
            >>=-Safe (Taken params.1) (Onward s)
              (consume TokenType.punctuation_close_paren _ params.1) _
              (consume-Taken TokenType.punctuation_close_paren _ params.1 f.ends)
              (λ close t.
                >>=-Safe (Onward close.1) (Onward s) (array_suffix (ok false) 0 close.1) _
                  (array_suffix-Onward (ok false) 0 close.1 t.forward.ends)
                  (λ depth g.
                    let i = Forward-trans r.forward (Forward-trans f (Forward-trans t.forward g)) in
                    let new = function_pointer type params.0 depth.0 in
                    Onward-from (function_pointers parse n new depth.1) i
                      (k new depth.1 i.ends (omega (arith, i.size, i.up)))))))

ahead-open : (s : ParserState) → function_pointer_ahead s ≡ true → is_at_end s ≡ false
ahead-open s h = check-open TokenType.punctuation_open_paren s (and-left _ _ h)

function_pointers-Onward :
    (parse : Parse) (b n : ℕ) (type : TypeInfo) (s : ParserState)
    → Fits parse b
    → Ends s.next s.after
    → length s.after ≤ b
    → length s.after < n
    → Safe (Onward s) (function_pointers parse n type s)
unfolding function_pointers
function_pointers-Onward parse b zero type s p e l h = absurd (omega (arith, h))
function_pointers-Onward parse b (suc n) type s p e l h =
    elim (Bool-cases (function_pointer_ahead s)) [
      | inr k ↦ rw k (Forward-refl s e)
      | inl k ↦
          let (t, a, r) = advance-Reads s e (ahead-open s k) in
          rw (k, a)
            (>>=-Safe (Advanced t) (Onward s) (advance t) _
              (advance-Advanced t r.forward.ends (λ _. omega (arith, r.strict)))
              (λ u (f, z).
                >>=-Safe (Advanced u.1) (Onward s) (advance u.1) _
                  (advance-Advanced u.1 f.ends (λ _. z))
                  (λ v (g, y).
                    let i = Forward-trans r.forward (Forward-trans f g) in
                    let less : length v.1.after < length s.after =
                      omega (arith, r.forward.size, r.strict, f.size, f.up, g.size, g.up) in
                    Onward-from (function_rest parse n type v.1) i (
                      function_rest-Onward parse b n type v.1 p g.ends y (omega (arith, l, less))
                        (λ new w c o.
                          function_pointers-Onward parse b n new w p c (omega (arith, l, less, o))
                            (omega (arith, h, less, o)))))))
    ]

type_base-Onward :
    (parse : Parse) (t : Token) (s : ParserState)
    → Fits parse (length s.after)
    → Ends s.next s.after
    → Safe (Onward s) (type_base parse t s)
unfolding type_base
type_base-Onward parse t s p e = elim (Bool-cases (is_primitive t.type)) [
  | inl k ↦ rw k (Forward-refl s e)
  | inr k ↦ elim (Bool-cases (same_type t.type TokenType.primitive_tuple)) [
    | inl l ↦
        rw (k, l)
          (>>=-Safe (Onward s) (Onward s) (template_arguments parse s) _
            (template_arguments-Onward parse s p e) (λ a f. f))
    | inr l ↦ elim (Bool-cases (same_type t.type TokenType.identifier)) [
      | inr m ↦ rw (k, l, m) tt
      | inl m ↦
          rw (k, l, m)
            (>>=-Safe (λ _. Unit) (Onward s) (text_of t) _ (text_of-Safe t)
              (λ first _.
                >>=-Safe (Onward s) (Onward s) (dotted_name (suc (length s.after)) first s) _
                  (dotted_name-Onward (suc (length s.after)) first s e (omega arith))
                  (λ name f.
                    >>=-Safe (Onward name.1) (Onward s) (template_arguments parse name.1) _
                      (template_arguments-Onward parse name.1
                        (λ u c z o. p u c z (omega (arith, o, f.size, f.up))) f.ends)
                      (λ args g. Forward-trans f g))))
    ]
  ]
]

type_body-Onward :
    (parse : Parse) (s : ParserState)
    → Fits parse (length s.after)
    → Ends s.next s.after
    → (is_at_end s ≡ true → 0 < length s.before)
    → Safe (Onward s) (type_body parse s)
unfolding type_body
type_body-Onward parse s p e h =
    >>=-Safe (Advanced s) (Onward s) (advance s) _ (advance-Advanced s e h) (λ a (f, _).
      >>=-Safe (Onward a.1) (Onward s) (type_base parse a.0 a.1) _
        (type_base-Onward parse a.0 a.1 (λ u c z o. p u c z (omega (arith, o, f.size, f.up)))
          f.ends)
        (λ base g.
          >>=-Safe (Onward base.1) (Onward s) (array_suffix undefined 0 base.1) _
            (array_suffix-Onward undefined 0 base.1 g.ends)
            (λ depth i.
              let j = Forward-trans f (Forward-trans g i) in
              Onward-from
                (function_pointers parse (suc (length depth.1.after))
                  (type_info base.0.0 depth.0 base.0.1 false null nil base.0.2 false) depth.1)
                j
                (function_pointers-Onward parse (length s.after) (suc (length depth.1.after)) _
                  depth.1 p i.ends (omega (arith, j.size, j.up)) (omega arith)))))

parse_type-Onward :
    (fuel : ℕ) (s : ParserState)
    → Ends s.next s.after
    → (is_at_end s ≡ true → 0 < length s.before)
    → length s.after < fuel
    → Safe (Onward s) (parse_type fuel s)
unfolding parse_type
parse_type-Onward zero s e z h = absurd (omega (arith, h))
parse_type-Onward (suc fuel) s e z h =
    type_body-Onward (parse_type fuel) s
      (λ t c y o. parse_type-Onward fuel t c (λ _. y) (omega (arith, h, o))) e z

-- Where the last token is the end of the file, and the next token is not the end or another one
-- has been read, the parser of types ends: it throws, or it returns a type and is at the same
-- place or further on among the same tokens. It reads no token that is not there.
pub parse_type_info-Onward :
    (s : ParserState)
    → Ends s.next s.after
    → (is_at_end s ≡ true → 0 < length s.before)
    → Safe (Onward s) (parse_type_info s)
unfolding parse_type_info
parse_type_info-Onward s e z = parse_type-Onward (suc (suc (length s.after))) s e z (omega arith)
