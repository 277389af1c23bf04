-- ===== src/Parser/Spelled.antt =====
-- The sizes and the first tokens of what the grammar of `TypeSyntax` writes.
use solix.Prelude.{ℕ, zero, suc, ◌≤◌, ◌≡◌, refl, Bool, true, false, ◌||◌, List, ◌∷◌, arith, length}
use solix.Lexer.Token.{TokenType}
use solix.Parser.State.{ordinal, same_type}
use solix.Parser.Types.{is_primitive}
use solix.Parser.TypeSyntax.{
  Kind, mark, type_at, begins, Primitive, primitive_type, Syntax, syntax, Base, primitive, tuple,
  named, Arguments, More, last, more, Functions, plain, function, spell_parts, spell_brackets,
  spell_pairs, spell, spell_base, spell_arguments, spell_more, spell_parameters, spell_functions,
  dot_ahead, dotted, array_of, meaning, base_meaning, arguments_meaning, more_meaning,
  functions_meaning, name_ahead, pair_ahead, star_ahead, StopsArray, Stops,
}
use solix.Parser.TypeSyntax
use solix.Parser.LoopsRead.{parts-size, brackets-size, pairs-size}

-- Nothing is shorter for what is written before it.
mutual
  unfolding spell spell_base spell_arguments spell_more spell_parameters spell_functions

  pub spell-size : (x : Syntax) (r : List Kind) → suc (length r) ≤ length (spell x r)
  spell-size (syntax b i j f) r = omega (
    arith,
    base-size b (spell_brackets i (spell_pairs j (spell_functions f r))),
    brackets-size i (spell_pairs j (spell_functions f r)),
    pairs-size j (spell_functions f r),
    functions-size f r,
  )

  pub base-size : (b : Base) (r : List Kind) → suc (length r) ≤ length (spell_base b r)
  base-size (primitive p) r = omega arith
  base-size (tuple a) r = omega (arith, arguments-size a r)
  base-size (named name parts a) r =
      omega (arith, parts-size parts (spell_arguments a r), arguments-size a r)

  pub arguments-size : (a : Arguments) (r : List Kind) → length r ≤ length (spell_arguments a r)
  arguments-size TypeSyntax.none r = omega arith
  arguments-size (TypeSyntax.some x m) r = omega (
    arith,
    spell-size x (spell_more m (mark TokenType.operator_greater_than ∷ r)),
    more-size m (mark TokenType.operator_greater_than ∷ r),
  )

  pub more-size : (m : More) (r : List Kind) → length r ≤ length (spell_more m r)
  more-size last r = omega arith
  more-size (more x m) r = omega (arith, spell-size x (spell_more m r), more-size m r)

  pub parameters-size : (a : Arguments) (r : List Kind) → length r ≤ length (spell_parameters a r)
  parameters-size TypeSyntax.none r = omega arith
  parameters-size (TypeSyntax.some x m) r =
      omega (arith, spell-size x (spell_more m r), more-size m r)

  pub functions-size : (f : Functions) (r : List Kind) → length r ≤ length (spell_functions f r)
  functions-size plain r = omega arith
  functions-size (function p i j f) r = omega (
    arith,
    parameters-size p (
        mark TokenType.punctuation_close_paren
        ∷ spell_brackets i (spell_pairs j (spell_functions f r))),
    brackets-size i (spell_pairs j (spell_functions f r)),
    pairs-size j (spell_functions f r),
    functions-size f r,
  )

-- A type ends before `>`, `)` and `,`.
pub greater-Stops : (r : List Kind) → Stops (mark TokenType.operator_greater_than ∷ r)
unfolding ordinal
greater-Stops r = record {
  array = record { present = omega arith; brackets = refl; pair = refl; behind = λ e. absurd (cc) };
  name = refl;
  star = refl;
}

pub paren-Stops : (r : List Kind) → Stops (mark TokenType.punctuation_close_paren ∷ r)
unfolding ordinal
paren-Stops r = record {
  array = record { present = omega arith; brackets = refl; pair = refl; behind = λ e. absurd (cc) };
  name = refl;
  star = refl;
}

pub comma-Stops : (r : List Kind) → Stops (mark TokenType.punctuation_comma ∷ r)
unfolding ordinal
comma-Stops r = record {
  array = record { present = omega arith; brackets = refl; pair = refl; behind = λ e. absurd (cc) };
  name = refl;
  star = refl;
}

more-Stops : (m : More) (r : List Kind) → Stops r → Stops (spell_more m r)
unfolding spell_more
more-Stops last r h = h
more-Stops (more x m) r h = comma-Stops (spell x (spell_more m r))

pub functions-StopsArray :
    (f : Functions) (r : List Kind) → Stops r → StopsArray (spell_functions f r)
unfolding spell_functions ordinal
functions-StopsArray plain r h = h.array
functions-StopsArray (function p i j f) r h = record {
  present = omega arith;
  brackets = refl;
  pair = refl;
  behind = λ e. absurd (cc);
}

pub suffix-name :
    (i j : ℕ) (f : Functions) (r : List Kind)
    → Stops r
    → name_ahead (spell_brackets i (spell_pairs j (spell_functions f r))) ≡ false
unfolding spell_functions ordinal
suffix-name zero zero plain r h = h.name
suffix-name zero zero (function p i j f) r h = refl
suffix-name zero (suc j) f r h = refl
suffix-name (suc i) j f r h = refl

pub primitive-is : (p : Primitive) → is_primitive (primitive_type p) ≡ true
unfolding primitive_type ordinal
primitive-is Primitive.void = refl
primitive-is _ = refl

pub primitive-open : (p : Primitive) → same_type (primitive_type p) TokenType.eof_token ≡ false
unfolding primitive_type ordinal
primitive-open Primitive.void = refl
primitive-open _ = refl

or-right : (b c : Bool) → (b || c) ≡ false → c ≡ false
or-right true c h = absurd (cc)
or-right false c h = h

pub name-less :
    (r : List Kind) → name_ahead r ≡ false → begins TokenType.operator_less_than r ≡ false
name-less r h = or-right (dot_ahead r) (begins TokenType.operator_less_than r) h

or-left : (b c : Bool) → (b || c) ≡ false → b ≡ false
or-left true c h = absurd (cc)
or-left false c h = refl

pub arguments-dot :
    (a : Arguments) (r : List Kind) → name_ahead r ≡ false → dot_ahead (spell_arguments a r) ≡ false
unfolding spell_arguments ordinal
arguments-dot TypeSyntax.none r h = or-left (dot_ahead r) (begins TokenType.operator_less_than r) h
arguments-dot (TypeSyntax.some x m) r h = refl

base-head :
    (x : Base) (r : List Kind) → begins TokenType.punctuation_close_paren (spell_base x r) ≡ false
unfolding spell_base ordinal primitive_type
base-head (primitive Primitive.void) r = refl
base-head (primitive _) r = refl
base-head (tuple a) r = refl
base-head (named name parts a) r = refl

pub spell-head :
    (x : Syntax) (r : List Kind) → begins TokenType.punctuation_close_paren (spell x r) ≡ false
unfolding spell
spell-head (syntax b i j f) r = base-head b (spell_brackets i (spell_pairs j (spell_functions f r)))
