-- ===== src/Parser/TypeSyntax.antt =====
-- A grammar of types for the parser: how each is written as tokens, and what it means.
use solix.Prelude.{
  ℕ, zero, suc, ◌+◌, ◌≤◌, ◌≡◌, Bool, true, false, ◌&&◌, ◌||◌, List, [], ◌∷◌, ◌++◌, Bytes, codes,
  if◌then◌else◌, length,
}
use solix.Lexer.Token.{TokenType, Value, text, nullptr}
use solix.Parser.State.{same_type}
use solix.Parser.TypeInfo.{TypeInfo, type_info, TypeList, nil, cons, null}
use solix.Parser.Types.{primitive_name, function_pointer}

-- The type and the value of a token.
abbrev pub Kind : Type 0
Kind = TokenType × Value

pub data Primitive : Type 0 where
  void bool int8 int16 int32 int64 uint8 uint16 uint32 uint64 float32 float64 char : Primitive

unfoldable pub primitive_type : Primitive → TokenType
primitive_type void = TokenType.primitive_void
primitive_type bool = TokenType.primitive_bool
primitive_type int8 = TokenType.primitive_int8
primitive_type int16 = TokenType.primitive_int16
primitive_type int32 = TokenType.primitive_int32
primitive_type int64 = TokenType.primitive_int64
primitive_type uint8 = TokenType.primitive_uint8
primitive_type uint16 = TokenType.primitive_uint16
primitive_type uint32 = TokenType.primitive_uint32
primitive_type uint64 = TokenType.primitive_uint64
primitive_type float32 = TokenType.primitive_float32
primitive_type float64 = TokenType.primitive_float64
primitive_type char = TokenType.primitive_char

mutual
  -- A base, a number of `[]` in one token and of `[` `]` in two, and suffixes `(*)(…)`.
  pub data Syntax : Type 0 where
    syntax : Base → ℕ → ℕ → Functions → Syntax

  -- A dotted name has `::` for `true` before a part and a dot for `false`.
  pub data Base : Type 0 where
    primitive : Primitive → Base
    tuple : Arguments → Base
    named : Bytes → List (Bool × Bytes) → Arguments → Base

  pub data Arguments : Type 0 where
    none : Arguments
    some : Syntax → More → Arguments

  pub data More : Type 0 where
    last : More
    more : Syntax → More → More

  pub data Functions : Type 0 where
    plain : Functions
    function : Arguments → ℕ → ℕ → Functions → Functions

abbrev pub mark : TokenType → Kind
mark t = (t, nullptr)

-- The tokens before others.
abbrev pub spell_parts : List (Bool × Bytes) → List Kind → List Kind
spell_parts [] r = r
spell_parts ((colons, name) ∷ parts) r =
    mark (if colons then TokenType.punctuation_double_colon else TokenType.punctuation_dot)
    ∷ (TokenType.identifier, text name)
    ∷ spell_parts parts r

abbrev pub spell_brackets : ℕ → List Kind → List Kind
spell_brackets Prim.Native.Nat.zero r = r
spell_brackets (Prim.Native.Nat.suc n) r =
    mark TokenType.punctuation_array_brackets ∷ spell_brackets n r

abbrev pub spell_pairs : ℕ → List Kind → List Kind
spell_pairs Prim.Native.Nat.zero r = r
spell_pairs (Prim.Native.Nat.suc n) r =
    mark TokenType.punctuation_open_bracket
    ∷ mark TokenType.punctuation_close_bracket
    ∷ spell_pairs n r

unfoldable mutual
  pub spell : Syntax → List Kind → List Kind
  spell (syntax b i j f) r = spell_base b (spell_brackets i (spell_pairs j (spell_functions f r)))

  pub spell_base : Base → List Kind → List Kind
  spell_base (primitive p) r = mark (primitive_type p) ∷ r
  spell_base (tuple a) r = mark TokenType.primitive_tuple ∷ spell_arguments a r
  spell_base (named name parts a) r =
      (TokenType.identifier, text name) ∷ spell_parts parts (spell_arguments a r)

  pub spell_arguments : Arguments → List Kind → List Kind
  spell_arguments none r = r
  spell_arguments (some x m) r =
      mark TokenType.operator_less_than
      ∷ spell x (spell_more m (mark TokenType.operator_greater_than ∷ r))

  pub spell_more : More → List Kind → List Kind
  spell_more last r = r
  spell_more (more x m) r = mark TokenType.punctuation_comma ∷ spell x (spell_more m r)

  pub spell_parameters : Arguments → List Kind → List Kind
  spell_parameters none r = r
  spell_parameters (some x m) r = spell x (spell_more m r)

  pub spell_functions : Functions → List Kind → List Kind
  spell_functions plain r = r
  spell_functions (function p i j f) r =
      mark TokenType.punctuation_open_paren
      ∷ mark TokenType.operator_multiply
      ∷ mark TokenType.punctuation_close_paren
      ∷ mark TokenType.punctuation_open_paren
      ∷ spell_parameters p (
          mark TokenType.punctuation_close_paren
          ∷ spell_brackets i (spell_pairs j (spell_functions f r)))

abbrev pub dotted : Bytes → List (Bool × Bytes) → Bytes
dotted name [] = name
dotted name ((colons, part) ∷ parts) = dotted (name ++ codes "." ++ part) parts

-- A type that is no function pointer.
abbrev pub array_of : Bytes × TypeList × Bool → ℕ → TypeInfo
array_of base depth = type_info base.0 depth base.1 false null nil base.2 false

unfoldable mutual
  pub meaning : Syntax → TypeInfo
  meaning (syntax b i j f) = functions_meaning f (array_of (base_meaning b) (i + j))

  -- The name, the arguments, and whether it is a tuple.
  pub base_meaning : Base → Bytes × TypeList × Bool
  base_meaning (primitive p) = (primitive_name (primitive_type p), nil, false)
  base_meaning (tuple a) = (codes "tuple", arguments_meaning a, true)
  base_meaning (named name parts a) = (dotted name parts, arguments_meaning a, false)

  pub arguments_meaning : Arguments → TypeList
  arguments_meaning none = nil
  arguments_meaning (some x m) = cons (meaning x) (more_meaning m)

  pub more_meaning : More → TypeList
  more_meaning last = nil
  more_meaning (more x m) = cons (meaning x) (more_meaning m)

  pub functions_meaning : Functions → TypeInfo → TypeInfo
  functions_meaning plain t = t
  functions_meaning (function p i j f) t =
      functions_meaning f (function_pointer t (arguments_meaning p) (i + j))

-- What stands at a place of a list of tokens; the end of the file behind them.
abbrev pub type_at : ℕ → List Kind → TokenType
type_at n [] = TokenType.eof_token
type_at Prim.Native.Nat.zero (k ∷ r) = k.0
type_at (Prim.Native.Nat.suc n) (k ∷ r) = type_at n r

-- The first token is of a type.
abbrev pub begins : TokenType → List Kind → Bool
begins t r = same_type (type_at 0 r) t

-- A dotted name goes on here.
abbrev pub dot_ahead : List Kind → Bool
dot_ahead r = begins TokenType.punctuation_dot r || begins TokenType.punctuation_double_colon r

-- A name or its arguments go on here.
abbrev pub name_ahead : List Kind → Bool
name_ahead r = dot_ahead r || begins TokenType.operator_less_than r

-- `(*)` stands here.
abbrev pub star_ahead : List Kind → Bool
star_ahead r =
    begins TokenType.punctuation_open_paren r
    && (same_type (type_at 1 r) TokenType.operator_multiply
        && same_type (type_at 2 r) TokenType.punctuation_close_paren)

-- `[` and `]` stand here.
abbrev pub pair_ahead : List Kind → Bool
pair_ahead r =
    begins TokenType.punctuation_open_bracket r
    && same_type (type_at 1 r) TokenType.punctuation_close_bracket

-- No brackets go on here: there is a token, behind a `[` another, and no `[]` and no `[` with `]`.
pub record StopsArray (r : List Kind) : Type 0 where
  pub present : 1 ≤ length r
  pub brackets : begins TokenType.punctuation_array_brackets r ≡ false
  pub pair : pair_ahead r ≡ false
  pub behind : begins TokenType.punctuation_open_bracket r ≡ true → 2 ≤ length r

-- No type goes on here: there are no brackets, and no dot, `::`, `<` or `(*)`.
pub record Stops (r : List Kind) : Type 0 where
  pub array : StopsArray r
  pub name : name_ahead r ≡ false
  pub star : star_ahead r ≡ false
