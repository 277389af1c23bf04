-- ===== src/Parser/Types.antt =====
-- `ParserState::parse_type_info` of core/src/processes/parser.cpp.
use solix.Prelude.{
  ℕ, zero, suc, ◌+◌, Bool, true, false, ◌&&◌, [], ◌∷◌, ◌++◌, Bytes, codes, leb, if◌then◌else◌,
  length,
}
use solix.Outcome.{Outcome, ok, throw, undefined, out_of_fuel, parse_error, ◌>>=◌}
use solix.Lexer.Token.{TokenType, Token}
use solix.Parser.State.{ParserState, ordinal, same_type, check, matches, consume, advance, text_of}
use solix.Parser.TypeInfo.{TypeInfo, type_info, TypeList, nil, cons, null, shared, to_string}

-- `t.type >= PRIMITIVE_VOID && t.type <= PRIMITIVE_CHAR`
abbrev pub is_primitive : TokenType → Bool
is_primitive t =
    leb (ordinal TokenType.primitive_void) (ordinal t)
    && leb (ordinal t) (ordinal TokenType.primitive_char)

unfoldable pub primitive_name : TokenType → Bytes
primitive_name TokenType.primitive_void = codes "void"
primitive_name TokenType.primitive_bool = codes "bool"
primitive_name TokenType.primitive_int8 = codes "int8"
primitive_name TokenType.primitive_int16 = codes "int16"
primitive_name TokenType.primitive_int32 = codes "int32"
primitive_name TokenType.primitive_int64 = codes "int64"
primitive_name TokenType.primitive_uint8 = codes "uint8"
primitive_name TokenType.primitive_uint16 = codes "uint16"
primitive_name TokenType.primitive_uint32 = codes "uint32"
primitive_name TokenType.primitive_uint64 = codes "uint64"
primitive_name TokenType.primitive_float32 = codes "float32"
primitive_name TokenType.primitive_float64 = codes "float64"
primitive_name TokenType.primitive_char = codes "char"
primitive_name _ = []

-- `match(PUNCTUATION_DOT) || match(PUNCTUATION_DOUBLE_COLON)`
abbrev pub match_dot : ParserState → Outcome (Bool × ParserState)
match_dot s = do
  dot ← matches TokenType.punctuation_dot s
  if dot.0 then ok dot else matches TokenType.punctuation_double_colon dot.1

-- The rest of a dotted name.
unfoldable pub dotted_name : ℕ → Bytes → ParserState → Outcome (Bytes × ParserState)
dotted_name zero name s = out_of_fuel
dotted_name (suc n) name s = do
  dot ← match_dot s
  if dot.0
      then (do
        id ←
            consume TokenType.identifier (codes "Expected identifier after '.' or '::' in type")
              dot.1
        part ← text_of id.0
        dotted_name n (name ++ codes "." ++ part) id.1)
      else ok (name, dot.1)

-- `while (match(PUNCTUATION_ARRAY_BRACKETS)) array_depth++;`
unfoldable pub array_brackets : ℕ → ℕ → ParserState → Outcome (ℕ × ParserState)
array_brackets zero depth s = out_of_fuel
array_brackets (suc n) depth s = do
  m ← matches TokenType.punctuation_array_brackets s
  if m.0 then array_brackets n (depth + 1) m.1 else ok (depth, m.1)

-- `[` and `]`; `past` is what the test of the next token gives where there is none.
abbrev pub bracket_pair : Outcome Bool → ParserState → Outcome Bool
bracket_pair past s =
    if check TokenType.punctuation_open_bracket s
    then elim s.after [
      | [] ↦ past
      | t ∷ _ ↦ ok (same_type t.type TokenType.punctuation_close_bracket)
    ]
    else ok false

unfoldable pub empty_brackets : Outcome Bool → ℕ → ℕ → ParserState → Outcome (ℕ × ParserState)
empty_brackets past zero depth s = out_of_fuel
empty_brackets past (suc n) depth s = do
  pair ← bracket_pair past s
  if pair
      then (do a ← advance s; b ← advance a.1; empty_brackets past n (depth + 1) b.1)
      else ok (depth, s)

-- Both loops over brackets.
abbrev pub array_suffix : Outcome Bool → ℕ → ParserState → Outcome (ℕ × ParserState)
array_suffix past depth s = do
  r ← array_brackets (suc (length s.after)) depth s
  empty_brackets past (suc (length r.1.after)) r.0 r.1

abbrev pub Parse : Type 0
Parse = ParserState → Outcome (TypeInfo × ParserState)

-- `do … push_back(parse_type_info()); while (match(PUNCTUATION_COMMA));`
unfoldable pub comma_types : Parse → ℕ → ParserState → Outcome (TypeList × ParserState)
comma_types parse zero s = out_of_fuel
comma_types parse (suc n) s = do
  t ← parse s
  m ← matches TokenType.punctuation_comma t.1
  if m.0
      then (do ts ← comma_types parse n m.1; ok (cons t.0 ts.0, ts.1))
      else ok (cons t.0 nil, m.1)

-- `<…>` where there is one.
unfoldable pub template_arguments : Parse → ParserState → Outcome (TypeList × ParserState)
template_arguments parse s = do
  m ← matches TokenType.operator_less_than s
  if m.0
      then (do
        ts ← comma_types parse (suc (length m.1.after)) m.1
        r ←
            consume TokenType.operator_greater_than (codes "Expected '>' after template arguments")
              ts.1
        ok (ts.0, r.1))
      else ok (nil, m.1)

-- The condition of the loop over `(*)`.
abbrev pub function_pointer_ahead : ParserState → Bool
function_pointer_ahead s = check TokenType.punctuation_open_paren s && (elim s.after [
  | [] ↦ false
  | t ∷ ts ↦ elim ts [
    | [] ↦ false
    | u ∷ _ ↦
        same_type t.type TokenType.operator_multiply
        && same_type u.type TokenType.punctuation_close_paren
  ]
])

-- The parameters up to `)`.
unfoldable pub function_parameters : Parse → ParserState → Outcome (TypeList × ParserState)
function_parameters parse s =
    if check TokenType.punctuation_close_paren s
    then ok (nil, s)
    else comma_types parse (suc (length s.after)) s

abbrev pub function_pointer : TypeInfo → TypeList → ℕ → TypeInfo
function_pointer type params depth =
    let fp : Bytes → TypeInfo =
      λ name. type_info name depth nil true (shared type) params false false in
    fp (to_string (fp []))

unfoldable pub function_pointers :
    Parse → ℕ → TypeInfo → ParserState → Outcome (TypeInfo × ParserState)
function_pointers parse zero type s = out_of_fuel
function_pointers parse (suc n) type s =
    if function_pointer_ahead s
    then (do
      a ← advance s
      b ← advance a.1
      c ← advance b.1
      paren ←
          consume TokenType.punctuation_open_paren
            (codes "Expected '(' for function pointer parameters") c.1
      params ← function_parameters parse paren.1
      close ←
          consume TokenType.punctuation_close_paren
            (codes "Expected ')' after function pointer parameters") params.1
      depth ← array_suffix (ok false) 0 close.1
      function_pointers parse n (function_pointer type params.0 depth.0) depth.1)
    else ok (type, s)

-- The name and the template arguments, behind the first token.
unfoldable pub type_base :
    Parse → Token → ParserState → Outcome ((Bytes × TypeList × Bool) × ParserState)
type_base parse t s =
    if is_primitive t.type
    then ok ((primitive_name t.type, nil, false), s)
    else if same_type t.type TokenType.primitive_tuple
    then (do args ← template_arguments parse s; ok ((codes "tuple", args.0, true), args.1))
    else if same_type t.type TokenType.identifier
    then (do
      first ← text_of t
      name ← dotted_name (suc (length s.after)) first s
      args ← template_arguments parse name.1
      ok ((name.0, args.0, false), args.1))
    else throw (parse_error (codes "Expected a type name") s.next.line s.next.column)

-- A call, with the recursive one as a parameter.
unfoldable pub type_body : Parse → Parse
type_body parse s = do
  a ← advance s
  base ← type_base parse a.0 a.1
  depth ← array_suffix undefined 0 base.1
  function_pointers parse (suc (length depth.1.after))
      (type_info base.0.0 depth.0 base.0.1 false null nil base.0.2 false) depth.1

unfoldable pub parse_type : ℕ → Parse
parse_type zero s = out_of_fuel
parse_type (suc fuel) s = type_body (parse_type fuel) s

-- Each call but the innermost reads a token before it makes another.
unfoldable pub parse_type_info : Parse
parse_type_info s = parse_type (suc (suc (length s.after))) s
