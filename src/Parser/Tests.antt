-- ===== src/Parser/Tests.antt =====
-- The parser of types on small sources.
use solix.Prelude.{◌<◌, ◌≡◌, refl, List, [], ◌∷◌, true, codes, arith, length}
use solix.Lexer.Token.{Token, TokenType, text}
use solix.Lexer.Reading.{breaks}
use solix.Lexer.Tokenize.{Tokenized}
use solix.Parser.State.{ParserState, ordinal, is_at_end}
use solix.Parser.Types.{parse_type_info}
use solix.Parser.Forward.{Safe, Onward, Ends}
use solix.Parser.TypesForward.{parse_type_info-Onward}
use solix.Parser.Start.{Starts, parser_state-Starts}
use solix.Parser.TypeSyntax
use solix.Parser.TypeSyntax.{
  Kind, mark, Syntax, syntax, named, primitive, plain, function, last, spell, spell_base,
  spell_arguments, spell_more, spell_parameters, spell_functions, primitive_type, meaning, Stops,
}
use solix.Parser.Sees.{Sees, Yields}
use solix.Parser.TypesRead.{parse_type_info-spell}

-- A token of a kind on the first line.
abbrev placed : Kind → Token
placed k = record { type = k.0; line = 1; column = 1; end_line = 1; end_column = 1; value = k.1 }

-- `x ;`
abbrev follow : List Token
follow =
    placed (TokenType.identifier, text (codes "x"))
    ∷ placed (mark TokenType.punctuation_semicolon)
    ∷ placed (mark TokenType.eof_token)
    ∷ []

-- `List<int8[]>(*)(bool)[ ] x ;`
abbrev listed : ParserState
listed = record {
  before = [];
  next = placed (TokenType.identifier, text (codes "List"));
  after =
      placed (mark TokenType.operator_less_than)
      ∷ placed (mark TokenType.primitive_int8)
      ∷ placed (mark TokenType.punctuation_array_brackets)
      ∷ placed (mark TokenType.operator_greater_than)
      ∷ placed (mark TokenType.punctuation_open_paren)
      ∷ placed (mark TokenType.operator_multiply)
      ∷ placed (mark TokenType.punctuation_close_paren)
      ∷ placed (mark TokenType.punctuation_open_paren)
      ∷ placed (mark TokenType.primitive_bool)
      ∷ placed (mark TokenType.punctuation_close_paren)
      ∷ placed (mark TokenType.punctuation_open_bracket)
      ∷ placed (mark TokenType.punctuation_close_bracket)
      ∷ follow;
}

listed-Ends : Ends listed.next listed.after
unfolding ordinal
listed-Ends = refl

listed-open : is_at_end listed ≡ true → 0 < length listed.before
unfolding ordinal
listed-open e = absurd (cc)

parse_type_info-Onward_example : Safe (Onward listed) (parse_type_info listed)
parse_type_info-Onward_example = parse_type_info-Onward listed listed-Ends listed-open

abbrev list_type : Syntax
list_type =
    syntax
      (named (codes "List") []
        (TypeSyntax.some (syntax (primitive TypeSyntax.Primitive.int8) 1 0 plain) last))
      0 0
      (function (TypeSyntax.some (syntax (primitive TypeSyntax.Primitive.bool) 0 0 plain) last) 0 1
        plain)

abbrev follow_kinds : List Kind
follow_kinds =
    (TokenType.identifier, text (codes "x"))
    ∷ mark TokenType.punctuation_semicolon
    ∷ mark TokenType.eof_token
    ∷ []

listed-Sees : Sees listed (spell list_type follow_kinds)
unfolding spell spell_base spell_arguments spell_more spell_parameters spell_functions
    primitive_type
listed-Sees = refl

follow-Stops : Stops follow_kinds
unfolding ordinal
follow-Stops = record {
  array = record { present = omega arith; brackets = refl; pair = refl; behind = λ e. absurd (cc) };
  name = refl;
  star = refl;
}

parse_type_info-spell_example : Yields (parse_type_info listed) (meaning list_type) follow_kinds
parse_type_info-spell_example =
    parse_type_info-spell list_type follow_kinds listed listed-Sees follow-Stops

-- The tokens of `x`.
abbrev name_tokens : List Token
name_tokens =
    placed (TokenType.identifier, text (codes "x")) ∷ placed (mark TokenType.eof_token) ∷ []

name-Tokenized : Tokenized (codes "x") name_tokens
unfolding breaks
name-Tokenized = record {
  body = placed (TokenType.identifier, text (codes "x")) ∷ [];
  last = placed (mark TokenType.eof_token);
  split = refl;
  ends = refl;
  proper = (λ e. cc, tt);
  ordered = (omega arith, omega arith);
  bounded = omega arith;
}

parser_state-Starts_example : (s : ParserState) × Starts name_tokens s
parser_state-Starts_example = parser_state-Starts (codes "x") name_tokens name-Tokenized
