-- ===== src/Lexer/ScanRead.antt =====
-- What a token takes from the source.
use solix.Prelude.{
  ℕ, zero, suc, ◌<◌, ◌≡◌, ◌≢◌, refl, sym, ◌∙◌, ap, inl, inr, Bool, true, false, ◌&&◌, ◌||◌, not,
  List, [], ◌∷◌, Bytes, arith, ◌==◌, if◌then◌else◌, length, Option, none, some, Bool-cases,
  Option-cases,
}
use solix.Outcome.{ok}
use solix.Lexer.Token.{TokenType, text, nullptr, keywords}
use solix.Lexer.State.{
  LexerState, peek, peek_next, is_at_end, matches, advance, while_peek, lexeme, is_digit, is_alpha,
  is_name,
}
use solix.Lexer.Scan.{
  same, find_keyword, handle_identifier, mark, mark_longer, mark_longest, comment_line,
  block_comment, handle_slash, handle_operator, scan_token,
}
use solix.Lexer.Reading.{
  Reads, Emits, Reads-refl, Reads-trans, Reads-Emits, add_token-Emits, advance-Reads,
  advance_while-Reads, Moves-length, advance-length, break-Reads,
}
use solix.Lexer.LiteralsRead.{unknown-Emits, string_loop-Emits, handle_character-Emits}
use solix.Lexer.NumberRead.{EmitsOrRaises, handle_number-Emits}

is_eof : TokenType → Bool
is_eof TokenType.eof_token = true
is_eof _ = false

is_eof-ne : (t : TokenType) → is_eof t ≡ false → t ≢ TokenType.eof_token
unfolding is_eof
is_eof-ne t h e = let k : is_eof TokenType.eof_token ≡ false = ap is_eof (sym e) ∙ h in cc

has_eof : List (Bytes × TokenType) → Bool
has_eof [] = false
has_eof ((k, t) ∷ r) = is_eof t || has_eof r

keywords_lem : has_eof keywords ≡ false
unfolding has_eof is_eof keywords
keywords_lem = refl

some_eof : Option TokenType → Bool
some_eof none = false
some_eof (some t) = is_eof t

find_keyword-some_eof :
    (name : Bytes) (l : List (Bytes × TokenType))
    → has_eof l ≡ false
    → some_eof (find_keyword name l) ≡ false
unfolding find_keyword has_eof some_eof
find_keyword-some_eof name [] h = refl
find_keyword-some_eof name ((k, u) ∷ r) h = elim (Bool-cases (is_eof u)) [
  | inl i ↦ absurd (let f : true ≡ false = rw i at h in cc)
  | inr i ↦ elim (Bool-cases (same name k)) [
    | inl q ↦ rw (q, find_keyword) i
    | inr q ↦ rw (q, find_keyword) (find_keyword-some_eof name r (rw i at h))
  ]
]

keyword-is_eof :
    (name : Bytes) (t : TokenType) → find_keyword name keywords ≡ some t → is_eof t ≡ false
unfolding some_eof
keyword-is_eof name t e = sym (ap some_eof e) ∙ find_keyword-some_eof name keywords keywords_lem

mark-Emits : (t : TokenType) (s : LexerState) → is_eof t ≡ false → Emits s (mark t s)
mark-Emits t s h = add_token-Emits t nullptr s (is_eof-ne t h)

handle_identifier-Emits : (s : LexerState) → Emits s (handle_identifier s)
unfolding handle_identifier
handle_identifier-Emits s =
    let s1 = while_peek is_name s in
    Reads-Emits (advance_while-Reads is_name s.rest s)
      (elim (Option-cases (find_keyword (lexeme s1) keywords)) [
        | inl e ↦
            rw (e, handle_identifier)
              (add_token-Emits TokenType.identifier (text (lexeme s1)) s1 (λ x. cc))
        | inr (t, e) ↦ rw (e, handle_identifier) (mark-Emits t s1 (keyword-is_eof (lexeme s1) t e))
      ])

mark_longer-Emits :
    (expected : ℕ) (longer shorter : TokenType) (s : LexerState)
    → is_eof longer ≡ false
    → is_eof shorter ≡ false
    → Emits s (mark_longer expected longer shorter s)
mark_longer-Emits expected longer shorter s h k = elim (Bool-cases (matches expected s)) [
  | inl e ↦ rw e (Reads-Emits (advance-Reads s) (mark-Emits longer (advance s) h))
  | inr e ↦ rw e (mark-Emits shorter s k)
]

mark_longest-Emits :
    (first : ℕ) (longer : TokenType) (second : ℕ) (longer' shorter : TokenType) (s : LexerState)
    → is_eof longer ≡ false
    → is_eof longer' ≡ false
    → is_eof shorter ≡ false
    → Emits s (mark_longest first longer second longer' shorter s)
mark_longest-Emits first longer second longer' shorter s h h' k =
    elim (Bool-cases (matches first s)) [
      | inl e ↦ rw e (Reads-Emits (advance-Reads s) (mark-Emits longer (advance s) h))
      | inr e ↦ rw e (mark_longer-Emits second longer' shorter s h' k)
    ]

comment-Reads : (s : LexerState) → Reads s (advance (if peek s == b'\n' then comment_line s else s))
comment-Reads s = elim (Bool-cases (peek s == b'\n')) [
  | inl e ↦ rw e (break-Reads s (advance (comment_line s)) (ground arith) refl refl refl)
  | inr e ↦ rw e (advance-Reads s)
]

comment-length :
    (s : LexerState)
    → is_at_end s ≡ false
    → length (advance (if peek s == b'\n' then comment_line s else s)).rest < length s.rest
comment-length s h = elim (Bool-cases (peek s == b'\n')) [
  | inl e ↦ rw e (advance-length s h)
  | inr e ↦ rw e (advance-length s h)
]

block_comment-Reads :
    (fuel : ℕ) (s : LexerState)
    → length s.rest < fuel
    → (t : LexerState) × (block_comment fuel s ≡ ok t) × Reads s t
unfolding block_comment
block_comment-Reads zero s h = absurd (omega arith)
block_comment-Reads (suc fuel) s h = elim (Bool-cases (is_at_end s)) [
  | inl e ↦ (s, rw (e, block_comment) refl, Reads-refl s)
  | inr e ↦
      let s1 = if peek s == b'\n' then comment_line s else s in
      elim (Bool-cases (peek s == b'*' && peek_next s == b'/')) [
        | inl f ↦ (
          advance (advance s1),
          rw (e, f, block_comment) refl,
          Reads-trans (comment-Reads s) (advance-Reads (advance s1)),
        )
        | inr f ↦
            let (t, r, m) =
              block_comment-Reads fuel (advance s1) (omega (arith, comment-length s e)) in
            (t, rw (e, f, block_comment) r, Reads-trans (comment-Reads s) m)
      ]
]

handle_slash-Emits : (s : LexerState) → (t : LexerState) × (handle_slash s ≡ ok t) × Emits s t
unfolding handle_slash
handle_slash-Emits s = elim (Bool-cases (matches b'=' s)) [
  | inl e ↦ (
    _,
    rw (e, handle_slash) refl,
    Reads-Emits (advance-Reads s)
        (mark-Emits TokenType.operator_divide_assign (advance s) (unfold is_eof in refl)),
  )
  | inr e ↦ elim (Bool-cases (matches b'/' s)) [
    | inl f ↦ (
      _,
      rw (e, f, handle_slash) refl,
      Reads-Emits
          (Reads-trans (advance-Reads s)
            (advance_while-Reads (λ c. not (c == b'\n')) (advance s).rest (advance s)))
          (mark-Emits TokenType.comment_single_line (while_peek (λ c. not (c == b'\n')) (advance s))
            (unfold is_eof in refl)),
    )
    | inr f ↦ elim (Bool-cases (matches b'*' s)) [
      | inl g ↦
          let (t, r, m) =
            block_comment-Reads (suc (length s.rest)) (advance s)
              (omega (arith, Moves-length (advance-Reads s).moves)) in
          (
            mark TokenType.comment_multi_line t,
            rw (e, f, g, r, handle_slash) refl,
            Reads-Emits (Reads-trans (advance-Reads s) m)
                (mark-Emits TokenType.comment_multi_line t (unfold is_eof in refl)),
          )
      | inr g ↦ (
        _,
        rw (e, f, g, handle_slash) refl,
        mark-Emits TokenType.operator_divide s (unfold is_eof in refl),
      )
    ]
  ]
]

choose :
    (s : LexerState) (b : Bool) (x y : LexerState)
    → Emits s x
    → Emits s y
    → Emits s (if b then x else y)
choose s true x y h k = h
choose s false x y h k = k

handle_operator-Emits : (c : ℕ) (s : LexerState) → Emits s (handle_operator c s)
unfolding handle_operator
handle_operator-Emits c s =
    (choose s (c == b'(') _ _
      (mark-Emits TokenType.punctuation_open_paren s (unfold is_eof in refl))
      (choose s (c == b')') _ _
        (mark-Emits TokenType.punctuation_close_paren s (unfold is_eof in refl))
        (choose s (c == b'{') _ _
          (mark-Emits TokenType.punctuation_open_brace s (unfold is_eof in refl))
          (choose s (c == b'}') _ _
            (mark-Emits TokenType.punctuation_close_brace s (unfold is_eof in refl))
            (choose s (c == b'[') _ _
              (mark_longer-Emits b']' TokenType.punctuation_array_brackets
                TokenType.punctuation_open_bracket s (unfold is_eof in refl)
                (unfold is_eof in refl))
              (choose s (c == b']') _ _
                (mark-Emits TokenType.punctuation_close_bracket s (unfold is_eof in refl))
                (choose s (c == b';') _ _
                  (mark-Emits TokenType.punctuation_semicolon s (unfold is_eof in refl))
                  (choose s (c == b',') _ _
                    (mark-Emits TokenType.punctuation_comma s (unfold is_eof in refl))
                    (choose s (c == b'.') _ _
                      (choose s (peek s == b'.' && peek_next s == b'.') _ _
                        (Reads-Emits (Reads-trans (advance-Reads s) (advance-Reads (advance s))) (
                          mark-Emits TokenType.punctuation_ellipsis (advance (advance s))
                            (unfold is_eof in refl)))
                        (mark-Emits TokenType.punctuation_dot s (unfold is_eof in refl)))
                      (choose s (c == b':') _ _
                        (mark_longer-Emits b':' TokenType.punctuation_double_colon
                          TokenType.punctuation_colon s (unfold is_eof in refl)
                          (unfold is_eof in refl))
                        (choose s (c == b'?') _ _
                          (mark-Emits TokenType.operator_question s (unfold is_eof in refl))
                          (choose s (c == b'~') _ _
                            (mark-Emits TokenType.operator_bitwise_not s (unfold is_eof in refl))
                            (choose s (c == b'=') _ _
                              (mark_longest-Emits b'=' TokenType.operator_equal b'>'
                                TokenType.operator_fat_arrow TokenType.operator_assign s
                                (unfold is_eof in refl) (unfold is_eof in refl)
                                (unfold is_eof in refl))
                              (choose s (c == b'!') _ _
                                (mark_longer-Emits b'=' TokenType.operator_not_equal
                                  TokenType.operator_logical_not s (unfold is_eof in refl)
                                  (unfold is_eof in refl))
                                (choose s (c == b'<') _ _
                                  (mark_longer-Emits b'=' TokenType.operator_less_equal
                                    TokenType.operator_less_than s (unfold is_eof in refl)
                                    (unfold is_eof in refl))
                                  (choose s (c == b'>') _ _
                                    (mark_longer-Emits b'=' TokenType.operator_greater_equal
                                      TokenType.operator_greater_than s (unfold is_eof in refl)
                                      (unfold is_eof in refl))
                                    (choose s (c == b'&') _ _
                                      (mark_longer-Emits b'&' TokenType.operator_logical_and
                                        TokenType.punctuation_ampersand s (unfold is_eof in refl)
                                        (unfold is_eof in refl))
                                      (choose s (c == b'|') _ _
                                        (choose s (matches b'|' s) _ _
                                          (Reads-Emits (advance-Reads s) (
                                            mark-Emits TokenType.operator_logical_or (advance s)
                                              (unfold is_eof in refl)))
                                          (unknown-Emits (b'|' ∷ []) s))
                                        (choose s (c == b'+') _ _
                                          (mark_longest-Emits b'+' TokenType.operator_increment b'='
                                            TokenType.operator_plus_assign TokenType.operator_plus s
                                            (unfold is_eof in refl) (unfold is_eof in refl)
                                            (unfold is_eof in refl))
                                          (choose s (c == b'-') _ _
                                            (mark_longest-Emits b'-' TokenType.operator_decrement
                                              b'=' TokenType.operator_minus_assign
                                              TokenType.operator_minus s (unfold is_eof in refl)
                                              (unfold is_eof in refl) (unfold is_eof in refl))
                                            (choose s (c == b'*') _ _
                                              (mark_longer-Emits b'='
                                                TokenType.operator_multiply_assign
                                                TokenType.operator_multiply s
                                                (unfold is_eof in refl) (unfold is_eof in refl))
                                              (choose s (c == b'%') _ _
                                                (mark_longer-Emits b'='
                                                  TokenType.operator_modulo_assign
                                                  TokenType.operator_modulo s
                                                  (unfold is_eof in refl) (unfold is_eof in refl))
                                                (unknown-Emits (c ∷ []) s)))))))))))))))))))))))

-- A token that begins with `c` raises or takes some bytes and is added.
pub scan_token-Emits :
    (stod : Bytes → Option ℕ) (c : ℕ) (s : LexerState) → EmitsOrRaises s (scan_token stod c s)
unfolding scan_token EmitsOrRaises
scan_token-Emits stod c s = elim (Bool-cases (is_alpha c || c == b'_')) [
  | inl e ↦ inr (_, rw (e, scan_token) refl, handle_identifier-Emits s)
  | inr e ↦ elim (Bool-cases (is_digit c)) [
    | inl f ↦ rw (e, f, scan_token) (handle_number-Emits stod c s)
    | inr f ↦ elim (Bool-cases (c == b'"')) [
      | inl g ↦
          let (t, r, m) = string_loop-Emits (suc (length s.rest)) [] s (omega arith) in
          inr (t, rw (e, f, g, scan_token) r, m)
      | inr g ↦ elim (Bool-cases (c == b'\'')) [
        | inl h ↦ inr (_, rw (e, f, g, h, scan_token) refl, handle_character-Emits s)
        | inr h ↦ elim (Bool-cases (c == b'/')) [
          | inl k ↦
              let (t, r, m) = handle_slash-Emits s in inr (t, rw (e, f, g, h, k, scan_token) r, m)
          | inr k ↦ inr (_, rw (e, f, g, h, k, scan_token) refl, handle_operator-Emits c s)
        ]
      ]
    ]
  ]
]
