-- ===== src/Lexer/Next.antt =====
-- crates/lexer/src/lib.rs: `next_token` and `tokenize`.
use maka.Base.{
  ℕ, zero, suc, ◌&&◌, List, [], ◌∷◌, ◌++◌, Option, none, some, Bytes, length, ◌==◌, if◌then◌else◌,
}
use maka.Lexer.Cursor.{
  Lexer, new, eof, peek, peek1, bump, skip_while, here, is_digit, is_ident_start, is_ident_cont,
  slice,
}
use maka.Lexer.Literal.{char_literal, str_literal}
use maka.Lexer.Number.{token, fail, number, bump_n}
use maka.Lexer.Token.{
  TokKind, Token, Result, ok, out_of_fuel, question_mark, unexpected_character, keyword,
  eof as eof_kind, dot_dot, dot_dot_eq, ◌>>=◌, amp, and_and, bang, caret, colon, colon_colon, comma,
  dot, eq, eq_eq, gt, gt_eq, lbrace, lbracket, lparen, lt, lt_eq, minus, minus_eq, not_eq, or_or,
  percent, percent_eq, pipe, plus, plus_eq, rbrace, rbracket, rparen, semicolon, shl_op, shr_op,
  slash, slash_eq, star, star_eq, tilde,
}
use maka.Lexer.Trivia.{skip_trivia}

-- The arms of `match two` that read two bytes; `..` is below.
unfoldable pub two_op : ℕ → ℕ → Option TokKind
two_op c c' =
    if c == b'=' && c' == b'='
    then some eq_eq
    else if c == b'!' && c' == b'='
    then some not_eq
    else if c == b'<' && c' == b'='
    then some lt_eq
    else if c == b'>' && c' == b'='
    then some gt_eq
    else if c == b'&' && c' == b'&'
    then some and_and
    else if c == b'|' && c' == b'|'
    then some or_or
    else if c == b'+' && c' == b'='
    then some plus_eq
    else if c == b'-' && c' == b'='
    then some minus_eq
    else if c == b'*' && c' == b'='
    then some star_eq
    else if c == b'/' && c' == b'='
    then some slash_eq
    else if c == b'%' && c' == b'='
    then some percent_eq
    else if c == b':' && c' == b':'
    then some colon_colon
    else if c == b'<' && c' == b'<'
    then some shl_op
    else if c == b'>' && c' == b'>'
    then some shr_op
    else none

-- The arms of `match one` that give a token.
unfoldable pub one_op : ℕ → Option TokKind
one_op c =
    if c == b'+'
    then some plus
    else if c == b'-'
    then some minus
    else if c == b'*'
    then some star
    else if c == b'/'
    then some slash
    else if c == b'%'
    then some percent
    else if c == b'&'
    then some amp
    else if c == b'|'
    then some pipe
    else if c == b'^'
    then some caret
    else if c == b'~'
    then some tilde
    else if c == b'!'
    then some bang
    else if c == b'='
    then some eq
    else if c == b'<'
    then some lt
    else if c == b'>'
    then some gt
    else if c == b'('
    then some lparen
    else if c == b')'
    then some rparen
    else if c == b'{'
    then some lbrace
    else if c == b'}'
    then some rbrace
    else if c == b'['
    then some lbracket
    else if c == b']'
    then some rbracket
    else if c == b','
    then some comma
    else if c == b';'
    then some semicolon
    else if c == b'.'
    then some dot
    else if c == b':'
    then some colon
    else none

-- An identifier or a keyword, with the bytes that were read.
unfoldable pub word : Lexer → Token × Lexer
unfolding skip_while is_ident_cont keyword
word l =
    let l' = skip_while is_ident_cont l.rest l.cursor in token (keyword (slice l l')) l.cursor l'

-- `..` and `..=`.
unfoldable pub dots : Lexer → Token × Lexer
unfolding bump_n
dots l =
    let l2 = bump_n 2 l.rest l.cursor in
    if peek l2.rest == b'='
    then token dot_dot_eq l.cursor (bump_n 1 l2.rest l2.cursor)
    else token dot_dot l.cursor l2

-- `let one = self.bump(); match one { … }`.
unfoldable pub single : Lexer → Result (Token × Lexer)
unfolding one_op
single l = do
  (c, l1) ← bump l
  elim (one_op c) [
    | some kind ↦ ok (token kind l.cursor l1)
    | none ↦
        if c == b'?'
        then fail question_mark l.cursor l1
        else fail (unexpected_character c) l.cursor l1
  ]

-- The arms that name two bytes `bump` twice.
unfoldable pub operator : Lexer → Result (Token × Lexer)
unfolding two_op dots single bump_n
operator l = elim (two_op (peek l.rest) (peek1 l.rest)) [
  | some kind ↦ ok (token kind l.cursor (bump_n 2 l.rest l.cursor))
  | none ↦ if peek l.rest == b'.' && peek1 l.rest == b'.' then ok (dots l) else single l
]

unfoldable pub next_token : Lexer → Result (Token × Lexer)
unfolding word number char_literal str_literal operator is_ident_start
next_token l =
    let c = peek l.rest in
    if is_ident_start c
    then ok (word l)
    else if is_digit c
    then number l
    else if c == 39
    then char_literal l
    else if c == b'"'
    then str_literal l
    else operator l

abbrev pub eof_token : Lexer → Token
eof_token l = record { kind = eof_kind; span = here l }

-- The loop of `tokenize`, one token for a unit of fuel; `out` is what was pushed.
unfoldable pub tokenize_loop : ℕ → List Token → Lexer → Result (List Token)
tokenize_loop zero out l = out_of_fuel
tokenize_loop (suc f) out l = do
  l1 ← skip_trivia l
  let rest = next_token l1 >>= (λ (tok, l2). tokenize_loop f (out ++ tok ∷ []) l2)
  if eof l1 then ok (out ++ eof_token l1 ∷ []) else rest

unfoldable pub tokenize : Bytes → Result (List Token)
unfolding tokenize_loop skip_trivia next_token
tokenize src = tokenize_loop (suc (length src)) [] (new src)
