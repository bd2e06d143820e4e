-- ===== src/Lexer/Literal.antt =====
-- crates/lexer/src/lib.rs: `char_lit` and `str_lit`, with the escapes that both read.
use maka.Base.{
  ℕ, zero, suc, ◌+◌, ◌*◌, ◌/◌, ◌%◌, ltb, not, [], ◌∷◌, ◌++◌, Option, none, some, Bytes, length,
  ◌==◌, if◌then◌else◌,
}
use maka.Lexer.Cursor.{Cursor, Lexer, peek, eof, bump, to_digit}
use maka.Lexer.Number.{token, fail}
use maka.Lexer.Token.{
  Token, str_lit, char_lit, invalid_hex_escape, unknown_escape, unterminated_char, expected_closing,
  unterminated_string, Result, ok, out_of_fuel, ◌>>=◌,
}

-- The one-letter escapes.
unfoldable pub simple_escape : ℕ → Option ℕ
simple_escape c =
    if c == b'n'
    then some 10
    else if c == b't'
    then some 9
    else if c == b'r'
    then some 13
    else if c == b'\\'
    then some b'\\'
    else if c == 39
    then some 39
    else if c == b'"'
    then some b'"'
    else if c == b'0'
    then some 0
    else none

pub hex_pair : Option ℕ → Option ℕ → Option ℕ
hex_pair (some a) (some b) = some (a * 16 + b)
hex_pair _ _ = none

unfoldable pub hex_escape : Cursor → Lexer → Result (ℕ × Lexer)
unfolding hex_pair to_digit
hex_escape from l = do
  (h1, l1) ← bump l
  (h2, l2) ← bump l1
  elim (hex_pair (to_digit h1 16) (to_digit h2 16)) [
    | some v ↦ ok (v, l2)
    | none ↦ fail invalid_hex_escape from l2
  ]

-- `match esc { … }`, behind the backslash; `from` is where the literal begins.
unfoldable pub escape : Cursor → Lexer → Result (ℕ × Lexer)
unfolding simple_escape hex_escape
escape from l = do
  (esc, l1) ← bump l
  elim (simple_escape esc) [
    | some c ↦ ok (c, l1)
    | none ↦ if esc == b'x' then hex_escape from l1 else fail (unknown_escape esc) from l1
  ]

-- The character between the quotes.
unfoldable pub char_value : Cursor → Lexer → Result (ℕ × Lexer)
unfolding escape
char_value from l =
    if peek l.rest == b'\\'
    then bump l >>= (λ (_, l1). escape from l1)
    else if peek l.rest == 0
    then fail unterminated_char from l
    else bump l

unfoldable pub close_char : Cursor → ℕ → Lexer → Result (Token × Lexer)
close_char from c l =
    if not (peek l.rest == 39)
    then fail expected_closing from l
    else bump l >>= (λ (_, l1). ok (token (char_lit c) from l1))

unfoldable pub char_literal : Lexer → Result (Token × Lexer)
unfolding char_value close_char
char_literal l = do (_, l1) ← bump l; (c, l2) ← char_value l.cursor l1; close_char l.cursor c l2

-- `String::push` of the character with the number `c`, which is below 256 here: what it adds in UTF-8.
unfoldable pub utf8 : ℕ → Bytes
utf8 c = if ltb c 128 then c ∷ [] else (192 + c / 64) ∷ (128 + c % 64) ∷ []

-- The loop of `str_lit`, one character for a unit of fuel; `s` is what was read.
unfoldable pub str_loop : ℕ → Cursor → Bytes → Lexer → Result (Token × Lexer)
unfolding utf8
str_loop zero from s l = out_of_fuel
str_loop (suc f) from s l =
    let closed = bump l >>= (λ (_, l1). ok (token (str_lit s) from l1)) in
    let escaped =
      bump l >>= (λ (_, l1). escape from l1 >>= (λ (ch, l2). str_loop f from (s ++ utf8 ch) l2)) in
    let plain = bump l >>= (λ (c, l1). str_loop f from (s ++ utf8 c) l1) in
    if eof l
    then fail unterminated_string from l
    else if peek l.rest == b'"'
    then closed
    else if peek l.rest == b'\\'
    then escaped
    else plain

unfoldable pub str_literal : Lexer → Result (Token × Lexer)
unfolding str_loop escape
str_literal l = do (_, l1) ← bump l; str_loop (suc (length l1.rest)) l.cursor [] l1
