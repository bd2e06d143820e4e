-- ===== src/Lexer/Number.antt =====
-- crates/lexer/src/lib.rs: `number` and `eat_width_suffix`.
use maka.Base.{
  ℕ, zero, suc, ◌+◌, ◌*◌, Bool, true, false, not, ◌&&◌, ◌||◌, List, [], ◌∷◌, Option, none, some,
  Bytes, codes, bytes_eq, take, drop, filter, length, ◌==◌, ltb, if◌then◌else◌,
}
use maka.Base.Int.{as_i64, u64_mod}
use maka.Lexer.Cursor.{
  Cursor, Lexer, peek, peek1, bump, step, skip_while, span_from, is_digit, is_ident_cont, to_digit,
  is_radix_digit, slice,
}
use maka.Lexer.Token.{
  TokKind, int, float, Token, Message, missing_digits, bad_integer, bad_float, Result, ok, err,
  ◌>>=◌,
}

-- `u64::from_str_radix` on digits: none if the value does not fit.
unfoldable pub parse_radix : ℕ → ℕ → Bytes → Option ℕ
parse_radix radix acc [] = some acc
parse_radix radix acc (c ∷ cs) = elim (to_digit c radix) [
  | none ↦ none
  | some d ↦ elim (ltb (acc * radix + d) u64_mod) [
    | true ↦ parse_radix radix (acc * radix + d) cs
    | false ↦ none
  ]
]

unfoldable pub drop_digits : Bytes → Bytes
drop_digits [] = []
drop_digits (c ∷ cs) = if is_digit c then drop_digits cs else c ∷ cs

-- What `parse::<f64>` accepts of a text that begins with a digit and holds digits, at most one
-- `.`, and an exponent: there must be a digit in the exponent.
exponent_digits : Bytes → Bool
exponent_digits bs = is_digit (peek bs) && bytes_eq (drop_digits bs) []

exponent : Bytes → Bool
exponent [] = true
exponent (c ∷ cs) =
    (c == b'e' || c == b'E')
    && (if peek cs == b'+' || peek cs == b'-'
        then exponent_digits (drop 1 cs)
        else exponent_digits cs)

fraction : Bytes → Bool
fraction [] = true
fraction (c ∷ cs) = if c == b'.' then exponent (drop_digits cs) else exponent (c ∷ cs)

unfoldable pub is_float_text : Bytes → Bool
unfolding drop_digits exponent_digits exponent fraction bytes_eq
is_float_text bs = is_digit (peek bs) && fraction (drop_digits bs)

abbrev pub suffixes_f : List Bytes
suffixes_f = codes "f32" ∷ codes "f64" ∷ []

abbrev pub suffixes_i : List Bytes
suffixes_i =
    codes "i8"
    ∷ codes "i16"
    ∷ codes "i32"
    ∷ codes "i64"
    ∷ codes "isize"
    ∷ codes "u8"
    ∷ codes "u16"
    ∷ codes "u32"
    ∷ codes "u64"
    ∷ codes "usize"
    ∷ []

-- `for _ in 0..n { self.bump(); }` where the bytes are there.
unfoldable pub bump_n : ℕ → Bytes → Cursor → Lexer
bump_n zero bs at = record { rest = bs; cursor = at }
bump_n (suc n) [] at = record { rest = []; cursor = at }
bump_n (suc n) (c ∷ cs) at = bump_n n cs (step c at)

-- One of the two loops over a table of suffixes.
unfoldable pub match_suffix : List Bytes → Lexer → Option Lexer
match_suffix [] l = none
match_suffix (s ∷ rest) l =
    if bytes_eq (take (length s) l.rest) s && not (is_ident_cont (peek (drop (length s) l.rest)))
    then some (bump_n (length s) l.rest l.cursor)
    else match_suffix rest l

-- The flag tells a float suffix.
unfoldable pub eat_width_suffix : Lexer → Bool × Lexer
unfolding match_suffix bump_n bytes_eq is_ident_cont
eat_width_suffix l = elim (match_suffix suffixes_f l) [
  | some l' ↦ (true, l')
  | none ↦ elim (match_suffix suffixes_i l) [ some l' ↦ (false, l') | none ↦ (false, l) ]
]

abbrev pub is_base : ℕ → Bool
is_base c = c == b'x' || c == b'X' || c == b'b' || c == b'B' || c == b'o' || c == b'O'

abbrev pub radix_of : ℕ → ℕ
radix_of c = if c == b'x' || c == b'X' then 16 else if c == b'b' || c == b'B' then 2 else 8

abbrev pub token : TokKind → Cursor → Lexer → Token × Lexer
token kind from l = (record { kind = kind; span = span_from from l }, l)

abbrev pub fail {ℓ} : {A : Type ℓ} → Message → Cursor → Lexer → Result A
fail msg from l = err (record { msg = msg; span = span_from from l })

abbrev pub strip_underscores : Bytes → Bytes
strip_underscores = filter (λ c. not (c == b'_'))

-- The value that was parsed, or the error; the suffix is read only after a success.
unfoldable pub radix_value : Cursor → Lexer → Option ℕ → Result (Token × Lexer)
unfolding eat_width_suffix
radix_value from l none = fail bad_integer from l
radix_value from l (some v) = ok (token (int (as_i64 v)) from (eat_width_suffix l).1)

-- Hexadecimal, binary and octal, on the digits that were read; `l` stands behind them.
unfoldable pub radix_text : ℕ → Cursor → Bytes → Lexer → Result (Token × Lexer)
unfolding radix_value parse_radix
radix_text radix from [] l = fail missing_digits from l
radix_text radix from (c ∷ cs) l = radix_value from l (parse_radix radix 0 (c ∷ cs))

abbrev pub radix_run : ℕ → Lexer → Lexer
radix_run radix l = skip_while (λ c. is_radix_digit c radix || c == b'_') l.rest l.cursor

unfoldable pub radix_digits : ℕ → Cursor → Lexer → Result (Token × Lexer)
unfolding radix_text is_radix_digit skip_while
radix_digits radix from l =
    radix_text radix from (strip_underscores (slice l (radix_run radix l))) (radix_run radix l)

unfoldable pub radix_number : Cursor → Lexer → Result (Token × Lexer)
unfolding radix_digits
radix_number from l = do
  (_, l1) ← bump l
  (base_ch, l2) ← bump l1
  radix_digits (radix_of base_ch) from l2

abbrev pub digits_and_underscores : Lexer → Lexer
digits_and_underscores l = skip_while (λ c. is_digit c || c == b'_') l.rest l.cursor

-- `.` and a digit: the fraction is read.
unfoldable pub eat_fraction : Lexer → Bool × Lexer
unfolding bump_n skip_while
eat_fraction l =
    if peek l.rest == b'.' && is_digit (peek1 l.rest)
    then (true, digits_and_underscores (bump_n 1 l.rest l.cursor))
    else (false, l)

abbrev eat_sign : Lexer → Lexer
eat_sign l = if peek l.rest == b'+' || peek l.rest == b'-' then bump_n 1 l.rest l.cursor else l

abbrev eat_digits : Lexer → Lexer
eat_digits l = skip_while is_digit l.rest l.cursor

-- `e` or `E`: a sign and digits are read, if they are there.
unfoldable pub eat_exponent : Lexer → Bool × Lexer
unfolding bump_n skip_while
eat_exponent l =
    if peek l.rest == b'e' || peek l.rest == b'E'
    then (true, eat_digits (eat_sign (bump_n 1 l.rest l.cursor)))
    else (false, l)

-- The token for the text of a decimal number; `l` stands behind the suffix.
unfoldable pub decimal_value : Bool → Bytes → Cursor → Lexer → Result (Token × Lexer)
unfolding is_float_text parse_radix
decimal_value true txt from l =
    if is_float_text txt then ok (token (float txt) from l) else fail bad_float from l
decimal_value false txt from l = elim (parse_radix 10 0 txt) [
  | none ↦ fail bad_integer from l
  | some v ↦ ok (token (int (as_i64 v)) from l)
]

unfoldable pub decimal_number : Lexer → Result (Token × Lexer)
decimal_number l =
    let (with_fraction, l1) = eat_fraction (digits_and_underscores l) in
    let (with_exponent, l2) = eat_exponent l1 in
    let (float_suffix, l3) = eat_width_suffix l2 in
    decimal_value (with_fraction || with_exponent || float_suffix) (strip_underscores (slice l l2))
      l.cursor l3

unfoldable pub number : Lexer → Result (Token × Lexer)
unfolding radix_number decimal_number decimal_value eat_exponent eat_fraction eat_width_suffix
number l =
    if peek l.rest == b'0' && is_base (peek1 l.rest)
    then radix_number l.cursor l
    else decimal_number l
