-- ===== src/Lexer/Digits.antt =====
-- crates/lexer/src/lib.rs: the value of a decimal literal, with the 64-bit bound.
use maka.Base.{
  ℕ, suc, ◌+◌, ◌-◌, ◌*◌, ◌≤◌, ◌<◌, Bool, true, false, ◌||◌, ◌&&◌, List, [], ◌∷◌, ◌++◌, ◌≡◌, refl,
  sym, ◌∙◌, inl, inr, none, some, Bytes, length, all, ◌==◌, ltb, lt→ltb, ltb→lt, if◌then◌else◌,
  arith, Bool-cases, take-append, take, bytes_eq,
}
use maka.Base.Int.{as_i64, u64_mod}
use maka.Lexer.Cursor.{
  Lexer, Cursor, step, skip_while, is_ident_cont, is_digit, peek, peek1, to_digit, slice,
}
use maka.Lexer.Number.{
  token, fail, number, parse_radix, decimal_number, decimal_value, eat_width_suffix, match_suffix,
  suffixes_f, suffixes_i, eat_fraction, eat_exponent, is_base, strip_underscores,
}
use maka.Lexer.Position.{advance, advance-pos}
use maka.Lexer.Token.{Token, Result, int, bad_integer, ok}

-- The number that digits write, most significant first, behind the value `acc`.
unfoldable pub digits_value : ℕ → Bytes → ℕ
digits_value acc [] = acc
digits_value acc (c ∷ cs) = digits_value (acc * 10 + (c - b'0')) cs

digits_value_mono : (cs : Bytes) (acc : ℕ) → acc ≤ digits_value acc cs
unfolding digits_value
digits_value_mono [] acc = omega arith
digits_value_mono (c ∷ cs) acc = omega (arith, digits_value_mono cs (acc * 10 + (c - b'0')))

to_digit-digit : (c : ℕ) → is_digit c ≡ true → to_digit c 10 ≡ some (c - b'0')
unfolding to_digit
to_digit-digit c h = ground arith

too_big :
    (cs : Bytes) (n : ℕ)
    → ltb n u64_mod ≡ false
    → (if ltb (digits_value n cs) u64_mod then some (digits_value n cs) else none) ≡ none
too_big cs n h = ground (arith, digits_value_mono cs n)

parse_radix-digit :
    (c acc : ℕ) (cs : Bytes)
    → is_digit c ≡ true
    → parse_radix 10 acc (c ∷ cs) ≡ (
        if ltb (acc * 10 + (c - b'0')) u64_mod
        then parse_radix 10 (acc * 10 + (c - b'0')) cs
        else none)
unfolding parse_radix
parse_radix-digit c acc cs h = rw (to_digit-digit c h, parse_radix) (ground arith)

-- `parse::<u64>` on decimal digits: the number they write, exactly if it is below 2^64.
pub parse_radix-digits :
    (cs : Bytes) (acc : ℕ)
    → all is_digit cs ≡ true
    → acc < u64_mod
    → parse_radix 10 acc cs
      ≡ (if ltb (digits_value acc cs) u64_mod then some (digits_value acc cs) else none)
unfolding digits_value
parse_radix-digits [] acc h lt = rw (lt→ltb _ _ lt) (unfold parse_radix in refl)
parse_radix-digits (c ∷ cs) acc h lt =
    let next = acc * 10 + (c - b'0') in
    parse_radix-digit c acc cs (ground arith) ∙ elim (Bool-cases (ltb next u64_mod)) [
      | inl e ↦ rw e (parse_radix-digits cs next (ground arith) (ltb→lt _ _ e))
      | inr e ↦ rw e (sym (too_big cs next e))
    ]

abbrev pub lexer : Bytes → Cursor → Lexer
lexer bs at = record { rest = bs; cursor = at }

skip_while-append :
    (test : ℕ → Bool) (bs rest : Bytes) (at : Cursor)
    → all test bs ≡ true
    → test (peek rest) ≡ false
    → skip_while test (bs ++ rest) at ≡ lexer rest (advance bs at)
unfolding skip_while
skip_while-append test [] [] at h z = refl
skip_while-append test [] (c ∷ rest) at h z = rw z
skip_while-append test (c ∷ cs) rest at h z =
    ground (arith, skip_while-append test cs rest (step c at))

-- What stands behind a decimal literal that has no fraction, exponent or suffix.
pub record EndsDigits (rest : Bytes) : Type 0 where
  pub no_word : is_ident_cont (peek rest) ≡ false
  pub no_fraction : (peek rest == b'.' && is_digit (peek1 rest)) ≡ false

suffix_differs :
    (c : ℕ) (s bs : Bytes)
    → is_ident_cont c ≡ true
    → is_ident_cont (peek bs) ≡ false
    → bytes_eq (take (suc (length s)) bs) (c ∷ s) ≡ false
unfolding bytes_eq
suffix_differs c s [] hc h = refl
suffix_differs c s (b ∷ bs) hc h = ground arith

abbrev begins_word : Bytes → Bool
begins_word [] = false
begins_word (c ∷ cs) = is_ident_cont c

match_suffix-none :
    (ss : List Bytes) (l : Lexer)
    → all begins_word ss ≡ true
    → is_ident_cont (peek l.rest) ≡ false
    → match_suffix ss l ≡ none
unfolding match_suffix
match_suffix-none [] l hs h = refl
match_suffix-none ([] ∷ ss) l hs h = absurd (ground arith)
match_suffix-none ((c ∷ s) ∷ ss) l hs h =
    rw (suffix_differs c s l.rest (ground arith) h) (match_suffix-none ss l (ground arith) h)

eat_width_suffix-none :
    (l : Lexer) → is_ident_cont (peek l.rest) ≡ false → eat_width_suffix l ≡ (false, l)
unfolding eat_width_suffix
eat_width_suffix-none l h = rw (
  match_suffix-none suffixes_f l (unfold is_ident_cont in refl) h,
  match_suffix-none suffixes_i l (unfold is_ident_cont in refl) h,
)

eat_fraction-none : (l : Lexer) → EndsDigits l.rest → eat_fraction l ≡ (false, l)
unfolding eat_fraction
eat_fraction-none l e = rw e.no_fraction

eat_exponent-none : (l : Lexer) → is_ident_cont (peek l.rest) ≡ false → eat_exponent l ≡ (false, l)
unfolding eat_exponent is_ident_cont
eat_exponent-none l h = ground arith

strip-digits : (ds : Bytes) → all is_digit ds ≡ true → strip_underscores ds ≡ ds
strip-digits [] h = refl
strip-digits (c ∷ cs) h = ground (arith, strip-digits cs)

all-digits : (ds : Bytes) → all is_digit ds ≡ true → all (λ c. is_digit c || c == b'_') ds ≡ true
all-digits [] h = refl
all-digits (c ∷ cs) h = ground (arith, all-digits cs)

-- The token for the digits `ds` from `from`, or the error; `l` stands behind them.
abbrev pub parsed : Bytes → Cursor → Lexer → Result (Token × Lexer)
parsed ds from l =
    if ltb (digits_value 0 ds) u64_mod
    then ok (token (int (as_i64 (digits_value 0 ds))) from l)
    else fail bad_integer from l

decimal_value-digits :
    (ds : Bytes) (from : Cursor) (l : Lexer)
    → all is_digit ds ≡ true
    → decimal_value false ds from l ≡ parsed ds from l
decimal_value-digits ds from l h = elim (Bool-cases (ltb (digits_value 0 ds) u64_mod)) [
  | inl e ↦ rw e (
      unfold decimal_value in rw (rw e at (parse_radix-digits ds 0 h (omega arith)), decimal_value))
  | inr e ↦ rw e (
      unfold decimal_value in rw (rw e at (parse_radix-digits ds 0 h (omega arith)), decimal_value))
]

slice-append :
    (ds rest : Bytes) (at : Cursor)
    → slice (lexer (ds ++ rest) at) (lexer rest (advance ds at)) ≡ ds
slice-append ds rest at =
    let e : (advance ds at).pos - at.pos ≡ length ds = omega (arith, advance-pos ds at) in
    rw e (take-append ds rest)

digit_or_underscore : (c : ℕ) → is_ident_cont c ≡ false → (is_digit c || c == b'_') ≡ false
unfolding is_ident_cont
digit_or_underscore c h = ground arith

decimal_number-digits :
    (ds rest : Bytes) (at : Cursor)
    → all is_digit ds ≡ true
    → EndsDigits rest
    → decimal_number (lexer (ds ++ rest) at) ≡ parsed ds at (lexer rest (advance ds at))
unfolding decimal_number
decimal_number-digits ds rest at h e =
    let l = lexer rest (advance ds at) in
    rw
      (
        skip_while-append _ ds rest at (all-digits ds h)
            (digit_or_underscore (peek rest) e.no_word),
        eat_fraction-none l e,
        eat_exponent-none l e.no_word,
        eat_width_suffix-none l e.no_word,
        slice-append ds rest at,
        strip-digits ds h,
      )
      (decimal_value-digits ds at l h)

no_base :
    (c : ℕ) (cs rest : Bytes)
    → all is_digit (c ∷ cs) ≡ true
    → is_ident_cont (peek rest) ≡ false
    → (c == b'0' && is_base (peek (cs ++ rest))) ≡ false
unfolding is_ident_cont
no_base c [] rest h n = ground arith
no_base c (d ∷ cs) rest h n = ground arith

number_lem :
    (l : Lexer)
    → (peek l.rest == b'0' && is_base (peek1 l.rest)) ≡ false
    → number l ≡ decimal_number l
unfolding number
number_lem l h = rw h

-- Decimal digits, with no fraction, exponent or suffix behind them, read as the number that they
-- write, as a bit pattern in 64 signed bits, exactly when it is below 2^64; otherwise they are an
-- error. Either way the token or the error spans the digits.
pub number-digits :
    (c : ℕ) (cs rest : Bytes) (at : Cursor)
    → all is_digit (c ∷ cs) ≡ true
    → EndsDigits rest
    → number (lexer (c ∷ (cs ++ rest)) at) ≡ parsed (c ∷ cs) at (lexer rest (advance (c ∷ cs) at))
number-digits c cs rest at h e =
    number_lem (lexer (c ∷ (cs ++ rest)) at) (no_base c cs rest h e.no_word)
    ∙ decimal_number-digits (c ∷ cs) rest at h e
