-- ===== src/Lexer/Numerals.antt =====
-- crates/lexer/src/lib.rs: what `number` reads.
use maka.Base.{
  ℕ, ◌<◌, ◌≤◌, Bool, true, false, not, ◌||◌, ◌&&◌, List, [], ◌∷◌, ◌≡◌, refl, subst, inl, inr,
  Option, none, some, Option-cases, Bytes, length, ◌==◌, arith, Bool-cases, bytes_eq, take, drop,
}
use maka.Lexer.Blocks.{Inside}
use maka.Lexer.Cursor.{
  Lexer, peek, peek1, skip_while, slice, is_digit, is_ident_cont, is_radix_digit,
}
use maka.Lexer.Number.{
  bump_n, match_suffix, eat_width_suffix, radix_value, radix_text, radix_run, radix_digits,
  radix_of, radix_number, digits_and_underscores, eat_fraction, eat_exponent, decimal_value,
  decimal_number, is_base, number, parse_radix, is_float_text, suffixes_f, suffixes_i,
  strip_underscores,
}
use maka.Lexer.Position.{Consumes, Consumes-refl, Consumes-trans, Consumes-pos, skip_while-Skips}
use maka.Lexer.Reading.{
  Reads, bump-Within, bump_n-Consumes, Skips-progress, fail-Within, token-Reads,
}
use maka.Lexer.Within.{Within, returns, Within-bind, Within-if}

pub skip_while-Consumes :
    (test : ℕ → Bool) (l : Lexer) → Consumes l (skip_while test l.rest l.cursor)
skip_while-Consumes test l = (skip_while-Skips test l.rest l.cursor).consumes

pub Consumes-le : {l m : Lexer} → Consumes l m → l.cursor.pos ≤ m.cursor.pos
Consumes-le p = omega (arith, Consumes-pos p)

match_suffix-Consumes :
    (ss : List Bytes) (l : Lexer) {m : Lexer} → match_suffix ss l ≡ some m → Consumes l m
unfolding match_suffix
match_suffix-Consumes [] l e = absurd (cc)
match_suffix-Consumes (s ∷ ss) l e =
    elim (Bool-cases (
      bytes_eq (take (length s) l.rest) s && not (is_ident_cont (peek (drop (length s) l.rest))))) [
        | inl h ↦ subst (Consumes l) (cc (rw h at e)) (bump_n-Consumes (length s) l.rest l.cursor)
        | inr h ↦ match_suffix-Consumes ss l (rw h at e)
      ]

pub eat_width_suffix-Consumes : (l : Lexer) → Consumes l (eat_width_suffix l).1
unfolding eat_width_suffix
eat_width_suffix-Consumes l = elim (Option-cases (match_suffix suffixes_f l)) [
  | inr (m, e) ↦ rw e (match_suffix-Consumes suffixes_f l e)
  | inl e ↦ rw e (elim (Option-cases (match_suffix suffixes_i l)) [
    | inr (m, e') ↦ rw e' (match_suffix-Consumes suffixes_i l e')
    | inl e' ↦ rw e' (Consumes-refl l)
  ])
]

pub eat_fraction-Consumes : (l : Lexer) → Consumes l (eat_fraction l).1
unfolding eat_fraction
eat_fraction-Consumes l = elim (Bool-cases (peek l.rest == b'.' && is_digit (peek1 l.rest))) [
  | inl e ↦ rw e (Consumes-trans (bump_n-Consumes 1 l.rest l.cursor) (skip_while-Consumes _ _))
  | inr e ↦ rw e (Consumes-refl l)
]

pub eat_exponent-Consumes : (l : Lexer) → Consumes l (eat_exponent l).1
unfolding eat_exponent
eat_exponent-Consumes l = elim (Bool-cases (peek l.rest == b'e' || peek l.rest == b'E')) [
  | inl e ↦ rw e (
      let m = bump_n 1 l.rest l.cursor in
      Consumes-trans (bump_n-Consumes 1 l.rest l.cursor)
        (elim (Bool-cases (peek m.rest == b'+' || peek m.rest == b'-')) [
          | inl e' ↦
              rw e' (Consumes-trans (bump_n-Consumes 1 m.rest m.cursor) (skip_while-Consumes _ _))
          | inr e' ↦ rw e' (skip_while-Consumes is_digit m)
        ]))
  | inr e ↦ rw e (Consumes-refl l)
]

-- The ways a number ends, from its first byte at `s`.
module _ (s : Lexer) where
  radix_value-Within :
      (l : Lexer) (o : Option ℕ)
      → Consumes s l
      → s.cursor.pos < l.cursor.pos
      → Within (Reads s) (Inside s) (radix_value s.cursor l o)
  unfolding radix_value
  radix_value-Within l none p h = fail-Within s _ l p
  radix_value-Within l (some v) p h =
      let q = eat_width_suffix-Consumes l in
      returns (token-Reads s _ _ (Consumes-trans p q) (omega (arith, Consumes-le q)))

  radix_text-Within :
      (radix : ℕ) (bs : Bytes) (l : Lexer)
      → Consumes s l
      → s.cursor.pos < l.cursor.pos
      → Within (Reads s) (Inside s) (radix_text radix s.cursor bs l)
  unfolding radix_text
  radix_text-Within radix [] l p h = fail-Within s _ l p
  radix_text-Within radix (c ∷ cs) l p h = radix_value-Within l _ p h

  decimal_value-Within :
      (is_float : Bool) (txt : Bytes) (l : Lexer)
      → Consumes s l
      → s.cursor.pos < l.cursor.pos
      → Within (Reads s) (Inside s) (decimal_value is_float txt s.cursor l)
  unfolding decimal_value
  decimal_value-Within true txt l p h =
      Within-if (is_float_text txt) (λ _. returns (token-Reads s _ l p h))
        (λ _. fail-Within s _ l p)
  decimal_value-Within false txt l p h = elim (Option-cases (parse_radix 10 0 txt)) [
    | inl e ↦ rw (e, decimal_value) (fail-Within s _ l p)
    | inr (v, e) ↦ rw (e, decimal_value) (returns (token-Reads s _ l p h))
  ]

radix_number-Within : (l : Lexer) → Within (Reads l) (Inside l) (radix_number l.cursor l)
unfolding radix_number radix_digits
radix_number-Within l = Within-bind (bump-Within _ l) (λ (_, l1) b1.
    Within-bind (bump-Within _ l1) (λ (c, l2) b2.
      let run = skip_while-Consumes (λ d. is_radix_digit d (radix_of c) || d == b'_') l2 in
      radix_text-Within l (radix_of c) (strip_underscores (slice l2 (radix_run (radix_of c) l2))) _
        (Consumes-trans b1.consumes (Consumes-trans b2.consumes run))
        (omega (arith, b1.progress, b2.progress, Consumes-le run))))

decimal_number-Within :
    (l : Lexer) → is_digit (peek l.rest) ≡ true → Within (Reads l) (Inside l) (decimal_number l)
unfolding decimal_number
decimal_number-Within l d =
    let s = skip_while-Skips (λ c. is_digit c || c == b'_') l.rest l.cursor in
    let l1 = eat_fraction (digits_and_underscores l) in
    let l2 = eat_exponent l1.1 in
    let p1 = eat_fraction-Consumes (digits_and_underscores l) in
    let p2 = eat_exponent-Consumes l1.1 in
    let p3 = eat_width_suffix-Consumes l2.1 in
    decimal_value-Within l (l1.0 || l2.0 || (eat_width_suffix l2.1).0)
      (strip_underscores (slice l l2.1)) _
      (Consumes-trans s.consumes (Consumes-trans p1 (Consumes-trans p2 p3)))
      (omega (
        arith,
        Skips-progress s (ground arith) refl,
        Consumes-le p1,
        Consumes-le p2,
        Consumes-le p3,
      ))

pub number-Within :
    (l : Lexer) → is_digit (peek l.rest) ≡ true → Within (Reads l) (Inside l) (number l)
unfolding number
number-Within l d =
    Within-if (peek l.rest == b'0' && is_base (peek1 l.rest)) (λ _. radix_number-Within l)
      (λ _. decimal_number-Within l d)
