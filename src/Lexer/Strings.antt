-- ===== src/Lexer/Strings.antt =====
-- crates/lexer/src/lib.rs: `str_lit` on quoted texts.
use maka.Base.{
  ℕ, suc, ◌+◌, ◌-◌, ◌≤◌, ◌<◌, Bool, true, false, ◌||◌, not, [], ◌∷◌, ◌++◌, ◌≡◌, ◌↔◌, refl, ap, sym,
  subst, ◌∙◌, Bytes, length, length-append, ◌==◌, ltb, if◌then◌else◌, all, Bool-cases, inl, inr,
  arith, append_assoc, append-nil,
}
use maka.Lexer.Cursor.{Cursor, Lexer, new, step}
use maka.Lexer.Literal.{utf8, escape, str_loop, str_literal, simple_escape}
use maka.Lexer.Next.{next_token, tokenize, tokenize_loop}
use maka.Lexer.Number.{token}
use maka.Lexer.Position.{advance, advance-append}
use maka.Lexer.Token.{str_lit, ok, panicked}
use maka.Lexer.Trivia.{skip_trivia}

-- A byte that a string literal holds as it is.
abbrev pub is_plain : ℕ → Bool
is_plain c = not (c == b'"' || c == b'\\')

-- The text of a byte in a string literal.
unfoldable pub quote_byte : ℕ → Bytes
quote_byte c = if is_plain c then c ∷ [] else b'\\' ∷ c ∷ []

unfoldable pub quote_body : Bytes → Bytes
quote_body [] = []
quote_body (c ∷ cs) = quote_byte c ++ quote_body cs

-- The text of the `String` that takes each byte as a character.
unfoldable pub chars : Bytes → Bytes
chars [] = []
chars (c ∷ cs) = utf8 c ++ chars cs

-- One quoted byte is read with a unit of fuel.
str_loop-quote_byte :
    (f c : ℕ) (from at : Cursor) (acc rest : Bytes)
    → str_loop (suc f) from acc (record { rest = quote_byte c ++ rest; cursor = at })
      ≡ str_loop f from (acc ++ utf8 c) (record { rest = rest; cursor = advance (quote_byte c) at })
unfolding str_loop quote_byte escape simple_escape
str_loop-quote_byte f c from at acc rest = ground arith

-- The loop reads a quoted text and goes on behind it.
str_loop-quote_body :
    (s : Bytes) (f : ℕ) (from at : Cursor) (acc rest : Bytes)
    → str_loop (length s + f) from acc (record { rest = quote_body s ++ rest; cursor = at })
      ≡ str_loop f from
          (acc ++ chars s)
          (record { rest = rest; cursor = advance (quote_body s) at })
unfolding quote_body chars
str_loop-quote_body [] f from at acc rest =
    let e : 0 + f ≡ f = omega arith in rw (e, append-nil) refl
str_loop-quote_body (c ∷ cs) f from at acc rest =
    let e : suc (length cs) + f ≡ suc (length cs + f) = omega arith in
    rw (e, append_assoc, str_loop-quote_byte, str_loop-quote_body cs, append_assoc, advance-append)

quote_body-length : (s : Bytes) → length s ≤ length (quote_body s)
unfolding quote_body quote_byte
quote_body-length [] = omega arith
quote_body-length (c ∷ cs) =
    ground (arith, quote_body-length cs, length-append (quote_byte c) (quote_body cs))

-- The fuel of `str_lit` pays for a quoted text and one more byte.
fuel-quote_body :
    (s rest : Bytes) → (k : ℕ) × (suc (length (quote_body s ++ rest)) ≡ length s + suc k)
fuel-quote_body s rest = (
  length (quote_body s ++ rest) - length s,
  omega (arith, quote_body-length s, length-append (quote_body s) rest),
)

abbrev pub quoted : Bytes → Bytes → Bytes
quoted s rest = b'"' ∷ (quote_body s ++ rest)

str_literal-quoted :
    (s tail : Bytes) (at : Cursor)
    → (k : ℕ) × (str_literal (record { rest = quoted s tail; cursor = at })
        ≡ str_loop
            (suc k)
            at
            (chars s)
            (record { rest = tail; cursor = advance (quote_body s) (step b'"' at) }))
unfolding str_literal
str_literal-quoted s tail at =
    let (k, e) = fuel-quote_body s tail in
    (
      k,
      ap (λ n. str_loop n at [] (record { rest = quote_body s ++ tail; cursor = step b'"' at })) e
          ∙ str_loop-quote_body s (suc k) at (step b'"' at) [] tail,
    )

next_token-str_literal :
    (bs : Bytes) (at : Cursor)
    → next_token (record { rest = b'"' ∷ bs; cursor = at })
      ≡ str_literal (record { rest = b'"' ∷ bs; cursor = at })
unfolding next_token
next_token-str_literal bs at = refl

next_token-chars :
    (s rest : Bytes) (at : Cursor)
    → next_token (record { rest = quoted s (b'"' ∷ rest); cursor = at })
      ≡ ok (
          token
            (str_lit (chars s))
            at
            (record { rest = rest; cursor = advance (quoted s (b'"' ∷ [])) at }))
next_token-chars s rest at =
    let (k, e) = str_literal-quoted s (b'"' ∷ rest) at in
    next_token-str_literal _ at ∙ e ∙ rw advance-append (unfold str_loop in refl)

abbrev pub is_ascii : ℕ → Bool
is_ascii c = ltb c 128

chars-ascii : (s : Bytes) → all is_ascii s ≡ true → chars s ≡ s
unfolding chars utf8
chars-ascii [] h = refl
chars-ascii (c ∷ cs) h = ground (arith, chars-ascii cs)

chars-length : (s : Bytes) → length s ≤ length (chars s)
unfolding chars utf8
chars-length [] = omega arith
chars-length (c ∷ cs) = ground (arith, chars-length cs, length-append (utf8 c) (chars cs))

chars-longer : (s : Bytes) → all is_ascii s ≡ false → length s < length (chars s)
unfolding chars utf8
chars-longer [] h = absurd (ground arith)
chars-longer (c ∷ cs) h = elim (Bool-cases (is_ascii c)) [
  | inl e ↦ rw e (omega (arith, chars-longer cs (rw e at h)))
  | inr e ↦ rw e (omega (arith, chars-length cs))
]

chars-changed : (s : Bytes) → chars s ≡ s → all is_ascii s ≡ true
chars-changed s e = elim (Bool-cases (all is_ascii s)) [
  | inl h ↦ h
  | inr h ↦ absurd (omega (arith, chars-longer s h, ap length e))
]

str_lit-injective :
    (a b : Bytes) (at : Cursor) (l : Lexer)
    → ok (token (str_lit a) at l) ≡ ok (token (str_lit b) at l)
    → a ≡ b
str_lit-injective a b at l e = cc

-- Quoting a text and reading the string literal gives the text back exactly if the text is ASCII, at
-- any position and before any other source; the lexer then stands behind the closing quote.
pub next_token-quoted :
    (s rest : Bytes) (at : Cursor)
    → (next_token (record { rest = quoted s (b'"' ∷ rest); cursor = at })
        ≡ ok (
            token
              (str_lit s)
              at
              (record { rest = rest; cursor = advance (quoted s (b'"' ∷ [])) at })))
      ↔ (all is_ascii s ≡ true)
next_token-quoted s rest at = (
  λ e. chars-changed s (str_lit-injective _ _ _ _ (sym (next_token-chars s rest at) ∙ e)),
  λ h.
      subst
        (λ t.
          next_token (record { rest = quoted s (b'"' ∷ rest); cursor = at })
          ≡ ok (
              token (str_lit t) at
                (record { rest = rest; cursor = advance (quoted s (b'"' ∷ [])) at })))
        (chars-ascii s h) (next_token-chars s rest at),
)

next_token-panics :
    (s : Bytes) (at : Cursor)
    → next_token (record { rest = quoted s (b'\\' ∷ []); cursor = at }) ≡ panicked
next_token-panics s at =
    let (k, e) = str_literal-quoted s (b'\\' ∷ []) at in
    next_token-str_literal _ at ∙ e ∙ (unfold str_loop escape in refl)

tokenize_loop-str_literal :
    (f : ℕ) (bs : Bytes) (at : Cursor)
    → next_token (record { rest = b'"' ∷ bs; cursor = at }) ≡ panicked
    → tokenize_loop (suc f) [] (record { rest = b'"' ∷ bs; cursor = at }) ≡ panicked
unfolding tokenize_loop skip_trivia
tokenize_loop-str_literal f bs at h = rw h

tokenize_lem : (src : Bytes) → tokenize src ≡ tokenize_loop (suc (length src)) [] (new src)
unfolding tokenize
tokenize_lem src = refl

-- A string literal whose source ends behind a backslash: `bump` indexes past the end and panics,
-- where the lexer has an error for an unterminated literal.
pub tokenize-panics : (s : Bytes) → tokenize (quoted s (b'\\' ∷ [])) ≡ panicked
tokenize-panics s = tokenize_lem _ ∙ tokenize_loop-str_literal _ _ _ (next_token-panics s _)
