-- ===== src/Lexer/Quoted.antt =====
-- crates/lexer/src/lib.rs: what `char_lit` and `str_lit` read.
use maka.Base.{ℕ, zero, suc, ◌<◌, not, [], ◌++◌, inl, inr, Option-cases, Bytes, length, ◌==◌, arith}
use maka.Lexer.Blocks.{Inside}
use maka.Lexer.Cursor.{Lexer, eof, peek, to_digit}
use maka.Lexer.Literal.{
  utf8, simple_escape, hex_pair, hex_escape, escape, char_value, close_char, char_literal, str_loop,
  str_literal,
}
use maka.Lexer.Numerals.{Consumes-le}
use maka.Lexer.Position.{Consumes, Consumes-trans, Consumes-end}
use maka.Lexer.Reading.{Reads, bump-Within, fail-Within, token-Reads}
use maka.Lexer.Within.{Within, returns, Within-bind, Within-if, Within-mono}

-- A character was read behind `l`.
record Moves (s l : Lexer) (r : ℕ × Lexer) : Type 0 where
  consumes : Consumes s r.1
  progress : l.cursor.pos < r.1.cursor.pos

-- Literals that begin at `s`.
module _ (s : Lexer) where
  hex_escape-Within :
      (l : Lexer) → Consumes s l → Within (Moves s l) (Inside s) (hex_escape s.cursor l)
  unfolding hex_escape
  hex_escape-Within l p = Within-bind (bump-Within _ l) (λ (h1, l1) b1.
      Within-bind (bump-Within _ l1) (λ (h2, l2) b2.
        let q = Consumes-trans p (Consumes-trans b1.consumes b2.consumes) in
        elim (Option-cases (hex_pair (to_digit h1 16) (to_digit h2 16))) [
          | inl e ↦ rw e (fail-Within s _ l2 q)
          | inr (v, e) ↦ rw e (
              returns (record { consumes = q; progress = omega (arith, b1.progress, b2.progress) }))
        ]))

  escape-Within : (l : Lexer) → Consumes s l → Within (Moves s l) (Inside s) (escape s.cursor l)
  unfolding escape
  escape-Within l p = Within-bind (bump-Within _ l) (λ (c, l1) b1.
      let q = Consumes-trans p b1.consumes in
      elim (Option-cases (simple_escape c)) [
        | inr (v, e) ↦
            rw e (returns (record { consumes = q; progress = omega (arith, b1.progress) }))
        | inl e ↦ rw e (
            Within-if (c == b'x')
              (λ _.
                Within-mono (hex_escape-Within l1 q)
                  (λ r m. record {
                    consumes = m.consumes;
                    progress = omega (arith, b1.progress, m.progress);
                  })
                  (λ _ h. h))
              (λ _. fail-Within s _ l1 q))
      ])

  char_value-Within :
      (l : Lexer) → Consumes s l → Within (λ r. Consumes s r.1) (Inside s) (char_value s.cursor l)
  unfolding char_value
  char_value-Within l p =
      Within-if (peek l.rest == b'\\')
        (λ _. Within-bind (bump-Within _ l) (λ (_, l1) b.
          Within-mono (escape-Within l1 (Consumes-trans p b.consumes)) (λ r m. m.consumes)
            (λ _ h. h)))
        (λ _.
          Within-if (peek l.rest == 0) (λ _. fail-Within s _ l p)
            (λ _. Within-mono (bump-Within _ l) (λ r b. Consumes-trans p b.consumes) (λ _ h. h)))

  close_char-Within :
      (c : ℕ) (l : Lexer) → Consumes s l → Within (Reads s) (Inside s) (close_char s.cursor c l)
  unfolding close_char
  close_char-Within c l p =
      Within-if (not (peek l.rest == 39)) (λ _. fail-Within s _ l p)
        (λ _. Within-bind (bump-Within _ l) (λ (_, l1) b. returns (
          token-Reads s _ l1 (Consumes-trans p b.consumes)
            (omega (arith, b.progress, Consumes-le p)))))

  str_loop-Within :
      (f : ℕ) (acc : Bytes) (l : Lexer)
      → length l.rest < f
      → Consumes s l
      → Within (Reads s) (Inside s) (str_loop f s.cursor acc l)
  unfolding str_loop
  str_loop-Within zero acc l h p = absurd (omega arith)
  str_loop-Within (suc f) acc l h p =
      Within-if (eof l) (λ _. fail-Within s _ l p)
        (λ _.
          Within-if (peek l.rest == b'"')
            (λ _. Within-bind (bump-Within _ l) (λ (_, l1) b. returns (
              token-Reads s _ l1 (Consumes-trans p b.consumes)
                (omega (arith, b.progress, Consumes-le p)))))
            (λ _.
              Within-if (peek l.rest == b'\\')
                (λ _. Within-bind (bump-Within _ l) (λ (_, l1) b.
                  Within-bind (escape-Within l1 (Consumes-trans p b.consumes)) (λ (ch, l2) m.
                    str_loop-Within f (acc ++ utf8 ch) l2
                      (omega
                        (arith, b.progress, m.progress, Consumes-end p, Consumes-end m.consumes))
                      m.consumes)))
                (λ _. Within-bind (bump-Within _ l) (λ (c, l1) b.
                  str_loop-Within f (acc ++ utf8 c) l1
                    (omega (arith, b.progress, Consumes-end b.consumes))
                    (Consumes-trans p b.consumes)))))

pub char_literal-Within : (l : Lexer) → Within (Reads l) (Inside l) (char_literal l)
unfolding char_literal
char_literal-Within l = Within-bind (bump-Within _ l) (λ (_, l1) b.
    Within-bind (char_value-Within l l1 b.consumes) (λ (c, l2) p. close_char-Within l c l2 p))

pub str_literal-Within : (l : Lexer) → Within (Reads l) (Inside l) (str_literal l)
unfolding str_literal
str_literal-Within l =
    Within-bind (bump-Within _ l)
      (λ (_, l1) b. str_loop-Within l (suc (length l1.rest)) [] l1 (omega arith) b.consumes)
