-- ===== src/Lexer/Tiling.antt =====
-- crates/lexer/src/lib.rs: what `next_token` and `tokenize` read.
use maka.Base.{
  ℕ, zero, suc, ◌<◌, true, ◌&&◌, List, [], ◌∷◌, ◌++◌, ◌≡◌, ◌≢◌, refl, sym, ◌∙◌, subst, inl, inr,
  some, Option-cases, Bytes, length, ◌==◌, arith, Bool-cases, append_assoc,
}
use maka.Lexer.Blocks.{Inside, Inside-Consumes}
use maka.Lexer.Comments.{TriviaRead, skip_trivia-Within}
use maka.Lexer.Cursor.{
  Cursor, Lexer, new, eof, step, peek, peek1, is_digit, is_ident_start, is_ident_cont,
}
use maka.Lexer.Next.{
  two_op, one_op, word, dots, single, operator, next_token, tokenize_loop, tokenize, eof_token,
}
use maka.Lexer.Number.{bump_n}
use maka.Lexer.Numerals.{number-Within, Consumes-le}
use maka.Lexer.Position.{Consumes-trans, Consumes-end, skip_while-Skips, step-pos}
use maka.Lexer.Quoted.{char_literal-Within, str_literal-Within}
use maka.Lexer.Reading.{
  Reads, bump-Within, bump_n-Consumes, Skips-progress, fail-Within, token-Reads,
}
use maka.Lexer.Token.{TokKind, Token}
use maka.Lexer.Within.{Within, returns, Within-bind, Within-if, Within-mono}

-- `next_token` on a byte that is not the end of the source.
word-Reads : (l : Lexer) → is_ident_start (peek l.rest) ≡ true → Reads l (word l)
unfolding word is_ident_start
word-Reads l h =
    let s = skip_while-Skips is_ident_cont l.rest l.cursor in
    token-Reads l _ _ s.consumes
      (Skips-progress s (unfold is_ident_cont in ground arith) (unfold is_ident_cont in refl))

single-Within : (l : Lexer) → Within (Reads l) (Inside l) (single l)
unfolding single
single-Within l = Within-bind (bump-Within _ l) (λ (c, l1) b. elim (Option-cases (one_op c)) [
  | inr (kind, e) ↦ rw e (returns (token-Reads l _ l1 b.consumes (omega (arith, b.progress))))
  | inl e ↦ rw e (
      Within-if (c == b'?') (λ _. fail-Within l _ l1 b.consumes)
        (λ _. fail-Within l _ l1 b.consumes))
])

-- Two bytes are there, since both are tested and neither test passes at the end.
bump_two : (bs : Bytes) (at : Cursor) → peek bs ≢ 0 → at.pos < (bump_n 2 bs at).cursor.pos
unfolding bump_n
bump_two [] at h = absurd (h refl)
bump_two (c ∷ []) at h = omega (arith, step-pos c at)
bump_two (c ∷ c' ∷ cs) at h = omega (arith, step-pos c at, step-pos c' (step c at))

two_op-zero : (c c' : ℕ) {kind : TokKind} → two_op c c' ≡ some kind → c ≢ 0
unfolding two_op
two_op-zero c c' e z = ground arith

dots-Reads : (l : Lexer) → peek l.rest ≢ 0 → Reads l (dots l)
unfolding dots
dots-Reads l h =
    let l2 = bump_n 2 l.rest l.cursor in
    let p = bump_n-Consumes 2 l.rest l.cursor in
    elim (Bool-cases (peek l2.rest == b'=')) [
      | inl e ↦ rw e (
          let q = bump_n-Consumes 1 l2.rest l2.cursor in
          token-Reads l _ _ (Consumes-trans p q)
            (omega (arith, bump_two l.rest l.cursor h, Consumes-le q)))
      | inr e ↦ rw e (token-Reads l _ _ p (bump_two l.rest l.cursor h))
    ]

operator-Within : (l : Lexer) → Within (Reads l) (Inside l) (operator l)
unfolding operator
operator-Within l = elim (Option-cases (two_op (peek l.rest) (peek1 l.rest))) [
  | inr (kind, e) ↦
      rw (e, operator)
        (returns (
          token-Reads l _ _ (bump_n-Consumes 2 l.rest l.cursor)
            (bump_two l.rest l.cursor (two_op-zero _ _ e))))
  | inl e ↦
      rw (e, operator)
        (Within-if (peek l.rest == b'.' && peek1 l.rest == b'.')
          (λ h. returns (dots-Reads l (ground arith))) (λ _. single-Within l))
]

-- A call of `next_token` gives a token that spans what it read, which is not empty, or an error
-- inside the source. It never runs out of fuel.
pub next_token-Within : (l : Lexer) → Within (Reads l) (Inside l) (next_token l)
unfolding next_token
next_token-Within l =
    let c = peek l.rest in
    Within-if (is_ident_start c) (λ h. returns (word-Reads l h))
      (λ _.
        Within-if (is_digit c) (λ h. number-Within l h)
          (λ _.
            Within-if (c == 39) (λ _. char_literal-Within l)
              (λ _. Within-if (c == b'"') (λ _. str_literal-Within l) (λ _. operator-Within l))))

-- The tokens from `l` on: trivia, then the end and the `Eof` token there, or a token that spans
-- the piece of source read for it, and the tokens behind it.
pub data Tiles : Lexer → List Token → Type 0 where
  at_end :
      {l m : Lexer} {t : Token} → TriviaRead l m → m.rest ≡ [] → t ≡ eof_token m → Tiles l (t ∷ [])
  next :
      {l m n : Lexer} {t : Token} {ts : List Token}
      → TriviaRead l m
      → Reads m (t, n)
      → Tiles n ts
      → Tiles l (t ∷ ts)

record Tiled (out : List Token) (l : Lexer) (r : List Token) : Type 0 where
  tokens : List Token
  appended : r ≡ out ++ tokens
  tiles : Tiles l tokens

eof→nil : (l : Lexer) → eof l ≡ true → l.rest ≡ []
eof→nil l h = ground arith

tokenize_loop-Within :
    (f : ℕ) (out : List Token) (l : Lexer)
    → length l.rest < f
    → Within (Tiled out l) (Inside l) (tokenize_loop f out l)
unfolding tokenize_loop
tokenize_loop-Within zero out l h = absurd (omega arith)
tokenize_loop-Within (suc f) out l h = Within-bind (skip_trivia-Within l) (λ l1 t.
    Within-if (eof l1)
      (λ e. returns (record {
        tokens = eof_token l1 ∷ [];
        appended = refl;
        tiles = at_end t (eof→nil l1 e) refl;
      }))
      (λ _.
        Within-bind (Within-mono (next_token-Within l1) (λ _ r. r) (Inside-Consumes t.consumes))
          (λ (tok, l2) r.
            Within-mono
              (tokenize_loop-Within f (out ++ tok ∷ []) l2 (
                omega (
                  arith,
                  r.progress,
                  Consumes-end r.consumes,
                  Consumes-end t.consumes,
                  Consumes-le t.consumes,
                )))
              (λ ts k. record {
                tokens = tok ∷ k.tokens;
                appended = k.appended ∙ append_assoc out (tok ∷ []) k.tokens;
                tiles = next t r k.tiles;
              })
              (Inside-Consumes (Consumes-trans t.consumes r.consumes)))))

-- `tokenize` on any source never runs out of fuel. When it succeeds, the tokens tile the source:
-- blanks and comments, then the piece of source that a token spans, and so on to the end, where
-- the one `Eof` token stands. When it reports an error, the error's span lies in the source.
pub tokenize-Tiles : (src : Bytes) → Within (Tiles (new src)) (Inside (new src)) (tokenize src)
unfolding tokenize
tokenize-Tiles src =
    Within-mono (tokenize_loop-Within (suc (length src)) [] (new src) (omega arith))
      (λ ts k. subst (Tiles (new src)) (sym k.appended) k.tiles) (λ _ h. h)
