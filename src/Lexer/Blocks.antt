-- ===== src/Lexer/Blocks.antt =====
-- crates/lexer/src/lib.rs: blanks and comments described without the loops of `skip_trivia`, and its
-- loop over a block comment.
use maka.Base.{
  ℕ, zero, suc, ◌+◌, ◌≤◌, true, false, not, [], ◌∷◌, ◌++◌, ◌≡◌, refl, sym, subst, ◌⊎◌, inl, inr,
  Bytes, length, all, ◌==◌, arith, Bool-cases,
}
use maka.Lexer.Cursor.{Cursor, Lexer, peek, here}
use maka.Lexer.Position.{
  Consumes, Consumes-refl, Consumes-trans, Consumes-cons, Consumes-end, Consumes-pos,
}
use maka.Lexer.Token.{LexError, unterminated_block_comment}
use maka.Lexer.Trivia.{is_blank, opens_line, opens_block, closes_block, skip_block}

-- Inside a block comment, at a depth: `rest` begins behind the `*/` that closes the outermost.
pub data BlockEnds (rest : Bytes) : ℕ → Bytes → Type 0 where
  closed : {bs : Bytes} → bs ≡ rest → BlockEnds rest zero bs
  opens :
      {d c c' : ℕ} {cs : Bytes}
      → opens_block (c ∷ c' ∷ cs) ≡ true
      → BlockEnds rest (suc (suc d)) cs
      → BlockEnds rest (suc d) (c ∷ c' ∷ cs)
  closes :
      {d c c' : ℕ} {cs : Bytes}
      → closes_block (c ∷ c' ∷ cs) ≡ true
      → BlockEnds rest d cs
      → BlockEnds rest (suc d) (c ∷ c' ∷ cs)
  inside :
      {d c : ℕ} {cs : Bytes}
      → opens_block (c ∷ cs) ≡ false
      → closes_block (c ∷ cs) ≡ false
      → BlockEnds rest (suc d) cs
      → BlockEnds rest (suc d) (c ∷ cs)

-- A line comment's bytes up to `rest`, which begins with a newline or is the end of the source.
pub record LineEnds (rest : Bytes) (bs : Bytes) : Type 0 where
  pub body : Bytes
  pub splits : bs ≡ body ++ rest
  pub no_newline : all (λ c. not (c == b'\n')) body ≡ true
  pub stopped : (rest ≡ []) ⊎ (not (peek rest == b'\n') ≡ false)

-- Blanks and comments from `bs` up to `rest`, where a token begins or the source ends.
pub data Trivia (rest : Bytes) : Bytes → Type 0 where
  over :
      {bs : Bytes}
      → bs ≡ rest
      → (rest ≡ []) ⊎ (is_blank (peek rest) ≡ false)
      → opens_line rest ≡ false
      → opens_block rest ≡ false
      → Trivia rest bs
  blank : {c : ℕ} {cs : Bytes} → is_blank c ≡ true → Trivia rest cs → Trivia rest (c ∷ cs)
  line :
      {bs mid : Bytes} → opens_line bs ≡ true → LineEnds mid bs → Trivia rest mid → Trivia rest bs
  block :
      {c c' : ℕ} {cs mid : Bytes}
      → opens_block (c ∷ c' ∷ cs) ≡ true
      → BlockEnds mid 1 cs
      → Trivia rest mid
      → Trivia rest (c ∷ c' ∷ cs)

-- Inside a block comment, at a depth, in a source that ends before the comment does.
pub data BlockOpen : ℕ → Bytes → Type 0 where
  at_end : {d : ℕ} → BlockOpen (suc d) []
  opens :
      {d c c' : ℕ} {cs : Bytes}
      → opens_block (c ∷ c' ∷ cs) ≡ true
      → BlockOpen (suc (suc d)) cs
      → BlockOpen (suc d) (c ∷ c' ∷ cs)
  closes :
      {d c c' : ℕ} {cs : Bytes}
      → closes_block (c ∷ c' ∷ cs) ≡ true
      → BlockOpen d cs
      → BlockOpen (suc d) (c ∷ c' ∷ cs)
  inside :
      {d c : ℕ} {cs : Bytes}
      → opens_block (c ∷ cs) ≡ false
      → closes_block (c ∷ cs) ≡ false
      → BlockOpen (suc d) cs
      → BlockOpen (suc d) (c ∷ cs)

-- Blanks and comments up to a block comment that the source does not close.
pub data TriviaOpen : Bytes → Type 0 where
  blank : {c : ℕ} {cs : Bytes} → is_blank c ≡ true → TriviaOpen cs → TriviaOpen (c ∷ cs)
  line : {bs mid : Bytes} → opens_line bs ≡ true → LineEnds mid bs → TriviaOpen mid → TriviaOpen bs
  block :
      {c c' : ℕ} {cs mid : Bytes}
      → opens_block (c ∷ c' ∷ cs) ≡ true
      → BlockEnds mid 1 cs
      → TriviaOpen mid
      → TriviaOpen (c ∷ c' ∷ cs)
  unclosed :
      {c c' : ℕ} {cs : Bytes}
      → opens_block (c ∷ c' ∷ cs) ≡ true
      → BlockOpen 1 cs
      → TriviaOpen (c ∷ c' ∷ cs)

-- An error's span lies in the part of the source that `l` has before it.
pub record Inside (l : Lexer) (e : LexError) : Type 0 where
  pub begins : l.cursor.pos ≤ e.span.start
  pub ordered : e.span.start ≤ e.span.end
  pub ends : e.span.end ≤ l.cursor.pos + length l.rest

pub Inside-Consumes : {l m : Lexer} → Consumes l m → (e : LexError) → Inside m e → Inside l e
Inside-Consumes p e h = record {
  begins = omega (arith, Consumes-pos p);
  ordered = h.ordered;
  ends = omega (arith, Consumes-end p);
}

-- The error of a comment that is not closed, at the end of the source that `l` has before it.
pub record Unclosed (l : Lexer) (e : LexError) : Type 0 where
  pub end : Lexer
  pub consumes : Consumes l end
  pub at_end : end.rest ≡ []
  pub error_is : e ≡ record { msg = unterminated_block_comment; span = here end }
  pub comment : TriviaOpen l.rest

pub Unclosed-back :
    {l m : Lexer}
    → Consumes l m
    → (TriviaOpen m.rest → TriviaOpen l.rest)
    → (e : LexError) → Unclosed m e
    → Unclosed l e
Unclosed-back p k e u = record {
  end = u.end;
  consumes = Consumes-trans p u.consumes;
  at_end = u.at_end;
  error_is = u.error_is;
  comment = k u.comment;
}

pub Unclosed-Inside : {l : Lexer} (e : LexError) → Unclosed l e → Inside l e
Unclosed-Inside {l} e u = subst (Inside l) (sym u.error_is) (
    Inside-Consumes u.consumes _
      (record { begins = omega arith; ordered = omega arith; ends = omega arith }))

abbrev pub lexer : Bytes → Cursor → Lexer
lexer bs at = record { rest = bs; cursor = at }

pub skip_block-Consumes :
    (d : ℕ) (bs : Bytes) (at : Cursor) → Consumes (lexer bs at) (skip_block d bs at).1
unfolding skip_block
skip_block-Consumes zero bs at = Consumes-refl _
skip_block-Consumes (suc d) [] at = Consumes-refl _
skip_block-Consumes (suc d) (c ∷ []) at = Consumes-cons (Consumes-refl _)
skip_block-Consumes (suc d) (c ∷ c' ∷ cs) at = elim (Bool-cases (opens_block (c ∷ c' ∷ cs))) [
  | inl o ↦
      rw (o, skip_block) (Consumes-cons (Consumes-cons (skip_block-Consumes (suc (suc d)) cs _)))
  | inr o ↦
      rw (o, skip_block)
        (elim (Bool-cases (closes_block (c ∷ c' ∷ cs))) [
          | inl e ↦ rw (e, skip_block) (Consumes-cons (Consumes-cons (skip_block-Consumes d cs _)))
          | inr e ↦ rw (e, skip_block) (Consumes-cons (skip_block-Consumes (suc d) (c' ∷ cs) _))
        ])
]

abbrev pub Ends : ℕ → Bytes → ℕ × Lexer → Type 0
Ends d bs r = r.0 ≡ 0 → BlockEnds r.1.rest d bs

pub skip_block-Ends : (d : ℕ) (bs : Bytes) (at : Cursor) → Ends d bs (skip_block d bs at)
unfolding skip_block
skip_block-Ends zero bs at = λ h. closed refl
skip_block-Ends (suc d) [] at = λ h. absurd (omega arith)
skip_block-Ends (suc d) (c ∷ []) at = λ h. absurd (omega arith)
skip_block-Ends (suc d) (c ∷ c' ∷ cs) at = elim (Bool-cases (opens_block (c ∷ c' ∷ cs))) [
  | inl o ↦ rw (o, skip_block) (λ h. opens o (skip_block-Ends (suc (suc d)) cs _ h))
  | inr o ↦
      rw (o, skip_block)
        (elim (Bool-cases (closes_block (c ∷ c' ∷ cs))) [
          | inl e ↦ rw (e, skip_block) (λ h. closes e (skip_block-Ends d cs _ h))
          | inr e ↦ rw (e, skip_block) (λ h. inside o e (skip_block-Ends (suc d) (c' ∷ cs) _ h))
        ])
]

-- If the loop stops at a depth, it stops at the end of the source.
abbrev Stays : ℕ → Bytes → ℕ × Lexer → Type 0
Stays d bs r = (n : ℕ) → r.0 ≡ suc n → BlockOpen d bs × (r.1.rest ≡ [])

pub skip_block-Stays : (d : ℕ) (bs : Bytes) (at : Cursor) → Stays d bs (skip_block d bs at)
unfolding skip_block
skip_block-Stays zero bs at = λ n h. absurd (omega (arith, h))
skip_block-Stays (suc d) [] at = λ n h. (at_end, refl)
skip_block-Stays (suc d) (c ∷ []) at = λ n h. (inside (ground arith) (ground arith) at_end, refl)
skip_block-Stays (suc d) (c ∷ c' ∷ cs) at = elim (Bool-cases (opens_block (c ∷ c' ∷ cs))) [
  | inl o ↦
      rw (o, skip_block)
        (λ n h. let (b, e) = skip_block-Stays (suc (suc d)) cs _ n h in (opens o b, e))
  | inr o ↦
      rw (o, skip_block)
        (elim (Bool-cases (closes_block (c ∷ c' ∷ cs))) [
          | inl t ↦
              rw (t, skip_block)
                (λ n h. let (b, e) = skip_block-Stays d cs _ n h in (closes t b, e))
          | inr t ↦
              rw (t, skip_block)
                (λ n h. let (b, e) = skip_block-Stays (suc d) (c' ∷ cs) _ n h in (inside o t b, e))
        ])
]
