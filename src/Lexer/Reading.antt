-- ===== src/Lexer/Reading.antt =====
-- crates/lexer/src/lib.rs: what a call of the lexer reads of the source.
use maka.Base.{
  ℕ, zero, suc, ◌+◌, ◌<◌, Bool, true, false, [], ◌∷◌, ◌++◌, ◌≡◌, refl, ◌⊎◌, inl, inr, Bytes, length,
  arith,
}
use maka.Lexer.Blocks.{Inside}
use maka.Lexer.Cursor.{Cursor, Lexer, bump_list, bump, step, peek, span_from}
use maka.Lexer.Number.{bump_n, token, fail}
use maka.Lexer.Position.{
  Consumes, Consumes-refl, Consumes-cons, Consumes-end, Consumes-pos, Skips, step-pos,
}
use maka.Lexer.Token.{TokKind, Token, Message, LexError}
use maka.Lexer.Within.{Within, returns, fails, panics}

-- From `l` a token was read: its span is the piece from `l` to the lexer returned, not empty.
pub record Reads (l : Lexer) (r : Token × Lexer) : Type 0 where
  pub consumes : Consumes l r.1
  pub progress : l.cursor.pos < r.1.cursor.pos
  pub span_is : r.0.span ≡ span_from l.cursor r.1

-- A byte was read.
pub record Bumps (l : Lexer) (r : ℕ × Lexer) : Type 0 where
  pub consumes : Consumes l r.1
  pub byte : l.rest ≡ r.0 ∷ r.1.rest
  pub progress : r.1.cursor.pos ≡ l.cursor.pos + 1

Consumes-byte :
    (c : ℕ) (cs : Bytes) (at : Cursor)
    → Consumes (record { rest = c ∷ cs; cursor = at }) (record { rest = cs; cursor = step c at })
Consumes-byte c cs at = Consumes-cons (Consumes-refl _)

bump_list-Within :
    (E : LexError → Type 0) (bs : Bytes) (at : Cursor)
    → Within (Bumps (record { rest = bs; cursor = at })) E (bump_list bs at)
bump_list-Within E [] at = panics
bump_list-Within E (c ∷ cs) at =
    returns (record { consumes = Consumes-byte c cs at; byte = refl; progress = step-pos c at })

pub bump-Within : (E : LexError → Type 0) (l : Lexer) → Within (Bumps l) E (bump l)
bump-Within E l = bump_list-Within E l.rest l.cursor

pub bump_n-Consumes :
    (n : ℕ) (bs : Bytes) (at : Cursor)
    → Consumes (record { rest = bs; cursor = at }) (bump_n n bs at)
unfolding bump_n
bump_n-Consumes zero bs at = Consumes-refl _
bump_n-Consumes (suc n) [] at = Consumes-refl _
bump_n-Consumes (suc n) (c ∷ cs) at = Consumes-cons (bump_n-Consumes n cs (step c at))

progress_of :
    (test : ℕ → Bool) (bytes : Bytes) {from to : Bytes}
    → from ≡ bytes ++ to
    → (to ≡ []) ⊎ (test (peek to) ≡ false)
    → test (peek from) ≡ true
    → test 0 ≡ false
    → 0 < length bytes
progress_of test [] e (inl n) h z = cc
progress_of test [] e (inr n) h z = cc
progress_of test (c ∷ cs) e _ h z = omega arith

-- A loop whose test passes at the first byte reads something.
pub Skips-progress :
    {test : ℕ → Bool} {l m : Lexer}
    → Skips test l m
    → test (peek l.rest) ≡ true
    → test 0 ≡ false
    → l.cursor.pos < m.cursor.pos
Skips-progress {test} s h z = omega (
  arith,
  Consumes-pos s.consumes,
  progress_of test s.consumes.bytes s.consumes.splits s.stopped h z,
)

-- An error whose span begins at `s`, and a token that does.
module _ (s : Lexer) where
  pub fail-Within {ℓ} :
      {A : Type ℓ} {P : A → Type 0} (msg : Message) (l : Lexer)
      → Consumes s l
      → Within P (Inside s) (fail msg s.cursor l)
  fail-Within msg l p = fails (record {
    begins = omega arith;
    ordered = omega (arith, Consumes-pos p);
    ends = omega (arith, Consumes-end p);
  })

  pub token-Reads :
      (kind : TokKind) (l : Lexer)
      → Consumes s l
      → s.cursor.pos < l.cursor.pos
      → Reads s (token kind s.cursor l)
  token-Reads kind l p h = record { consumes = p; progress = h; span_is = refl }
