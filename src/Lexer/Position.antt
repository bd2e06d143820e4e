-- ===== src/Lexer/Position.antt =====
-- crates/lexer/src/lib.rs: positions in the source, and what reading a piece of it does to them.
use maka.Base.{
  ℕ, ◌+◌, ◌-◌, ◌%◌, Bool, true, false, [], ◌∷◌, ◌++◌, ◌≡◌, refl, sym, ap, ◌∙◌, ◌⊎◌, inl, inr, Bytes,
  length, length-append, count, take-append, append_assoc, all, ◌==◌, if◌then◌else◌, arith,
  Bool-cases,
}
use maka.Lexer.Cursor.{Cursor, Lexer, u32_mod, step, skip_while, slice, peek, new}

-- The position behind a piece of source.
abbrev pub advance : Bytes → Cursor → Cursor
advance [] at = at
advance (c ∷ cs) at = advance cs (step c at)

pub advance-append :
    (xs ys : Bytes) (at : Cursor) → advance (xs ++ ys) at ≡ advance ys (advance xs at)
advance-append [] ys at = refl
advance-append (x ∷ xs) ys at = advance-append xs ys (step x at)

pub step-pos : (c : ℕ) (at : Cursor) → (step c at).pos ≡ at.pos + 1
unfolding step
step-pos c at = ground arith

pub advance-pos : (bs : Bytes) (at : Cursor) → (advance bs at).pos ≡ at.pos + length bs
advance-pos [] at = omega arith
advance-pos (c ∷ cs) at = omega (arith, advance-pos cs (step c at), step-pos c at)

step-line :
    (c : ℕ) (at : Cursor)
    → (step c at).line ≡ (if c == b'\n' then (at.line + 1) % u32_mod else at.line)
unfolding step
step-line c at = ground arith

-- How many bytes stand behind the last newline; `n` stand before the piece.
abbrev pub column : ℕ → Bytes → ℕ
column n [] = n
column n (c ∷ cs) = column (if c == b'\n' then 0 else n + 1) cs

-- The position as a function of what was read: lines and columns count from 1, modulo 2^32.
pub record IsAt (read : Bytes) (at : Cursor) : Type 0 where
  pub pos_is : at.pos ≡ length read
  pub line_is : at.line ≡ (1 + count b'\n' read) % u32_mod
  pub col_is : at.col ≡ (1 + column 0 read) % u32_mod

advance-line :
    (bs : Bytes) (at : Cursor) (n : ℕ)
    → at.line ≡ (1 + n) % u32_mod
    → (advance bs at).line ≡ (1 + (n + count b'\n' bs)) % u32_mod
advance-line [] at n h = omega arith
advance-line (c ∷ cs) at n h = elim (Bool-cases (c == b'\n')) [
  | inl e ↦ rw e (
      advance-line cs (step c at) (n + 1) (omega (arith, step-line c at, rw e at (step-line c at)))
      ∙ omega arith)
  | inr e ↦
      rw e (advance-line cs (step c at) n (omega (arith, rw e at (step-line c at))) ∙ omega arith)
]

step-col :
    (c : ℕ) (at : Cursor) (n : ℕ)
    → at.col ≡ (1 + n) % u32_mod
    → (step c at).col ≡ (1 + (if c == b'\n' then 0 else n + 1)) % u32_mod
unfolding step
step-col c at n h = ground arith

advance-col :
    (bs : Bytes) (at : Cursor) (n : ℕ)
    → at.col ≡ (1 + n) % u32_mod
    → (advance bs at).col ≡ (1 + column n bs) % u32_mod
advance-col [] at n h = h
advance-col (c ∷ cs) at n h = advance-col cs (step c at) _ (step-col c at n h)

-- The position behind a piece of source that is read from the start: its offset is the length, its line
-- counts the newlines and its column the bytes behind the last, from 1 and modulo 2^32.
pub advance-IsAt : (bs : Bytes) → IsAt bs (advance bs (new bs).cursor)
advance-IsAt bs = record {
  pos_is = omega (arith, advance-pos bs (new bs).cursor);
  line_is = omega (arith, advance-line bs (new bs).cursor 0 (omega arith));
  col_is = advance-col bs (new bs).cursor 0 (omega arith);
}

-- From `l` the lexer read a piece of the source, and stands at `l'`.
pub record Consumes (l l' : Lexer) : Type 0 where
  pub bytes : Bytes
  pub splits : l.rest ≡ bytes ++ l'.rest
  pub cursor_is : l'.cursor ≡ advance bytes l.cursor

pub Consumes-refl : (l : Lexer) → Consumes l l
Consumes-refl l = record { bytes = []; splits = refl; cursor_is = refl }

pub Consumes-trans : {l m n : Lexer} → Consumes l m → Consumes m n → Consumes l n
Consumes-trans p q = record {
  bytes = p.bytes ++ q.bytes;
  splits = rw (p.splits, q.splits) (sym (append_assoc p.bytes q.bytes _));
  cursor_is = q.cursor_is ∙ rw p.cursor_is (sym (advance-append p.bytes q.bytes _));
}

-- A byte, and what is read behind it.
pub Consumes-cons :
    {c : ℕ} {cs : Bytes} {at : Cursor} {l : Lexer}
    → Consumes (record { rest = cs; cursor = step c at }) l
    → Consumes (record { rest = c ∷ cs; cursor = at }) l
Consumes-cons {c} p = record {
  bytes = c ∷ p.bytes;
  splits = ap (◌∷◌ c) p.splits;
  cursor_is = p.cursor_is;
}

-- Where the source ends does not move.
pub Consumes-end :
    {l l' : Lexer} → Consumes l l' → l'.cursor.pos + length l'.rest ≡ l.cursor.pos + length l.rest
Consumes-end {l} {l'} p = omega (
  arith,
  ap length p.splits,
  length-append p.bytes l'.rest,
  advance-pos p.bytes l.cursor,
  ap (λ (c : Cursor). c.pos) p.cursor_is,
)

pub Consumes-pos :
    {l l' : Lexer} (p : Consumes l l') → l'.cursor.pos ≡ l.cursor.pos + length p.bytes
Consumes-pos {l} p = rw p.cursor_is (advance-pos p.bytes l.cursor)

-- The text between two positions is the piece that was read.
pub slice-Consumes : {l l' : Lexer} (p : Consumes l l') → slice l l' ≡ p.bytes
slice-Consumes {l} {l'} p =
    let e : l'.cursor.pos - l.cursor.pos ≡ length p.bytes = omega (arith, Consumes-pos p) in
    rw (e, p.splits) (take-append p.bytes l'.rest)

-- A run of bytes that pass a test, up to one that does not or to the end.
pub record Skips (test : ℕ → Bool) (l l' : Lexer) : Type 0 where
  pub consumes : Consumes l l'
  pub passed : all test consumes.bytes ≡ true
  pub stopped : (l'.rest ≡ []) ⊎ (test (peek l'.rest) ≡ false)

pub skip_while-Skips :
    (test : ℕ → Bool) (bs : Bytes) (at : Cursor)
    → Skips test (record { rest = bs; cursor = at }) (skip_while test bs at)
unfolding skip_while Consumes-refl Consumes-cons
skip_while-Skips test [] at = record {
  consumes = Consumes-refl _;
  passed = refl;
  stopped = inl refl;
}
skip_while-Skips test (c ∷ cs) at = elim (Bool-cases (test c)) [
  | inl e ↦ rw e (
      let s = skip_while-Skips test cs (step c at) in
      record { consumes = Consumes-cons s.consumes; passed = rw e s.passed; stopped = s.stopped })
  | inr e ↦ rw e (record { consumes = Consumes-refl _; passed = refl; stopped = inr e })
]
