-- ===== src/Lexer/Cursor.antt =====
-- crates/lexer/src/lib.rs: the lexer's position, `peek`, `bump` and the byte classes.
use maka.Base.{
  ℕ, ◌+◌, ◌-◌, ◌%◌, Bool, true, false, ◌&&◌, ◌||◌, [], ◌∷◌, Option, none, take, some, Bytes, ◌==◌,
  leb, ltb, if◌then◌else◌,
}
use maka.Lexer.Token.{Span, Result, ok, panicked}

abbrev pub u32_mod : ℕ
u32_mod = 4294967296

-- `pos`, `line` and `col` of the source's struct; the two counters are `u32`.
pub record Cursor : Type 0 where
  pub pos : ℕ
  pub line : ℕ
  pub col : ℕ

-- The source's struct, with `src[pos..]` in the place of `src`.
pub record Lexer : Type 0 where
  pub rest : Bytes
  pub cursor : Cursor

-- `Lexer::new`.
abbrev pub new : Bytes → Lexer
new src = record { rest = src; cursor = record { pos = 0; line = 1; col = 1 } }

abbrev pub eof : Lexer → Bool
eof l = elim l.rest [ [] ↦ true | c ∷ cs ↦ false ]

-- `peek(0)` and `peek(1)`.
abbrev pub peek : Bytes → ℕ
peek [] = 0
peek (c ∷ cs) = c

abbrev pub peek1 : Bytes → ℕ
peek1 [] = 0
peek1 (c ∷ cs) = peek cs

-- What `bump` does to the position when it reads the byte `c`.
unfoldable pub step : ℕ → Cursor → Cursor
step c at =
    if c == b'\n'
    then record { pos = at.pos + 1; line = (at.line + 1) % u32_mod; col = 1 }
    else record { pos = at.pos + 1; line = at.line; col = (at.col + 1) % u32_mod }

abbrev pub bump_list : Bytes → Cursor → Result (ℕ × Lexer)
bump_list [] at = panicked
bump_list (c ∷ cs) at = ok (c, record { rest = cs; cursor = step c at })

-- `bump` indexes the slice, and panics at the end of the source.
abbrev pub bump : Lexer → Result (ℕ × Lexer)
bump l = bump_list l.rest l.cursor

-- `while pred(self.peek(0)) { self.bump(); }`, for a `pred` that is false of 0 or a loop that
-- tests for the end of the source first.
unfoldable pub skip_while : (ℕ → Bool) → Bytes → Cursor → Lexer
skip_while test [] at = record { rest = []; cursor = at }
skip_while test (c ∷ cs) at =
    if test c then skip_while test cs (step c at) else record { rest = c ∷ cs; cursor = at }

-- The bytes that such a loop reads.
unfoldable pub taken_while : (ℕ → Bool) → Bytes → Bytes
taken_while test [] = []
taken_while test (c ∷ cs) = if test c then c ∷ taken_while test cs else []

-- `here(0)`.
abbrev pub here : Lexer → Span
here l = record {
  start = l.cursor.pos;
  end = l.cursor.pos;
  line = l.cursor.line;
  col = l.cursor.col;
}

-- `span_from`: from the position where the token began to the present one.
abbrev pub span_from : Cursor → Lexer → Span
span_from from l = record { start = from.pos; end = l.cursor.pos; line = from.line; col = from.col }

abbrev pub within : ℕ → ℕ → ℕ → Bool
within lo hi c = leb lo c && leb c hi

-- `u8::is_ascii_digit`, `is_ascii_alphabetic`.
abbrev pub is_digit : ℕ → Bool
is_digit c = within b'0' b'9' c

abbrev pub is_alphabetic : ℕ → Bool
is_alphabetic c = within b'a' b'z' c || within b'A' b'Z' c

unfoldable pub is_ident_start : ℕ → Bool
is_ident_start c = is_alphabetic c || c == b'_'

unfoldable pub is_ident_cont : ℕ → Bool
is_ident_cont c = is_alphabetic c || is_digit c || c == b'_'

below_radix : ℕ → ℕ → Option ℕ
below_radix v radix = if ltb v radix then some v else none

-- `char::to_digit`.
unfoldable pub to_digit : ℕ → ℕ → Option ℕ
unfolding below_radix
to_digit c radix =
    if is_digit c
    then below_radix (c - b'0') radix
    else if within b'a' b'z' c
    then below_radix (c - b'a' + 10) radix
    else if within b'A' b'Z' c
    then below_radix (c - b'A' + 10) radix
    else none

unfoldable pub is_radix_digit : ℕ → ℕ → Bool
unfolding to_digit
is_radix_digit c radix = elim (to_digit c radix) [ none ↦ false | some d ↦ true ]

-- `src[start..pos]`, from the lexer at `start` and the lexer at `pos`.
abbrev pub slice : Lexer → Lexer → Bytes
slice from to = take (to.cursor.pos - from.cursor.pos) from.rest
