-- ===== src/Lexer/Trivia.antt =====
-- crates/lexer/src/lib.rs: `skip_trivia`, blanks and comments between tokens.
use maka.Base.{
  ℕ, zero, suc, Bool, true, false, not, ◌&&◌, ◌||◌, [], ◌∷◌, Bytes, length, ◌==◌, if◌then◌else◌,
}
use maka.Lexer.Cursor.{Cursor, Lexer, peek, peek1, step, skip_while, here}
use maka.Lexer.Token.{Result, ok, err, panicked, out_of_fuel, unterminated_block_comment, ◌>>=◌}

abbrev pub is_blank : ℕ → Bool
is_blank c = c == b' ' || c == b'\t' || c == 13 || c == b'\n'

abbrev pub opens_line : Bytes → Bool
opens_line bs = peek bs == b'/' && peek1 bs == b'/'

abbrev pub opens_block : Bytes → Bool
opens_block bs = peek bs == b'/' && peek1 bs == b'*'

abbrev pub closes_block : Bytes → Bool
closes_block bs = peek bs == b'*' && peek1 bs == b'/'

-- `while !self.eof() && depth > 0 { … }` on the bytes of a block comment: the depth at the end,
-- and the lexer there.
unfoldable pub skip_block : ℕ → Bytes → Cursor → ℕ × Lexer
skip_block zero bs at = (zero, record { rest = bs; cursor = at })
skip_block (suc d) [] at = (suc d, record { rest = []; cursor = at })
skip_block (suc d) (c ∷ []) at = (suc d, record { rest = []; cursor = step c at })
skip_block (suc d) (c ∷ c' ∷ cs) at = elim (opens_block (c ∷ c' ∷ cs)) [
  | true ↦ skip_block (suc (suc d)) cs (step c' (step c at))
  | false ↦ elim (closes_block (c ∷ c' ∷ cs)) [
    | true ↦ skip_block d cs (step c' (step c at))
    | false ↦ skip_block (suc d) (c' ∷ cs) (step c at)
  ]
]

-- After the loop: `if depth != 0 { return Err(…) }`.
unfoldable pub close_block : ℕ × Lexer → Result Lexer
close_block (zero, l) = ok l
close_block (suc d, l) = err (record { msg = unterminated_block_comment; span = here l })

-- The two `bump`s past `/*`, then the loop.
unfoldable pub block_comment : Bytes → Cursor → Result Lexer
unfolding skip_block close_block
block_comment (c ∷ c' ∷ cs) at = close_block (skip_block 1 cs (step c' (step c at)))
block_comment _ at = panicked

-- One round of the outer loop for a unit of fuel.
unfoldable pub skip_trivia_loop : ℕ → Lexer → Result Lexer
skip_trivia_loop zero l = out_of_fuel
skip_trivia_loop (suc f) l =
    let l1 = skip_while is_blank l.rest l.cursor in
    let after_line = skip_trivia_loop f (skip_while (λ c. not (c == b'\n')) l1.rest l1.cursor) in
    let after_block = block_comment l1.rest l1.cursor >>= skip_trivia_loop f in
    if opens_line l1.rest then after_line else if opens_block l1.rest then after_block else ok l1

unfoldable pub skip_trivia : Lexer → Result Lexer
unfolding skip_trivia_loop block_comment skip_while step
skip_trivia l = skip_trivia_loop (suc (length l.rest)) l
