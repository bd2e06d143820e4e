-- ===== src/Lexer/Spans.antt =====
-- crates/lexer/src/lib.rs: what a token's span says of the place of its text in the source.
use maka.Base.{◌+◌, ◌%◌, List, [], ◌∷◌, ◌++◌, ◌≡◌, ap, ◌∙◌, Bytes, length, count, arith}
use maka.Lexer.Cursor.{Lexer, new, u32_mod}
use maka.Lexer.Next.{tokenize}
use maka.Lexer.Position.{
  column, Consumes, Consumes-refl, Consumes-trans, Consumes-pos, IsAt, advance-IsAt,
}
use maka.Lexer.Reading.{Reads}
use maka.Lexer.Tiling.{Tiles, at_end, next, tokenize-Tiles}
use maka.Lexer.Token.{Span, Token, ok}
use maka.Lexer.Within.{Within-ok}

abbrev pub All {ℓ κ} : {A : Type ℓ} → (A → Type κ) → List A → Type κ
All P [] = Unit
All P (x ∷ xs) = P x × All P xs

-- A span is the place of `text` in the source: byte offsets, and the line and column, from 1 and
-- modulo 2^32, of the first byte.
pub record Located (src : Bytes) (s : Span) : Type 0 where
  pub before : Bytes
  pub text : Bytes
  pub after : Bytes
  pub splits : src ≡ before ++ (text ++ after)
  pub start_is : s.start ≡ length before
  pub end_is : s.end ≡ length before + length text
  pub line_is : s.line ≡ (1 + count b'\n' before) % u32_mod
  pub col_is : s.col ≡ (1 + column 0 before) % u32_mod

Consumes-IsAt : {src : Bytes} {l : Lexer} (p : Consumes (new src) l) → IsAt p.bytes l.cursor
Consumes-IsAt p = rw p.cursor_is (advance-IsAt p.bytes)

Reads-Located :
    {src : Bytes} {l : Lexer} {t : Token} {n : Lexer}
    → Consumes (new src) l
    → Reads l (t, n)
    → Located src t.span
Reads-Located {src} {l} {t} {n} p r =
    let at = Consumes-IsAt p in
    rw r.span_is (record {
      before = p.bytes;
      text = r.consumes.bytes;
      after = n.rest;
      splits = p.splits ∙ ap (◌++◌ p.bytes) r.consumes.splits;
      start_is = at.pos_is;
      end_is = omega (arith, at.pos_is, Consumes-pos r.consumes);
      line_is = at.line_is;
      col_is = at.col_is;
    })

Tiles-Located :
    {src : Bytes} {l : Lexer} {ts : List Token}
    → Consumes (new src) l
    → Tiles l ts
    → All (λ t. Located src t.span) ts
Tiles-Located p (at_end {l} {m} t e tok) =
    let q = Consumes-trans p t.consumes in
    let at = Consumes-IsAt q in
    (
      rw tok (record {
        before = q.bytes;
        text = [];
        after = m.rest;
        splits = q.splits;
        start_is = at.pos_is;
        end_is = omega (arith, at.pos_is);
        line_is = at.line_is;
        col_is = at.col_is;
      }),
      tt,
    )
Tiles-Located p (next t r rest) =
    let q = Consumes-trans p t.consumes in
    (Reads-Located q r, Tiles-Located (Consumes-trans q r.consumes) rest)

-- When `tokenize` succeeds, every token's span is the place of a piece of the source: its byte
-- offsets, and the line and the column of its first byte.
pub tokenize-Located :
    (src : Bytes) (ts : List Token) → tokenize src ≡ ok ts → All (λ t. Located src t.span) ts
tokenize-Located src ts e =
    Tiles-Located (Consumes-refl (new src)) (Within-ok (tokenize-Tiles src) e)
