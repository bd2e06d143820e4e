-- ===== src/Tests/Lexing.antt =====
-- crates/lexer/src/lib.rs on concrete sources.
use maka.Base.{List, [], ◌∷◌, ◌≡◌, refl, codes, map}
use maka.Base.Int.{pos}
use maka.Lexer.Next.{tokenize}
use maka.Lexer.Token.{
  TokKind, Token, Result, ok, int, float, ident, mut_kw, eq, semicolon, eof, ◌>>=◌, str_lit,
  char_lit, slash_eq,
}

kinds : Result (List Token) → Result (List TokKind)
kinds r = r >>= (λ ts. ok (map (λ t. t.kind) ts))

declaration :
    kinds (tokenize (codes "mut int x = 0x2A_u8; /* a /* b */ */ y /= 1_000.5e3f32 // end"))
    ≡ ok (
        mut_kw
        ∷ ident (codes "int")
        ∷ ident (codes "x")
        ∷ eq
        ∷ int (pos 42)
        ∷ semicolon
        ∷ ident (codes "y")
        ∷ slash_eq
        ∷ float (codes "1000.5e3")
        ∷ eof
        ∷ [])
unfolding kinds tokenize
declaration = refl

literals :
    kinds (tokenize (codes "\"a\\n\\x41\" '\\''"))
    ≡ ok (str_lit (codes "a\nA") ∷ char_lit 39 ∷ eof ∷ [])
unfolding kinds tokenize
literals = refl
