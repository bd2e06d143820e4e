-- ===== src/Tests/Parsing.antt =====
-- crates/parser/src/lib.rs on concrete tokens.
use maka.Base.{ℕ, suc, false, true, [], ◌∷◌, ◌≡◌, refl, inl, codes, map, arith}
use maka.Base.Int.{pos}
use maka.Ast.Types.{mut, mul, sub, and, neg}
use maka.Lexer.Token.{
  extern_kw, str_lit, const_kw, star, comma, dot_dot, dot, Span, Token, TokKind, ident, int, lt,
  shr_op, eof, lparen, rparen, semicolon, eq, lbracket, rbracket,
}
use maka.Parser.Agrees.{parse_type-print, looks_like_decl-print}
use maka.Parser.TypeTokens.{Gives}
use maka.Parser.ExprEnds.{parser-Total}
use maka.Parser.Formula.{
  Formula, operand, chain, link, done, number, truth, parens, formula_tokens, tree, rank, level,
}
use maka.Parser.Precedence.{parse_expr-formula}
use maka.Parser.ImplEnds.{parse_item-Total}
use maka.Parser.Impls.{item_here}
use maka.Parser.Exprs.{expr_here, block_here, stmt_here}
use maka.Parser.Grammar.{
  Ty, path, applied, ref, array, one, more as also, tok, print, meaning, need,
}
use maka.Parser.Kind.{discriminant}
use maka.Parser.Post.{Total}
use maka.Parser.Progress.{last, more}
use maka.Parser.Skim.{skim_all, looks_like_decl, after}
use maka.Parser.SkimEnds.{Skims, skim_all-Skims}
use maka.Parser.State.{Build, State, state, parsed}
use maka.Parser.Types.{parse_type}

abbrev built : Build
built = record { overflow_checks = true; expr_size = 128 }

abbrev here : Span
here = record { start = 0; end = 0; line = 1; col = 1 }

abbrev on : TokKind → Token
on k = tok k here

-- `Map<&mut key, [4]Node>`.
abbrev map_type : Ty
map_type =
    applied (codes "Map") here
      (also (ref mut (path (codes "key") here []) here)
        (one (array (pos 4) (path (codes "Node") here []) here)))
      []

-- `v[a < f(2)];` and the end.
abbrev statement : State
statement = state [] (
    on (ident (codes "v"))
    ∷ on lbracket
    ∷ on (ident (codes "a"))
    ∷ on lt
    ∷ on (ident (codes "f"))
    ∷ on lparen
    ∷ on (int (pos 2))
    ∷ on rparen
    ∷ on rbracket
    ∷ on semicolon
    ∷ on eof
    ∷ [])

parser-Total_example :
    Total statement (expr_here built [] [] statement)
    × Total statement (block_here built [] [] statement)
    × Total statement (stmt_here built [] [] statement)
parser-Total_example =
    parser-Total built [] [] statement
      (more (more (more (more (more (more (more (more (more (more (last refl)))))))))))

parse_type-print_example :
    Gives
      (parse_type built [] [] 40 (state [] (print map_type (on (ident (codes "m")) ∷ on eof ∷ []))))
      (meaning map_type)
      (on (ident (codes "m")) ∷ on eof ∷ [])
    × (skim_all
          (map (λ (t : Token). t.kind) (print map_type (on (ident (codes "m")) ∷ on eof ∷ [])))
        ≡ after (ident (codes "m") ∷ eof ∷ []))
unfolding need discriminant
parse_type-print_example =
    parse_type-print built [] [] map_type 40 (on (ident (codes "m"))) (on eof ∷ []) [] (omega arith)
      (refl, refl, refl)

looks_like_decl-print_example :
    looks_like_decl (state [] (print map_type (on (ident (codes "m")) ∷ on eq ∷ on eof ∷ [])))
    ≡ parsed true (state [] (print map_type (on (ident (codes "m")) ∷ on eq ∷ on eof ∷ [])))
looks_like_decl-print_example =
    looks_like_decl-print map_type (codes "m") here (on eq) (on eof ∷ []) [] (inl refl)

skim_all-Skims_example : Skims 6 (
    skim_all
      (ident (codes "Vec") ∷ lt ∷ ident (codes "Vec") ∷ lt ∷ ident (codes "int") ∷ shr_op ∷ []))
skim_all-Skims_example =
    skim_all-Skims
      (ident (codes "Vec") ∷ lt ∷ ident (codes "Vec") ∷ lt ∷ ident (codes "int") ∷ shr_op ∷ [])

abbrev raised : {n : ℕ} → Formula n → Formula (suc n)
raised g = chain g done

abbrev truths : Formula 10
unfolding level
truths = raised (
    chain
      (raised (
        raised
          (raised (raised (raised (raised (raised (raised (operand [] (truth true here))))))))))
      (link and refl here
        (raised (
          raised
            (raised (raised (raised (raised (raised (raised (operand [] (truth false here))))))))))
        done))

-- `1 - 2 * -3 - (true && false)`, up to the level of a sum, and up to the whole.
abbrev sum : Formula 2
unfolding level
sum = chain (chain (operand [] (number (pos 1) here)) done) (
    link sub refl here
      (chain (operand [] (number (pos 2) here))
        (link mul refl here (operand ((neg, here) ∷ []) (number (pos 3) here)) done))
      (link sub refl here (chain (operand [] (parens truths here)) done) done))

abbrev formula : Formula 10
formula = raised (raised (raised (raised (raised (raised (raised (raised sum)))))))

parse_expr-formula_example :
    Gives
      (expr_here built [] [] (state [] (formula_tokens formula (on semicolon ∷ on eof ∷ []))))
      (tree formula)
      (on semicolon ∷ on eof ∷ [])
unfolding rank
parse_expr-formula_example =
    parse_expr-formula built [] [] formula (on semicolon) (on eof ∷ []) [] (omega arith)

-- `extern "puts" int put(*const u8 text, ...);`, where `...` is `..` and `.`.
abbrev declaration : State
declaration = state [] (
    on extern_kw
    ∷ on (str_lit (codes "puts"))
    ∷ on (ident (codes "int"))
    ∷ on (ident (codes "put"))
    ∷ on lparen
    ∷ on star
    ∷ on const_kw
    ∷ on (ident (codes "u8"))
    ∷ on (ident (codes "text"))
    ∷ on comma
    ∷ on dot_dot
    ∷ on dot
    ∷ on rparen
    ∷ on semicolon
    ∷ on eof
    ∷ [])

parse_item-Total_example : Total declaration (item_here built [] [] declaration)
parse_item-Total_example = parse_item-Total built [] [] declaration (
    more (
      more (
        more (
          more (more (more (more (more (more (more (more (more (more (more (last refl)))))))))))))))
