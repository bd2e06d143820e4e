-- ===== src/Parser/ExprEnds.antt =====
-- crates/parser/src/lib.rs: expressions, statements and blocks keep within their fuel and within the
-- tokens.
use maka.Base.{ℕ, zero, suc, ◌+◌, arith}
use maka.Base.Int.{ℤ}
use maka.Ast.Exprs.{Expr, Block}
use maka.Ast.Items.{FuncDecl}
use maka.Ctfe.Outcome.{Table}
use maka.Parser.ArrayEnds.{parse_primary-Eats}
use maka.Parser.BlockEnds.{block_body-Eats, parse_stmt-Eats}
use maka.Parser.Exprs.{
  type_p, type_base_p, match_p, primary, unary, or_level, parse_expr, parse_block, expr_here,
  block_here, stmt_here,
}
use maka.Parser.Fueled.{Eats, Post-fueled}
use maka.Parser.Levels.{
  binary-Eats, or_op, and_op, eq_op, bitor_op, bitxor_op, bitand_op, rel_op, shift_op, add_op,
  mul_op, or_op-eof, and_op-eof, eq_op-eof, bitor_op-eof, bitxor_op-eof, bitand_op-eof, rel_op-eof,
  shift_op-eof, add_op-eof, mul_op-eof,
}
use maka.Parser.PatternEnds.{parse_pattern-Post}
use maka.Parser.MatchEnds.{parse_match_after_kw-Eats, parse_if_expr-Eats}
use maka.Parser.Patterns.{parse_pattern}
use maka.Parser.Post.{Total, Post-Total}
use maka.Parser.Expects.{fold_here-Post}
use maka.Parser.PostfixEnds.{parse_postfix_inner-Eats}
use maka.Parser.Postfix.{parse_postfix_inner}
use maka.Parser.Progress.{Ends, weight}
use maka.Parser.State.{Build, State, rest_of, P, fold_here}
use maka.Parser.TypeEnds.{parse_type-Post, parse_type_base-Post}
use maka.Parser.Types.{parse_type, parse_type_base}
use maka.Parser.UnaryEnds.{parse_has_pred-Eats, parse_unary-Eats}
use maka.Parser.Matches.{parse_if_expr}

module _ (built : Build) (consts : Table ℤ) (fns : Table FuncDecl) where
  pub type_p-Eats : (n : ℕ) → Eats n 1 (type_p built consts fns)
  unfolding type_p
  type_p-Eats n t h hl =
      Post-fueled (parse_type built consts fns) t
        (λ f hf. parse_type-Post built consts fns f t h (omega (arith, hf)))

  type_base_p-Eats : (n : ℕ) → Eats n 1 (type_base_p built consts fns)
  unfolding type_base_p
  type_base_p-Eats n t h hl =
      Post-fueled (parse_type_base built consts fns) t
        (λ f hf. parse_type_base-Post built consts fns f t h (omega (arith, hf)))

  module _ (n : ℕ) (expr : P Expr) (block : P Block) (he : Eats n 1 expr)
      (hk : Eats n 1 block) where
    match_p-Eats : Eats n 1 (match_p built consts fns expr block)
    unfolding match_p
    match_p-Eats =
        parse_match_after_kw-Eats n expr he block hk (parse_pattern built)
          (λ t h hl. parse_pattern-Post built t h)

    primary-Eats : Eats (suc n) 1 (primary built consts fns expr block)
    unfolding primary
    primary-Eats =
        parse_primary-Eats n built (type_p built consts fns) (type_base_p built consts fns)
          (fold_here built consts fns) consts expr block (type_p-Eats n) (type_base_p-Eats (suc n))
          (λ t h hl. fold_here-Post built consts fns t h) he hk
          (match_p built consts fns expr block) match_p-Eats (parse_if_expr expr block)
          (parse_if_expr-Eats n expr he block hk)

    unary-Eats : Eats (suc n) 1 (unary built consts fns expr block)
    unfolding unary
    unary-Eats =
        parse_unary-Eats (suc n) (type_p built consts fns)
          (parse_postfix_inner (type_p built consts fns) expr (primary built consts fns expr block))
          (type_p-Eats (suc n))
          (λ allow_as.
            parse_postfix_inner-Eats n (type_p built consts fns) (type_p-Eats n) expr he
              (primary built consts fns expr block) allow_as primary-Eats)

    or_level-Eats : Eats (suc n) 1 (or_level built consts fns expr block)
    unfolding or_level
    or_level-Eats = binary-Eats or_op _ (suc n) or_op-eof (
        binary-Eats and_op _ (suc n) and_op-eof (
          parse_has_pred-Eats (suc n) (type_p built consts fns) _ (type_p-Eats (suc n)) (
            binary-Eats eq_op _ (suc n) eq_op-eof (
              binary-Eats bitor_op _ (suc n) bitor_op-eof (
                binary-Eats bitxor_op _ (suc n) bitxor_op-eof (
                  binary-Eats bitand_op _ (suc n) bitand_op-eof (
                    binary-Eats rel_op _ (suc n) rel_op-eof (
                      binary-Eats shift_op _ (suc n) shift_op-eof (
                        binary-Eats add_op _ (suc n) add_op-eof
                          (binary-Eats mul_op _ (suc n) mul_op-eof unary-Eats))))))))))

  mutual
    unfolding parse_expr

    pub parse_expr-Eats : (f : ℕ) → Eats f 1 (parse_expr built consts fns f)
    parse_expr-Eats zero t h hl = absurd (omega (arith, hl))
    parse_expr-Eats (suc f) t h hl =
        or_level-Eats f (parse_expr built consts fns f) (parse_block built consts fns f)
          (parse_expr-Eats f) (parse_block-Eats f) t h hl

    pub parse_block-Eats : (f : ℕ) → Eats f 1 (parse_block built consts fns f)
    parse_block-Eats zero t h hl = absurd (omega (arith, hl))
    parse_block-Eats (suc f) t h hl =
        let expr : P Expr = parse_expr built consts fns f in
        let block : P Block = parse_block built consts fns f in
        let he : Eats f 1 expr = parse_expr-Eats f in
        let hk : Eats f 1 block = parse_block-Eats f in
        block_body-Eats f (type_p built consts fns) (type_p-Eats f) expr
          (or_level built consts fns expr block) he
          (λ u hu ul. or_level-Eats f expr block he hk u hu (omega (arith, ul))) block hk
          (match_p built consts fns expr block) (match_p-Eats f expr block he hk) t h hl

  -- From a state whose tokens end with the end of the file, `parse_expr`, `parse_block` and `parse_stmt`
  -- give a result, give an error, or panic at an overflow (of a folded constant, or of the capacity of a
  -- fill literal); they never read behind the last token, and the fuel of the model is enough for
  -- them. The tokens they leave are those they were given, but for `>>` that became `>`, and a result
  -- has eaten at least one.
  pub parser-Total :
      (s : State)
      → Ends (rest_of s)
      → Total s (expr_here built consts fns s)
        × Total s (block_here built consts fns s)
        × Total s (stmt_here built consts fns s)
  unfolding expr_here block_here stmt_here
  parser-Total s h =
      let f : ℕ = weight (rest_of s) + 1 in
      let he : Eats f 1 (parse_expr built consts fns f) = parse_expr-Eats f in
      let hk : Eats f 1 (parse_block built consts fns f) = parse_block-Eats f in
      let e = parse_expr-Eats f s h (omega arith) in
      let b = parse_block-Eats f s h (omega arith) in
      let t =
        parse_stmt-Eats f (type_p built consts fns) (type_p-Eats f) (parse_expr built consts fns f)
          (or_level built consts fns (parse_expr built consts fns f)
            (parse_block built consts fns f))
          he
          (λ u hu ul.
            or_level-Eats f (parse_expr built consts fns f) (parse_block built consts fns f) he hk u
              hu (omega (arith, ul)))
          (parse_block built consts fns f) hk
          (match_p built consts fns (parse_expr built consts fns f)
            (parse_block built consts fns f))
          (match_p-Eats f (parse_expr built consts fns f) (parse_block built consts fns f) he hk) s
          h (omega arith) in
      (Post-Total e, Post-Total b, Post-Total t)
