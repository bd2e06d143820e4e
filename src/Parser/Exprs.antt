-- ===== src/Parser/Exprs.antt =====
-- crates/parser/src/lib.rs: expressions and blocks, which are parts of one another. The fuel is the
-- depth of that nesting.
use maka.Base.{ℕ, zero, suc, ◌+◌}
use maka.Base.Int.{ℤ}
use maka.Ast.Exprs.{Expr, Stmt, Block, MatchArms}
use maka.Ast.Items.{FuncDecl}
use maka.Ast.Types.{TypeExpr}
use maka.Ctfe.Outcome.{Table}
use maka.Parser.Fueled.{fueled}
use maka.Parser.Levels.{
  binary, or_op, and_op, eq_op, bitor_op, bitxor_op, bitand_op, rel_op, shift_op, add_op, mul_op,
}
use maka.Parser.Matches.{parse_match_after_kw, parse_if_expr}
use maka.Parser.Patterns.{parse_pattern}
use maka.Parser.Postfix.{parse_postfix_inner}
use maka.Parser.Primary.{parse_primary}
use maka.Parser.Progress.{weight}
use maka.Parser.State.{Build, P, no_fuel, fold_here, rest_of}
use maka.Parser.Stmts.{block_body, parse_stmt}
use maka.Parser.Types.{parse_type, parse_type_base}
use maka.Parser.Unary.{parse_has_pred, parse_unary}

module _ (built : Build) (consts : Table ℤ) (fns : Table FuncDecl) where
  unfoldable pub type_p : P TypeExpr
  unfolding parse_type
  type_p = fueled (parse_type built consts fns)

  unfoldable pub type_base_p : P TypeExpr
  unfolding parse_type_base
  type_base_p = fueled (parse_type_base built consts fns)

  module _ (expr : P Expr) (block : P Block) where
    unfoldable pub match_p : P (Expr × MatchArms)
    match_p = parse_match_after_kw expr block (parse_pattern built)

    unfoldable pub primary : P Expr
    unfolding type_p type_base_p match_p
    primary =
        parse_primary built type_p type_base_p (fold_here built consts fns) consts expr block
          match_p (parse_if_expr expr block)

    unfoldable pub unary : P Expr
    unfolding primary
    unary = parse_unary type_p (parse_postfix_inner type_p expr primary)

    -- The levels from `parse_mul` up to `parse_or`.
    unfoldable pub mul_level : P Expr
    unfolding unary
    mul_level = binary mul_op unary

    unfoldable pub add_level : P Expr
    unfolding mul_level
    add_level = binary add_op mul_level

    unfoldable pub shift_level : P Expr
    unfolding add_level
    shift_level = binary shift_op add_level

    unfoldable pub rel_level : P Expr
    unfolding shift_level
    rel_level = binary rel_op shift_level

    unfoldable pub bitand_level : P Expr
    unfolding rel_level
    bitand_level = binary bitand_op rel_level

    unfoldable pub bitxor_level : P Expr
    unfolding bitand_level
    bitxor_level = binary bitxor_op bitand_level

    unfoldable pub bitor_level : P Expr
    unfolding bitxor_level
    bitor_level = binary bitor_op bitxor_level

    unfoldable pub eq_level : P Expr
    unfolding bitor_level
    eq_level = binary eq_op bitor_level

    unfoldable pub has_level : P Expr
    unfolding eq_level
    has_level = parse_has_pred type_p eq_level

    unfoldable pub and_level : P Expr
    unfolding has_level
    and_level = binary and_op has_level

    unfoldable pub or_level : P Expr
    unfolding and_level
    or_level = binary or_op and_level

  unfoldable mutual
    unfolding or_level

    pub parse_expr : ℕ → P Expr
    parse_expr zero = no_fuel
    parse_expr (suc f) = or_level (parse_expr f) (parse_block f)

    pub parse_block : ℕ → P Block
    parse_block zero = no_fuel
    parse_block (suc f) =
        let expr = parse_expr f in
        let block = parse_block f in
        block_body type_p expr (or_level expr block) block (match_p expr block)

  -- With a fuel that is enough.
  unfoldable pub expr_here : P Expr
  unfolding parse_expr
  expr_here s = parse_expr (weight (rest_of s) + 1) s

  unfoldable pub block_here : P Block
  unfolding parse_expr
  block_here s = parse_block (weight (rest_of s) + 1) s

  unfoldable pub stmt_here : P Stmt
  unfolding parse_expr
  stmt_here s =
      let f : ℕ = weight (rest_of s) + 1 in
      parse_stmt type_p (parse_expr f) (or_level (parse_expr f) (parse_block f)) (parse_block f)
        (match_p (parse_expr f) (parse_block f)) s
