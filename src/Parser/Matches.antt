-- ===== src/Parser/Matches.antt =====
-- crates/parser/src/lib.rs: the arms of a match, and `if` as an expression.
use maka.Base.{ℕ, zero, suc, true, if◌then◌else◌}
use maka.Ast.Exprs.{
  Expr, match, OptExpr, no_expr, some_expr, ArmBody, arm_expr, arm_block, MatchArms, no_arms, arms,
  Block, block, yield, stmts, no_stmts,
}
use maka.Ast.Types.{Pattern, bool, lit, else_pattern}
use maka.Lexer.Token.{Span, lparen, rparen, lbrace, rbrace, comma, if_kw, else_kw}
use maka.Parser.Fueled.{fueled}
use maka.Parser.State.{P, ◌>>=◌, ◌>>◌, pure, no_fuel, peek_span, bump, at, eat, expect}

module _ (expr : P Expr) (block_p : P Block) where
  unfoldable pub arm_guard : P OptExpr
  arm_guard = do
    guarded ← at if_kw
    if guarded then (do bump; e ← expr; pure (some_expr e)) else pure no_expr

  unfoldable pub arm_body : P ArmBody
  arm_body = do
    opened ← at lbrace
    if opened then (do b ← block_p; pure (arm_block b)) else (do e ← expr; pure (arm_expr e))

  -- `pattern` is `parse_pattern`.
  module _ (pattern : P Pattern) where
    unfoldable pub arm_list : ℕ → P MatchArms
    unfolding arm_guard arm_body
    arm_list zero = no_fuel
    arm_list (suc f) = do
      closed ← at rbrace
      if closed then pure no_arms else (do
        start ← peek_span
        pat ← pattern
        guard ← arm_guard
        body ← arm_body
        _ ← eat comma
        others ← arm_list f
        pure (arms pat guard body start others))

    unfoldable pub parse_match_after_kw : P (Expr × MatchArms)
    unfolding arm_list
    parse_match_after_kw = do
      expect lparen "`(`"
      scrut ← expr
      expect rparen "`)`"
      expect lbrace "`{`"
      found ← fueled arm_list
      expect rbrace "`}`"
      pure (scrut, found)

  -- The match that an `if` with its condition and its branches is.
  abbrev pub bool_match : Expr → Block → ArmBody → Span → Expr
  bool_match cond then_blk else_body start =
      match cond
        (arms (lit (bool true) start) no_expr (arm_block then_blk) start
          (arms (else_pattern start) no_expr else_body start no_arms))
        start

  unfoldable pub if_expr : ℕ → P Expr
  if_expr zero = no_fuel
  if_expr (suc f) = do
    start ← peek_span
    expect if_kw "`if`"
    expect lparen "`(`"
    cond ← expr
    expect rparen "`)`"
    then_blk ← block_p
    expect else_kw "`else` (if-expression requires an else branch)"
    chained ← at if_kw
    if chained
        then (do
          nested ← if_expr f
          pure (
              bool_match cond then_blk
                (arm_block (block (stmts (yield nested start) no_stmts) start)) start))
        else (do else_blk ← block_p; pure (bool_match cond then_blk (arm_block else_blk) start))

  unfoldable pub parse_if_expr : P Expr
  unfolding if_expr
  parse_if_expr = fueled if_expr
