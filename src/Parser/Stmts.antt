-- ===== src/Parser/Stmts.antt =====
-- crates/parser/src/lib.rs: statements and blocks. `expr`, `or_level` and `block` are `parse_expr`,
-- `parse_or` and `parse_block`.
use maka.Base.{
  ℕ, zero, suc, Bool, true, false, List, [], ◌∷◌, Option, none, some, Bytes, codes, if◌then◌else◌,
}
use maka.Ast.Exprs.{
  Expr, ident, OptExpr, no_expr, some_expr, MatchArms, Stmt, let_stmt, let_tuple, assign, expr_stmt,
  return_stmt, if_stmt, while_stmt, block_stmt, unsafe, match_stmt, yield, propagate, for_range,
  for_each, inline_for, break, continue, Stmts, no_stmts, stmts, Block, block, no_block, some_block,
}
use maka.Ast.Types.{
  TypeExpr, AssignOp, assign as assign_op, add_assign, sub_assign, mul_assign, div_assign,
  mod_assign,
}
use maka.Lexer.Token.{
  Span, Token, TokKind, eof, ident as ident_tok, mut_kw, unsafe_kw, match_kw, yield_kw,
  propagate_kw, inline_kw, for_kw, in_kw, break_kw, continue_kw, dot_dot, dot_dot_eq,
  thread_local_kw, if_kw, else_kw, while_kw, return_kw, lparen, rparen, lbrace, rbrace, comma,
  semicolon, underscore, eq, plus_eq, minus_eq, star_eq, slash_eq, percent_eq,
}
use maka.Parser.Fueled.{fueled}
use maka.Parser.Skim.{Kinds, looks_like_decl}
use maka.Parser.State.{
  P, ◌>>=◌, ◌>>◌, pure, no_fuel, rest_of, peek, peek_at, peek_span, bump, at, eat, expect,
  expect_ident,
}
use maka.Parser.Types.{parse_mutness}
use maka.Base.{map}

-- The names of a tuple, behind one that is read: how many there are, and the kinds behind the `)`.
unfoldable pub tuple_names : ℕ → Kinds → Option (ℕ × Kinds)
tuple_names n (mut_kw ∷ ident_tok _ ∷ comma ∷ ks) = tuple_names (suc n) ks
tuple_names n (ident_tok _ ∷ comma ∷ ks) = tuple_names (suc n) ks
tuple_names n (mut_kw ∷ ident_tok _ ∷ rparen ∷ ks) = some (suc n, ks)
tuple_names n (ident_tok _ ∷ rparen ∷ ks) = some (suc n, ks)
tuple_names n _ = none

-- `names >= 2 && matches!(k(p), Some(TokKind::Eq))`.
abbrev pub is_tuple : ℕ × Kinds → Bool
is_tuple (suc (suc n), eq ∷ ks) = true
is_tuple _ = false

unfoldable pub looks_like_tuple : Kinds → Bool
unfolding tuple_names
looks_like_tuple (lparen ∷ ks) = elim (tuple_names 0 ks) [ none ↦ false | some r ↦ is_tuple r ]
looks_like_tuple _ = false

unfoldable pub looks_like_tuple_destructure : P Bool
unfolding looks_like_tuple
looks_like_tuple_destructure s = pure (looks_like_tuple (map (λ (t : Token). t.kind) (rest_of s))) s

-- `[mut] name`, with a comma between two of them.
unfoldable pub tuple_binders : ℕ → P (List (Bool × Bytes))
tuple_binders zero = no_fuel
tuple_binders (suc f) = do
  is_mut ← eat mut_kw
  name ← expect_ident "binding name"
  again ← eat comma
  if again
      then (do others ← tuple_binders f; pure ((is_mut, name.0) ∷ others))
      else pure ((is_mut, name.0) ∷ [])

abbrev pub op_of : TokKind → Option AssignOp
op_of eq = some assign_op
op_of plus_eq = some add_assign
op_of minus_eq = some sub_assign
op_of star_eq = some mul_assign
op_of slash_eq = some div_assign
op_of percent_eq = some mod_assign
op_of _ = none

abbrev pub is_eq : TokKind → Bool
is_eq eq = true
is_eq _ = false

abbrev pub is_underscore : TokKind → Bool
is_underscore underscore = true
is_underscore _ = false

module _ (typ : P TypeExpr) (expr or_level : P Expr) (block_p : P Block)
    (match_after_kw : P (Expr × MatchArms)) where
  unfoldable pub parse_let : P Stmt
  parse_let = do
    start ← peek_span
    local ← eat thread_local_kw
    m ← parse_mutness
    ty ← typ
    name ← expect_ident "variable name"
    expect eq "`=`"
    init ← expr
    expect semicolon "`;`"
    pure (let_stmt m ty (name.0) init local start)

  unfoldable pub parse_let_tuple : P Stmt
  unfolding tuple_binders
  parse_let_tuple = do
    start ← peek_span
    expect lparen "`(`"
    names ← fueled tuple_binders
    expect rparen "`)`"
    expect eq "`=`"
    init ← expr
    expect semicolon "`;`"
    pure (let_tuple names init start)

  unfoldable pub if_rec : ℕ → P Stmt
  if_rec zero = no_fuel
  if_rec (suc f) = do
    start ← peek_span
    expect if_kw "`if`"
    expect lparen "`(`"
    cond ← expr
    expect rparen "`)`"
    then_block ← block_p
    has_else ← eat else_kw
    if has_else
        then (do
          chained ← at if_kw
          if chained
              then (do
                inner ← if_rec f
                pure (
                    if_stmt cond then_block (some_block (block (stmts inner no_stmts) start))
                      start))
              else (do
                else_block ← block_p
                pure (if_stmt cond then_block (some_block else_block) start)))
        else pure (if_stmt cond then_block no_block start)

  unfoldable pub parse_inline_for : P Stmt
  parse_inline_for = do
    start ← peek_span
    expect inline_kw "`inline`"
    expect for_kw "`for` (after `inline`)"
    expect lparen "`(`"
    name ← expect_ident "loop variable"
    expect in_kw "`in`"
    iter ← expr
    expect rparen "`)`"
    body ← block_p
    pure (inline_for (name.0) iter body start)

  -- Behind the `..` or `..=` of a range.
  unfoldable pub range_for : TypeExpr → Bytes → Expr → Bool → Span → P Stmt
  range_for var_ty name from inclusive start = do
    to ← or_level
    expect rparen "`)`"
    body ← block_p
    pure (for_range var_ty name from to inclusive body start)

  unfoldable pub parse_for : P Stmt
  unfolding range_for
  parse_for = do
    start ← peek_span
    expect for_kw "`for`"
    expect lparen "`(`"
    var_ty ← typ
    name ← expect_ident "loop variable"
    expect in_kw "`in`"
    src ← or_level
    is_inclusive ← eat dot_dot_eq
    if is_inclusive then range_for var_ty (name.0) src true start else (do
      is_range ← eat dot_dot
      if is_range then range_for var_ty (name.0) src false start else (do
        expect rparen "`)`"
        body ← block_p
        pure (for_each var_ty (name.0) src body start)))

  unfoldable pub parse_while : P Stmt
  parse_while = do
    start ← peek_span
    expect while_kw "`while`"
    expect lparen "`(`"
    cond ← expr
    expect rparen "`)`"
    body ← block_p
    pure (while_stmt cond body start)

  -- From the first expression on.
  unfoldable pub assign_or_expr : Span → P Stmt
  assign_or_expr start = do
    lhs ← expr
    kind ← peek
    elim (op_of kind) as (λ _. P Stmt) [
      | none ↦ (do expect semicolon "`;`"; pure (expr_stmt lhs start))
      | some op ↦ (do bump; rhs ← expr; expect semicolon "`;`"; pure (assign op lhs rhs start))
    ]

  unfoldable pub parse_assign_or_expr : P Stmt
  unfolding assign_or_expr
  parse_assign_or_expr = do
    start ← peek_span
    first ← at underscore
    if first
        then (do
          second ← peek_at 1
          if is_eq second
              then (do
                bump
                bump
                value ← expr
                expect semicolon "`;`"
                pure (assign assign_op (ident (codes "_") start) value start))
              else assign_or_expr start)
        else assign_or_expr start

  -- An expression that may be left out, and the `;` behind it.
  unfoldable pub optional_value : P OptExpr
  optional_value = do
    empty ← at semicolon
    if empty
        then (expect semicolon "`;`" >> pure no_expr)
        else (do e ← expr; expect semicolon "`;`"; pure (some_expr e))

  -- The statements that no keyword starts.
  unfoldable pub other_stmt : P Stmt
  unfolding looks_like_tuple_destructure parse_let_tuple looks_like_decl parse_let
      parse_assign_or_expr
  other_stmt = do
    tuple ← looks_like_tuple_destructure
    if tuple
        then parse_let_tuple
        else (do decl ← looks_like_decl; if decl then parse_let else parse_assign_or_expr)

  -- `match self.peek() { … }` of `parse_stmt`.
  unfoldable pub stmt_on : TokKind → Span → P Stmt
  unfolding if_rec parse_while parse_for parse_inline_for optional_value other_stmt
  stmt_on if_kw start = fueled if_rec
  stmt_on while_kw start = parse_while
  stmt_on for_kw start = parse_for
  stmt_on inline_kw start = parse_inline_for
  stmt_on break_kw start = do bump; expect semicolon "`;`"; pure (break start)
  stmt_on continue_kw start = do bump; expect semicolon "`;`"; pure (continue start)
  stmt_on match_kw start = do
    bump
    found ← match_after_kw
    _ ← eat semicolon
    pure (match_stmt (found.0) (found.1) start)
  stmt_on yield_kw start = do bump; e ← expr; expect semicolon "`;`"; pure (yield e start)
  stmt_on propagate_kw start = do bump; e ← optional_value; pure (propagate e start)
  stmt_on return_kw start = do bump; e ← optional_value; pure (return_stmt e start)
  stmt_on lbrace start = do b ← block_p; pure (block_stmt b)
  stmt_on unsafe_kw start = do bump; b ← block_p; pure (unsafe b start)
  stmt_on _ start = other_stmt

  unfoldable pub parse_stmt : P Stmt
  unfolding stmt_on
  parse_stmt = do start ← peek_span; kind ← peek; stmt_on kind start

  unfoldable pub stmt_list : ℕ → P Stmts
  unfolding parse_stmt
  stmt_list zero = no_fuel
  stmt_list (suc f) = do
    closed ← at rbrace
    if closed then pure no_stmts else (do
      ended ← at eof
      if ended
          then pure no_stmts
          else (do first ← parse_stmt; others ← stmt_list f; pure (stmts first others)))

  unfoldable pub block_body : P Block
  unfolding stmt_list
  block_body = do
    opening ← expect lbrace "`{`"
    found ← fueled stmt_list
    expect rbrace "`}`"
    pure (block found (opening.span))
