-- ===== src/Ctfe/Fuel.antt =====
-- crates/parser/src/lib.rs: the fuel and the budget of the interpreter.
use maka.Base.{
  ℕ, zero, suc, ◌+◌, ◌*◌, ◌≤◌, ◌≢◌, List, [], Option, none, some, Bytes, length, ◌==◌, arith,
}
use maka.Base.Int.{ℤ, pos}
use maka.Ast.Exprs.{
  Expr, lit, ident, bin, un, call, Exprs, no_exprs, exprs, no_expr, some_expr, Stmt, let_stmt,
  assign as assign_stmt, expr_stmt, return_stmt, if_stmt, while_stmt, block_stmt,
  break as break_stmt, continue as continue_stmt, Stmts, no_stmts, stmts, Block, block, no_block,
  some_block,
}
use maka.Ast.Items.{FuncDecl}
use maka.Ast.Types.{int, bool, char, BinOp, div, mod_op, and, or, AssignOp, div_assign, mod_assign}
use maka.Ctfe.Eval.{ct_expr, ct_args, eval_const_fn, ct_block, ct_stmts, ct_stmt, ct_while}
use maka.Ctfe.Left.{
  Left, leaves, has_none, panics, Left-ne-out_of_fuel, Left-bind, Left-mono, Left-if, Left-test,
  Left-option, Left-budget, Left-flow,
}
use maka.Ctfe.Outcome.{done, out_of_fuel, CtFlow, normal, break, continue, return, Table, Env, get}
use maka.Ctfe.Steps.{
  checked, assign_value, bin_value, bind_params, some_or, lookup, found, call_value,
}
use maka.Ctfe.Word.{is_zero, int_div, int_rem, div_overflows}

checked-Left : (op : ℤ → ℤ → ℤ) (l r : ℤ) (b : ℕ) → Left (suc b) (checked op l r b)
unfolding checked
checked-Left op l r b =
    Left-if (is_zero r) has_none (Left-if (div_overflows l r) panics (leaves (omega arith)))

found-Left : (o : Option ℤ) (b : ℕ) → Left (suc b) (found o b)
found-Left none b = has_none
found-Left (some v) b = leaves (omega arith)

lookup-Left :
    (consts : Table ℤ) (env : Env) (n : Bytes) (b : ℕ) → Left (suc b) (lookup consts env n b)
unfolding lookup
lookup-Left consts env n b =
    elim (get env n)
      as (λ o. Left (suc b) (elim o [ some v ↦ done v b | none ↦ found (get consts n) b ])) [
        | some v ↦ leaves (omega arith)
        | none ↦ found-Left (get consts n) b
      ]

bin_value-Left : (op : BinOp) (l r : ℤ) (b : ℕ) → Left (suc b) (bin_value op l r b)
unfolding bin_value
bin_value-Left div l r b = checked-Left int_div l r b
bin_value-Left mod_op l r b = checked-Left int_rem l r b
bin_value-Left and l r b = panics
bin_value-Left or l r b = panics
bin_value-Left _ l r b = leaves (omega arith)

assign_value-Left : (op : AssignOp) (cur rhs : ℤ) (b : ℕ) → Left (suc b) (assign_value op cur rhs b)
unfolding assign_value
assign_value-Left div_assign cur rhs b = checked-Left int_div cur rhs b
assign_value-Left mod_assign cur rhs b = checked-Left int_rem cur rhs b
assign_value-Left _ cur rhs b = leaves (omega arith)

call_value-Left : (flow : CtFlow) (env : Env) (b : ℕ) → Left (suc b) (call_value (flow, env) b)
unfolding call_value
call_value-Left (return v) env b = leaves (omega arith)
call_value-Left normal env b = leaves (omega arith)
call_value-Left break env b = has_none
call_value-Left continue env b = has_none

module _ (consts : Table ℤ) (fns : Table FuncDecl) where
  mutual
    unfolding ct_expr ct_args eval_const_fn ct_block ct_stmts ct_stmt ct_while

    pub ct_expr-Left :
        (f : ℕ) (e : Expr) (env : Env) (b : ℕ)
        → 4 * b + 1 ≤ f
        → Left b (ct_expr consts fns f e env b)
    ct_expr-Left (suc f) (lit (int n) _) env (suc b) h = leaves (omega arith)
    ct_expr-Left (suc f) (lit (bool t) _) env (suc b) h = leaves (omega arith)
    ct_expr-Left (suc f) (lit (char c) _) env (suc b) h = leaves (omega arith)
    ct_expr-Left (suc f) (ident n _) env (suc b) h = lookup-Left consts env n b
    ct_expr-Left (suc f) (un op e _) env (suc b) h =
        Left-bind (ct_expr-Left f e env b (omega arith)) (λ v b' le. leaves (omega arith))
    ct_expr-Left (suc f) (bin and l r _) env (suc b) h =
        Left-bind (ct_expr-Left f l env b (omega arith)) (λ v b' le.
          Left-test (is_zero v) (leaves (omega arith))
            (Left-bind (ct_expr-Left f r env b' (omega arith)) (λ w c le'. leaves (omega arith))))
    ct_expr-Left (suc f) (bin or l r _) env (suc b) h =
        Left-bind (ct_expr-Left f l env b (omega arith)) (λ v b' le.
          Left-test (is_zero v)
            (Left-bind (ct_expr-Left f r env b' (omega arith)) (λ w c le'. leaves (omega arith)))
            (leaves (omega arith)))
    ct_expr-Left (suc f) (bin op l r _) env (suc b) h =
        Left-bind (ct_expr-Left f l env b (omega arith)) (λ v b' le.
          Left-bind (ct_expr-Left f r env b' (omega arith))
            (λ w c le'. Left-mono (bin_value-Left op v w c) (omega arith)))
    ct_expr-Left (suc f) (call (ident n _) args _ _) env (suc b) h =
        Left-bind (ct_args-Left f args env b (omega arith))
          (λ vs b' le. Left-mono (eval_const_fn-Left f n vs b' (omega arith)) (omega arith))
    ct_expr-Left zero e env b h = absurd (omega arith)
    ct_expr-Left (suc f) e env b h = has_none

    pub ct_args-Left :
        (f : ℕ) (es : Exprs) (env : Env) (b : ℕ)
        → 4 * b + 2 ≤ f
        → Left (suc b) (ct_args consts fns f es env b)
    ct_args-Left zero es env b h = absurd (omega arith)
    ct_args-Left (suc f) no_exprs env b h = leaves (omega arith)
    ct_args-Left (suc f) (exprs e es) env b h =
        Left-bind (ct_expr-Left f e env b (omega arith)) (λ v b' le.
          Left-bind (ct_args-Left f es env b' (omega arith)) (λ vs c le'. leaves (omega arith)))

    pub eval_const_fn-Left :
        (f : ℕ) (name : Bytes) (args : List ℤ) (b : ℕ)
        → 4 * b + 4 ≤ f
        → Left (suc b) (eval_const_fn consts fns f name args b)
    eval_const_fn-Left zero name args b h = absurd (omega arith)
    eval_const_fn-Left (suc f) name args b h = Left-option (get fns name) has_none (λ d.
        Left-test (length d.params == length args)
          (Left-bind (ct_block-Left f d.body (bind_params d.params args []) b (omega arith))
            (λ r b' le. Left-mono (call_value-Left r.0 r.1 b') (omega arith)))
          has_none)

    pub ct_block-Left :
        (f : ℕ) (blk : Block) (env : Env) (b : ℕ)
        → 4 * b + 3 ≤ f
        → Left (suc b) (ct_block consts fns f blk env b)
    ct_block-Left zero blk env b h = absurd (omega arith)
    ct_block-Left (suc f) (block ss _) env b h = ct_stmts-Left f ss env b (omega arith)

    pub ct_stmts-Left :
        (f : ℕ) (ss : Stmts) (env : Env) (b : ℕ)
        → 4 * b + 2 ≤ f
        → Left (suc b) (ct_stmts consts fns f ss env b)
    ct_stmts-Left zero ss env b h = absurd (omega arith)
    ct_stmts-Left (suc f) no_stmts env b h = leaves (omega arith)
    ct_stmts-Left (suc f) (stmts s ss) env b h =
        Left-bind (ct_stmt-Left f s env b (omega arith)) (λ r b' le.
          Left-flow r.0 (Left-mono (ct_stmts-Left f ss r.1 b' (omega arith)) (omega arith))
            (leaves (omega arith)) (leaves (omega arith)) (λ v. leaves (omega arith)))

    pub ct_stmt-Left :
        (f : ℕ) (s : Stmt) (env : Env) (b : ℕ)
        → 4 * b + 1 ≤ f
        → Left b (ct_stmt consts fns f s env b)
    ct_stmt-Left (suc f) (let_stmt _ _ name init _ _) env (suc b) h =
        Left-bind (ct_expr-Left f init env b (omega arith)) (λ v b' le. leaves (omega arith))
    ct_stmt-Left (suc f) (assign_stmt op (ident name _) value _) env (suc b) h =
        Left-bind (ct_expr-Left f value env b (omega arith)) (λ rhs b' le.
          Left-bind (assign_value-Left op (some_or (pos 0) (get env name)) rhs b')
            (λ v c le'. leaves (omega arith)))
    ct_stmt-Left (suc f) (expr_stmt e _) env (suc b) h =
        Left-bind (ct_expr-Left f e env b (omega arith)) (λ v b' le. leaves (omega arith))
    ct_stmt-Left (suc f) (return_stmt no_expr _) env (suc b) h = leaves (omega arith)
    ct_stmt-Left (suc f) (return_stmt (some_expr e) _) env (suc b) h =
        Left-bind (ct_expr-Left f e env b (omega arith)) (λ v b' le. leaves (omega arith))
    ct_stmt-Left (suc f) (if_stmt cond t no_block _) env (suc b) h =
        Left-bind (ct_expr-Left f cond env b (omega arith)) (λ v b' le.
          Left-test (is_zero v) (leaves (omega arith))
            (Left-mono (ct_block-Left f t env b' (omega arith)) (omega arith)))
    ct_stmt-Left (suc f) (if_stmt cond t (some_block eb) _) env (suc b) h =
        Left-bind (ct_expr-Left f cond env b (omega arith)) (λ v b' le.
          Left-test (is_zero v) (Left-mono (ct_block-Left f eb env b' (omega arith)) (omega arith))
            (Left-mono (ct_block-Left f t env b' (omega arith)) (omega arith)))
    ct_stmt-Left (suc f) (while_stmt cond body _) env (suc b) h =
        Left-mono (ct_while-Left f cond body env b (omega arith)) (omega arith)
    ct_stmt-Left (suc f) (block_stmt blk) env (suc b) h =
        Left-mono (ct_block-Left f blk env b (omega arith)) (omega arith)
    ct_stmt-Left (suc f) (break_stmt _) env (suc b) h = leaves (omega arith)
    ct_stmt-Left (suc f) (continue_stmt _) env (suc b) h = leaves (omega arith)
    ct_stmt-Left zero s env b h = absurd (omega arith)
    ct_stmt-Left (suc f) s env b h = has_none

    pub ct_while-Left :
        (f : ℕ) (cond : Expr) (body : Block) (env : Env) (b : ℕ)
        → 4 * b + 2 ≤ f
        → Left (suc b) (ct_while consts fns f cond body env b)
    ct_while-Left zero cond body env b h = absurd (omega arith)
    ct_while-Left (suc f) cond body env b h =
        Left-bind (ct_expr-Left f cond env b (omega arith)) (λ v b' le.
          Left-test (is_zero v) (leaves (omega arith)) (
            Left-budget b' has_none (λ c eq.
              Left-bind (ct_block-Left f body env c (omega arith)) (λ r d le'.
                Left-flow r.0
                  (Left-mono (ct_while-Left f cond body r.1 d (omega arith)) (omega arith))
                  (leaves (omega arith))
                  (Left-mono (ct_while-Left f cond body r.1 d (omega arith)) (omega arith))
                  (λ w. leaves (omega arith))))))

  -- With a budget of `b` and a fuel of 4 b + 4, a call of a constexpr function ends: it has a value,
  -- has none or panics, and does not run out of fuel, whatever the functions of the program, the
  -- name and the arguments are. Where it has a value, the budget that is left is at most `b`.
  pub eval_const_fn-ends :
      (name : Bytes) (args : List ℤ) (b f : ℕ)
      → 4 * b + 4 ≤ f
      → Left (suc b) (eval_const_fn consts fns f name args b)
        × (eval_const_fn consts fns f name args b ≢ out_of_fuel)
  eval_const_fn-ends name args b f h =
      let l = eval_const_fn-Left f name args b h in (l, Left-ne-out_of_fuel l)
