-- ===== src/Ctfe/Budget.antt =====
-- crates/parser/src/lib.rs: what more fuel and more budget do to the interpreter.
use maka.Base.{
  ℕ, zero, suc, ◌+◌, ◌≤◌, ◌≡◌, refl, subst, List, [], Option, none, some, Bytes, length, ◌==◌,
  arith,
}
use maka.Base.Int.{ℤ, pos}
use maka.Ast.Exprs.{
  Expr, lit, ident, bin, un, call, Exprs, no_exprs, exprs, no_expr, some_expr, Stmt, let_stmt,
  assign as assign_stmt, expr_stmt, return_stmt, if_stmt, while_stmt, block_stmt,
  break as break_stmt, continue as continue_stmt, Stmts, no_stmts, stmts, Block, block, no_block,
  some_block,
}
use maka.Ast.Items.{FuncDecl}
use maka.Ast.Types.{int, bool, char, BinOp, div, mod_op, and, or, AssignOp, div_assign, mod_assign}
use maka.Ctfe.Eval.{ct_expr, ct_args, eval_const_fn, ct_block, ct_stmts, ct_stmt, ct_while}
use maka.Ctfe.Grows.{
  value, none_same, panic_same, more_fuel, more_budget, Grows, Grows-bind, Grows-if, Grows-test,
  Grows-option, Grows-budget, Grows-flow, Grows-done,
}
use maka.Ctfe.Outcome.{done, CtFlow, normal, break, continue, return, Table, Env, get}
use maka.Ctfe.Steps.{
  checked, assign_value, bin_value, bind_params, some_or, lookup, found, call_value,
}
use maka.Ctfe.Word.{is_zero, int_div, int_rem, div_overflows}

module _ (k b c : ℕ) (e : c ≡ b + k) where
  checked-Grows : (op : ℤ → ℤ → ℤ) (l r : ℤ) → Grows k (checked op l r b) (checked op l r c)
  unfolding checked
  checked-Grows op l r =
      Grows-if (is_zero r) none_same (Grows-if (div_overflows l r) panic_same (value e))

  found-Grows : (o : Option ℤ) → Grows k (found o b) (found o c)
  found-Grows none = none_same
  found-Grows (some v) = value e

  lookup-Grows :
      (consts : Table ℤ) (env : Env) (n : Bytes)
      → Grows k (lookup consts env n b) (lookup consts env n c)
  unfolding lookup
  lookup-Grows consts env n = Grows-option (get env n) (found-Grows (get consts n)) (λ v. value e)

  bin_value-Grows : (op : BinOp) (l r : ℤ) → Grows k (bin_value op l r b) (bin_value op l r c)
  unfolding bin_value
  bin_value-Grows div l r = checked-Grows int_div l r
  bin_value-Grows mod_op l r = checked-Grows int_rem l r
  bin_value-Grows and l r = panic_same
  bin_value-Grows or l r = panic_same
  bin_value-Grows _ l r = value e

  assign_value-Grows :
      (op : AssignOp) (cur rhs : ℤ)
      → Grows k (assign_value op cur rhs b) (assign_value op cur rhs c)
  unfolding assign_value
  assign_value-Grows div_assign cur rhs = checked-Grows int_div cur rhs
  assign_value-Grows mod_assign cur rhs = checked-Grows int_rem cur rhs
  assign_value-Grows _ cur rhs = value e

  call_value-Grows :
      (flow : CtFlow) (env : Env) → Grows k (call_value (flow, env) b) (call_value (flow, env) c)
  unfolding call_value
  call_value-Grows (return v) env = value e
  call_value-Grows normal env = value e
  call_value-Grows break env = none_same
  call_value-Grows continue env = none_same

module _ (consts : Table ℤ) (fns : Table FuncDecl) (k : ℕ) where
  mutual
    unfolding ct_expr ct_args eval_const_fn ct_block ct_stmts ct_stmt ct_while

    pub ct_expr-Grows :
        (f g : ℕ) (e : Expr) (env : Env) (b c : ℕ)
        → f ≤ g
        → c ≡ b + k
        → Grows k (ct_expr consts fns f e env b) (ct_expr consts fns g e env c)
    ct_expr-Grows (suc f) (suc g) (lit (int n) _) env (suc b) (suc c) le eq = value (omega arith)
    ct_expr-Grows (suc f) (suc g) (lit (bool t) _) env (suc b) (suc c) le eq = value (omega arith)
    ct_expr-Grows (suc f) (suc g) (lit (char n) _) env (suc b) (suc c) le eq = value (omega arith)
    ct_expr-Grows (suc f) (suc g) (ident n _) env (suc b) (suc c) le eq =
        lookup-Grows k b c (omega arith) consts env n
    ct_expr-Grows (suc f) (suc g) (un op e _) env (suc b) (suc c) le eq =
        Grows-bind (ct_expr-Grows f g e env b c (omega arith) (omega arith))
          (λ v b' c' e'. value e')
    ct_expr-Grows (suc f) (suc g) (bin and l r _) env (suc b) (suc c) le eq =
        Grows-bind (ct_expr-Grows f g l env b c (omega arith) (omega arith)) (λ v b' c' e'.
          Grows-test (is_zero v) (value e') (
            Grows-bind (ct_expr-Grows f g r env b' c' (omega arith) e')
              (λ w b'' c'' e''. value e'')))
    ct_expr-Grows (suc f) (suc g) (bin or l r _) env (suc b) (suc c) le eq =
        Grows-bind (ct_expr-Grows f g l env b c (omega arith) (omega arith)) (λ v b' c' e'.
          Grows-test (is_zero v)
            (Grows-bind (ct_expr-Grows f g r env b' c' (omega arith) e')
              (λ w b'' c'' e''. value e''))
            (value e'))
    ct_expr-Grows (suc f) (suc g) (bin op l r _) env (suc b) (suc c) le eq =
        Grows-bind (ct_expr-Grows f g l env b c (omega arith) (omega arith)) (λ v b' c' e'.
          Grows-bind (ct_expr-Grows f g r env b' c' (omega arith) e')
            (λ w b'' c'' e''. bin_value-Grows k b'' c'' e'' op v w))
    ct_expr-Grows (suc f) (suc g) (call (ident n _) args _ _) env (suc b) (suc c) le eq =
        Grows-bind (ct_args-Grows f g args env b c (omega arith) (omega arith))
          (λ vs b' c' e'. eval_const_fn-Grows f g n vs b' c' (omega arith) e')
    ct_expr-Grows zero g e env b c le eq = more_fuel
    ct_expr-Grows (suc f) zero e env b c le eq = absurd (omega arith)
    ct_expr-Grows (suc f) (suc g) e env (suc b) zero le eq = absurd (omega arith)
    ct_expr-Grows (suc f) (suc g) e env zero (suc c) le eq = more_budget (omega arith)
    ct_expr-Grows (suc f) (suc g) e env b c le eq = none_same

    pub ct_args-Grows :
        (f g : ℕ) (es : Exprs) (env : Env) (b c : ℕ)
        → f ≤ g
        → c ≡ b + k
        → Grows k (ct_args consts fns f es env b) (ct_args consts fns g es env c)
    ct_args-Grows zero g es env b c le eq = more_fuel
    ct_args-Grows (suc f) zero es env b c le eq = absurd (omega arith)
    ct_args-Grows (suc f) (suc g) no_exprs env b c le eq = value eq
    ct_args-Grows (suc f) (suc g) (exprs e es) env b c le eq =
        Grows-bind (ct_expr-Grows f g e env b c (omega arith) eq) (λ v b' c' e'.
          Grows-bind (ct_args-Grows f g es env b' c' (omega arith) e')
            (λ vs b'' c'' e''. value e''))

    pub eval_const_fn-Grows :
        (f g : ℕ) (name : Bytes) (args : List ℤ) (b c : ℕ)
        → f ≤ g
        → c ≡ b + k
        → Grows k (eval_const_fn consts fns f name args b) (eval_const_fn consts fns g name args c)
    eval_const_fn-Grows zero g name args b c le eq = more_fuel
    eval_const_fn-Grows (suc f) zero name args b c le eq = absurd (omega arith)
    eval_const_fn-Grows (suc f) (suc g) name args b c le eq =
        Grows-option (get fns name) none_same (λ d.
          Grows-test (length d.params == length args)
            (Grows-bind
              (ct_block-Grows f g d.body (bind_params d.params args []) b c (omega arith) eq)
              (λ r b' c' e'. call_value-Grows k b' c' e' r.0 r.1))
            none_same)

    pub ct_block-Grows :
        (f g : ℕ) (blk : Block) (env : Env) (b c : ℕ)
        → f ≤ g
        → c ≡ b + k
        → Grows k (ct_block consts fns f blk env b) (ct_block consts fns g blk env c)
    ct_block-Grows zero g blk env b c le eq = more_fuel
    ct_block-Grows (suc f) zero blk env b c le eq = absurd (omega arith)
    ct_block-Grows (suc f) (suc g) (block ss _) env b c le eq =
        ct_stmts-Grows f g ss env b c (omega arith) eq

    pub ct_stmts-Grows :
        (f g : ℕ) (ss : Stmts) (env : Env) (b c : ℕ)
        → f ≤ g
        → c ≡ b + k
        → Grows k (ct_stmts consts fns f ss env b) (ct_stmts consts fns g ss env c)
    ct_stmts-Grows zero g ss env b c le eq = more_fuel
    ct_stmts-Grows (suc f) zero ss env b c le eq = absurd (omega arith)
    ct_stmts-Grows (suc f) (suc g) no_stmts env b c le eq = value eq
    ct_stmts-Grows (suc f) (suc g) (stmts s ss) env b c le eq =
        Grows-bind (ct_stmt-Grows f g s env b c (omega arith) eq) (λ r b' c' e'.
          Grows-flow r.0 (ct_stmts-Grows f g ss r.1 b' c' (omega arith) e') (value e') (value e')
            (λ v. value e'))

    pub ct_stmt-Grows :
        (f g : ℕ) (s : Stmt) (env : Env) (b c : ℕ)
        → f ≤ g
        → c ≡ b + k
        → Grows k (ct_stmt consts fns f s env b) (ct_stmt consts fns g s env c)
    ct_stmt-Grows (suc f) (suc g) (let_stmt _ _ name init _ _) env (suc b) (suc c) le eq =
        Grows-bind (ct_expr-Grows f g init env b c (omega arith) (omega arith))
          (λ v b' c' e'. value e')
    ct_stmt-Grows (suc f) (suc g) (assign_stmt op (ident name _) rhs _) env (suc b) (suc c) le eq =
        Grows-bind (ct_expr-Grows f g rhs env b c (omega arith) (omega arith)) (λ v b' c' e'.
          Grows-bind (assign_value-Grows k b' c' e' op (some_or (pos 0) (get env name)) v)
            (λ w b'' c'' e''. value e''))
    ct_stmt-Grows (suc f) (suc g) (expr_stmt e _) env (suc b) (suc c) le eq =
        Grows-bind (ct_expr-Grows f g e env b c (omega arith) (omega arith))
          (λ v b' c' e'. value e')
    ct_stmt-Grows (suc f) (suc g) (return_stmt no_expr _) env (suc b) (suc c) le eq =
        value (omega arith)
    ct_stmt-Grows (suc f) (suc g) (return_stmt (some_expr e) _) env (suc b) (suc c) le eq =
        Grows-bind (ct_expr-Grows f g e env b c (omega arith) (omega arith))
          (λ v b' c' e'. value e')
    ct_stmt-Grows (suc f) (suc g) (if_stmt cond t no_block _) env (suc b) (suc c) le eq =
        Grows-bind (ct_expr-Grows f g cond env b c (omega arith) (omega arith)) (λ v b' c' e'.
          Grows-test (is_zero v) (value e') (ct_block-Grows f g t env b' c' (omega arith) e'))
    ct_stmt-Grows (suc f) (suc g) (if_stmt cond t (some_block eb) _) env (suc b) (suc c) le eq =
        Grows-bind (ct_expr-Grows f g cond env b c (omega arith) (omega arith)) (λ v b' c' e'.
          Grows-test (is_zero v) (ct_block-Grows f g eb env b' c' (omega arith) e')
            (ct_block-Grows f g t env b' c' (omega arith) e'))
    ct_stmt-Grows (suc f) (suc g) (while_stmt cond body _) env (suc b) (suc c) le eq =
        ct_while-Grows f g cond body env b c (omega arith) (omega arith)
    ct_stmt-Grows (suc f) (suc g) (block_stmt blk) env (suc b) (suc c) le eq =
        ct_block-Grows f g blk env b c (omega arith) (omega arith)
    ct_stmt-Grows (suc f) (suc g) (break_stmt _) env (suc b) (suc c) le eq = value (omega arith)
    ct_stmt-Grows (suc f) (suc g) (continue_stmt _) env (suc b) (suc c) le eq = value (omega arith)
    ct_stmt-Grows zero g s env b c le eq = more_fuel
    ct_stmt-Grows (suc f) zero s env b c le eq = absurd (omega arith)
    ct_stmt-Grows (suc f) (suc g) s env (suc b) zero le eq = absurd (omega arith)
    ct_stmt-Grows (suc f) (suc g) s env zero (suc c) le eq = more_budget (omega arith)
    ct_stmt-Grows (suc f) (suc g) s env b c le eq = none_same

    pub ct_while-Grows :
        (f g : ℕ) (cond : Expr) (body : Block) (env : Env) (b c : ℕ)
        → f ≤ g
        → c ≡ b + k
        → Grows k (ct_while consts fns f cond body env b) (ct_while consts fns g cond body env c)
    ct_while-Grows zero g cond body env b c le eq = more_fuel
    ct_while-Grows (suc f) zero cond body env b c le eq = absurd (omega arith)
    ct_while-Grows (suc f) (suc g) cond body env b c le eq =
        Grows-bind (ct_expr-Grows f g cond env b c (omega arith) eq) (λ v b' c' e'.
          Grows-test (is_zero v) (value e') (
            Grows-budget b' c' e' (λ b'' c'' e''.
              Grows-bind (ct_block-Grows f g body env b'' c'' (omega arith) e'') (λ r d d' eq'.
                Grows-flow r.0 (ct_while-Grows f g cond body r.1 d d' (omega arith) eq') (value eq')
                  (ct_while-Grows f g cond body r.1 d d' (omega arith) eq') (λ w. value eq')))))

module _ (consts : Table ℤ) (fns : Table FuncDecl) where
  -- A call that has the value `v` with a budget of `b`, and leaves `r` of it, has the same value with
  -- `k` more, and leaves `k` more. The fuel of the second is any that is no less than the first's.
  pub eval_const_fn-budget :
      (name : Bytes) (args : List ℤ) (b k f g : ℕ) (v : ℤ) (r : ℕ)
      → f ≤ g
      → eval_const_fn consts fns f name args b ≡ done v r
      → eval_const_fn consts fns g name args (b + k) ≡ done v (r + k)
  eval_const_fn-budget name args b k f g v r le h = Grows-done (
      subst (λ o. Grows k o (eval_const_fn consts fns g name args (b + k))) h
        (eval_const_fn-Grows consts fns k f g name args b (b + k) le refl))
