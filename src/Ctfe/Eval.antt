-- ===== src/Ctfe/Eval.antt =====
-- crates/parser/src/lib.rs: `eval_const_fn`, `ct_block`, `ct_stmt` and `ct_expr`.
use maka.Base.{ℕ, zero, suc, true, false, List, [], ◌∷◌, none, some, Bytes, length, ◌==◌}
use maka.Base.Int.{ℤ, pos}
use maka.Ast.Exprs.{
  Expr, lit, ident, bin, un, call, Exprs, no_exprs, exprs, no_expr, some_expr, Stmt, let_stmt,
  assign as assign_stmt, expr_stmt, return_stmt, if_stmt, while_stmt, block_stmt,
  break as break_stmt, continue as continue_stmt, Stmts, no_stmts, stmts, Block, block, no_block,
  some_block,
}
use maka.Ast.Items.{FuncDecl}
use maka.Ast.Types.{int, bool, char, and, or}
use maka.Ctfe.Outcome.{
  Outcome, done, no_value, out_of_fuel, bind, CtFlow, normal, break, continue, return, Table, Env,
  get, insert,
}
use maka.Ctfe.Steps.{
  truth, not_zero, assign_value, bin_value, un_value, bind_params, some_or, lookup, call_value,
}
use maka.Ctfe.Word.{is_zero}

-- `consts` is `self.constexprs`, `fns` is `self.constexpr_fns`. A function's last argument is the
-- budget, the one before it the environment; both come back with the result.
module _ (consts : Table ℤ) (fns : Table FuncDecl) where
  unfoldable mutual
    unfolding get lookup call_value bind_params assign_value bin_value un_value

    pub ct_expr : ℕ → Expr → Env → ℕ → Outcome ℤ
    ct_expr (suc f) (lit (int n) _) env (suc b) = done n b
    ct_expr (suc f) (lit (bool t) _) env (suc b) = done (truth t) b
    ct_expr (suc f) (lit (char c) _) env (suc b) = done (pos c) b
    ct_expr (suc f) (ident n _) env (suc b) = lookup consts env n b
    ct_expr (suc f) (un op e _) env (suc b) = bind (ct_expr f e env b) (λ v. done (un_value op v))
    ct_expr (suc f) (bin and l r _) env (suc b) = bind (ct_expr f l env b) (λ v b'.
        elim (is_zero v) [
          | true ↦ done (pos 0) b'
          | false ↦ bind (ct_expr f r env b') (λ w. done (truth (not_zero w)))
        ])
    ct_expr (suc f) (bin or l r _) env (suc b) = bind (ct_expr f l env b) (λ v b'.
        elim (is_zero v) [
          | false ↦ done (pos 1) b'
          | true ↦ bind (ct_expr f r env b') (λ w. done (truth (not_zero w)))
        ])
    ct_expr (suc f) (bin op l r _) env (suc b) =
        bind (ct_expr f l env b) (λ v b'. bind (ct_expr f r env b') (bin_value op v))
    ct_expr (suc f) (call (ident n _) args _ _) env (suc b) =
        bind (ct_args f args env b) (eval_const_fn f n)
    ct_expr zero _ env b = out_of_fuel
    ct_expr _ _ env b = no_value

    -- `for a in args { vals.push(self.ct_expr(a, env, budget)?); }`.
    pub ct_args : ℕ → Exprs → Env → ℕ → Outcome (List ℤ)
    ct_args zero args env b = out_of_fuel
    ct_args (suc f) no_exprs env b = done [] b
    ct_args (suc f) (exprs e es) env b =
        bind (ct_expr f e env b) (λ v b'. bind (ct_args f es env b') (λ vs. done (v ∷ vs)))

    pub eval_const_fn : ℕ → Bytes → List ℤ → ℕ → Outcome ℤ
    eval_const_fn zero name args b = out_of_fuel
    eval_const_fn (suc f) name args b = elim (get fns name) [
      | none ↦ no_value
      | some d ↦ elim (length d.params == length args) [
        | false ↦ no_value
        | true ↦ bind (ct_block f d.body (bind_params d.params args []) b) call_value
      ]
    ]

    pub ct_block : ℕ → Block → Env → ℕ → Outcome (CtFlow × Env)
    ct_block zero blk env b = out_of_fuel
    ct_block (suc f) (block ss _) env b = ct_stmts f ss env b

    pub ct_stmts : ℕ → Stmts → Env → ℕ → Outcome (CtFlow × Env)
    ct_stmts zero ss env b = out_of_fuel
    ct_stmts (suc f) no_stmts env b = done (normal, env) b
    ct_stmts (suc f) (stmts s ss) env b =
        bind (ct_stmt f s env b)
          (λ r b'. elim r.0 [ normal ↦ ct_stmts f ss r.1 b' | other ↦ done (other, r.1) b' ])

    pub ct_stmt : ℕ → Stmt → Env → ℕ → Outcome (CtFlow × Env)
    ct_stmt (suc f) (let_stmt _ _ name init _ _) env (suc b) =
        bind (ct_expr f init env b) (λ v. done (normal, insert name v env))
    ct_stmt (suc f) (assign_stmt op (ident name _) value _) env (suc b) =
        bind (ct_expr f value env b) (λ rhs b'.
          bind (assign_value op (some_or (pos 0) (get env name)) rhs b')
            (λ v. done (normal, insert name v env)))
    ct_stmt (suc f) (expr_stmt e _) env (suc b) = bind (ct_expr f e env b) (λ v. done (normal, env))
    ct_stmt (suc f) (return_stmt no_expr _) env (suc b) = done (return (pos 0), env) b
    ct_stmt (suc f) (return_stmt (some_expr e) _) env (suc b) =
        bind (ct_expr f e env b) (λ v. done (return v, env))
    ct_stmt (suc f) (if_stmt cond then_block else_block _) env (suc b) =
        bind (ct_expr f cond env b) (λ v b'. elim (is_zero v) [
          | false ↦ ct_block f then_block env b'
          | true ↦ elim else_block [
            | some_block eb ↦ ct_block f eb env b'
            | no_block ↦ done (normal, env) b'
          ]
        ])
    ct_stmt (suc f) (while_stmt cond body _) env (suc b) = ct_while f cond body env b
    ct_stmt (suc f) (block_stmt blk) env (suc b) = ct_block f blk env b
    ct_stmt (suc f) (break_stmt _) env (suc b) = done (break, env) b
    ct_stmt (suc f) (continue_stmt _) env (suc b) = done (continue, env) b
    ct_stmt zero _ env b = out_of_fuel
    ct_stmt _ _ env b = no_value

    pub ct_while : ℕ → Expr → Block → Env → ℕ → Outcome (CtFlow × Env)
    ct_while zero cond body env b = out_of_fuel
    ct_while (suc f) cond body env b = bind (ct_expr f cond env b) (λ v b'. elim (is_zero v) [
      | true ↦ done (normal, env) b'
      | false ↦ elim b' [
        | zero ↦ no_value
        | suc b'' ↦ bind (ct_block f body env b'') (λ r c. elim r.0 [
          | break ↦ done (normal, r.1) c
          | return v ↦ done (return v, r.1) c
          | _ ↦ ct_while f cond body r.1 c
        ])
      ]
    ])
