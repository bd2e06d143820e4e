-- ===== src/Tests/Calls.antt =====
-- The theorems on the compile-time interpreter at a concrete program.
use maka.Ast.Exprs.{
  Expr, lit, ident, bin, some_expr, let_stmt, assign as assign_stmt, return_stmt, while_stmt,
  no_stmts, stmts, block,
}
use maka.Ast.Items.{FuncDecl}
use maka.Ast.Types.{
  TypeExpr, named, default, int, gt, add_assign, sub_assign, div, mod_op, div_assign, mod_assign,
}
use maka.Base.{arith, ℕ, ◌+◌, false, [], ◌∷◌, ◌≡◌, ◌≢◌, ◌↔◌, refl, Bytes, codes}
use maka.Base.Int.{ℤ, pos, negsuc}
use maka.Ctfe.Budget.{eval_const_fn-budget}
use maka.Ctfe.Division.{IsOverflow, division-panicked}
use maka.Ctfe.Eval.{eval_const_fn}
use maka.Ctfe.Fuel.{eval_const_fn-ends}
use maka.Ctfe.Left.{Left}
use maka.Ctfe.Outcome.{done, panicked, out_of_fuel, Table}
use maka.Ctfe.Steps.{bin_value, assign_value}
use maka.Lexer.Token.{Span}

abbrev at : Span
at = record { start = 0; end = 0; line = 1; col = 1 }

abbrev int_type : TypeExpr
int_type = named (codes "int") at

abbrev var : Bytes → Expr
var x = ident x at

abbrev number : ℕ → Expr
number n = lit (int (pos n)) at

-- `constexpr int sum(int n) { int s = 0; while (n > 0) { s += n; n -= 1; } return s; }`.
abbrev sum : FuncDecl
sum = record {
  name = codes "sum";
  type_params = [];
  params = record { name = codes "n"; ty = int_type; span = at } ∷ [];
  ret = int_type;
  body =
      block
        (stmts (let_stmt default int_type (codes "s") (number 0) false at) (
          stmts
            (while_stmt (bin gt (var (codes "n")) (number 0) at)
              (block
                (stmts (assign_stmt add_assign (var (codes "s")) (var (codes "n")) at)
                  (stmts (assign_stmt sub_assign (var (codes "n")) (number 1) at) no_stmts))
                at)
              at)
            (stmts (return_stmt (some_expr (var (codes "s"))) at) no_stmts)))
        at;
  is_inline = false;
  is_gate = false;
  is_pub = false;
  is_export = false;
  where_clauses = [];
  span = at;
}

abbrev program : Table FuncDecl
program = (codes "sum", sum) ∷ []

sum_run : eval_const_fn [] program 404 (codes "sum") (pos 3 ∷ []) 100 ≡ done (pos 6) 68
unfolding eval_const_fn
sum_run = refl

eval_const_fn-budget_example :
    eval_const_fn [] program 804 (codes "sum") (pos 3 ∷ []) (100 + 50) ≡ done (pos 6) (68 + 50)
eval_const_fn-budget_example =
    eval_const_fn-budget [] program (codes "sum") (pos 3 ∷ []) 100 50 404 804 (pos 6) 68
      (omega arith) sum_run

eval_const_fn-ends_example :
    Left 11 (eval_const_fn [] program 44 (codes "sum") (pos 3 ∷ []) 10)
    × (eval_const_fn [] program 44 (codes "sum") (pos 3 ∷ []) 10 ≢ out_of_fuel)
eval_const_fn-ends_example =
    eval_const_fn-ends [] program (codes "sum") (pos 3 ∷ []) 10 44 (omega arith)

abbrev least : ℤ
least = negsuc 9223372036854775807

division-panicked_example :
    ((bin_value div least (negsuc 0) 9 ≡ panicked) ↔ IsOverflow least (negsuc 0))
    × ((bin_value mod_op least (negsuc 0) 9 ≡ panicked) ↔ IsOverflow least (negsuc 0))
    × ((assign_value div_assign least (negsuc 0) 9 ≡ panicked) ↔ IsOverflow least (negsuc 0))
    × ((assign_value mod_assign least (negsuc 0) 9 ≡ panicked) ↔ IsOverflow least (negsuc 0))
division-panicked_example = division-panicked least (negsuc 0) 9
