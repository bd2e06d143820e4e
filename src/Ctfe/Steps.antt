-- ===== src/Ctfe/Steps.antt =====
-- crates/parser/src/lib.rs: the parts of the interpreter that call no other part of it.
use maka.Base.{ℕ, Bool, not, List, ◌∷◌, Option, none, some, Bytes, if◌then◌else◌}
use maka.Base.Int.{ℤ, pos}
use maka.Ast.Types.{
  Param, BinOp, add, sub, mul, div, mod_op, eq, ne, lt, le, gt, ge, and, or, bit_and, bit_or,
  bit_xor, shl, shr, UnOp, neg, not as not_op, bit_not as bit_not_op, AssignOp, assign, add_assign,
  sub_assign, mul_assign, div_assign, mod_assign,
}
use maka.Ctfe.Outcome.{
  Outcome, done, no_value, panicked, CtFlow, normal, return, Table, Env, get, insert,
}
use maka.Ctfe.Word.{
  wrapping_add, wrapping_sub, wrapping_mul, wrapping_neg, bit_not, int_and, int_or, int_xor,
  wrapping_shl, wrapping_shr, int_eq, int_lt, is_zero, int_div, int_rem, div_overflows,
}

abbrev pub not_zero : ℤ → Bool
not_zero a = not (is_zero a)

abbrev pub truth : Bool → ℤ
truth b = if b then pos 1 else pos 0

-- A division: none by zero, a panic on overflow.
unfoldable pub checked : (ℤ → ℤ → ℤ) → ℤ → ℤ → ℕ → Outcome ℤ
unfolding int_eq div_overflows
checked op l r b =
    if is_zero r then no_value else if div_overflows l r then panicked else done (op l r) b

-- `match op { … }` of `Stmt::Assign`.
unfoldable pub assign_value : AssignOp → ℤ → ℤ → ℕ → Outcome ℤ
unfolding checked wrapping_add wrapping_sub wrapping_mul int_div int_rem
assign_value assign cur rhs b = done rhs b
assign_value add_assign cur rhs b = done (wrapping_add cur rhs) b
assign_value sub_assign cur rhs b = done (wrapping_sub cur rhs) b
assign_value mul_assign cur rhs b = done (wrapping_mul cur rhs) b
assign_value div_assign cur rhs b = checked int_div cur rhs b
assign_value mod_assign cur rhs b = checked int_rem cur rhs b

-- `match op { … }` of `Expr::Bin`; the logical operators are handled before it.
unfoldable pub bin_value : BinOp → ℤ → ℤ → ℕ → Outcome ℤ
unfolding checked wrapping_add wrapping_sub wrapping_mul int_div int_rem int_eq int_lt int_and
    int_or int_xor wrapping_shl wrapping_shr
bin_value add l r b = done (wrapping_add l r) b
bin_value sub l r b = done (wrapping_sub l r) b
bin_value mul l r b = done (wrapping_mul l r) b
bin_value div l r b = checked int_div l r b
bin_value mod_op l r b = checked int_rem l r b
bin_value eq l r b = done (truth (int_eq l r)) b
bin_value ne l r b = done (truth (not (int_eq l r))) b
bin_value lt l r b = done (truth (int_lt l r)) b
bin_value le l r b = done (truth (not (int_lt r l))) b
bin_value gt l r b = done (truth (int_lt r l)) b
bin_value ge l r b = done (truth (not (int_lt l r))) b
bin_value bit_and l r b = done (int_and l r) b
bin_value bit_or l r b = done (int_or l r) b
bin_value bit_xor l r b = done (int_xor l r) b
bin_value shl l r b = done (wrapping_shl l r) b
bin_value shr l r b = done (wrapping_shr l r) b
bin_value and l r b = panicked
bin_value or l r b = panicked

unfoldable pub un_value : UnOp → ℤ → ℤ
unfolding wrapping_neg bit_not int_eq
un_value neg v = wrapping_neg v
un_value not_op v = truth (is_zero v)
un_value bit_not_op v = bit_not v

-- `for (p, a) in f.params.iter().zip(args) { env.insert(p.name.clone(), *a); }`.
unfoldable pub bind_params : List Param → List ℤ → Env → Env
bind_params (p ∷ ps) (a ∷ as') env = bind_params ps as' (insert p.name a env)
bind_params _ _ env = env

abbrev pub some_or : {A : Type 0} → A → Option A → A
some_or d none = d
some_or d (some a) = a

abbrev pub found : Option ℤ → ℕ → Outcome ℤ
found none b = no_value
found (some v) b = done v b

-- `env.get(n).copied().or_else(|| self.constexprs.get(n).copied())`.
unfoldable pub lookup : Table ℤ → Env → Bytes → ℕ → Outcome ℤ
unfolding get
lookup consts env n b = elim (get env n) [ some v ↦ done v b | none ↦ found (get consts n) b ]

-- The end of `eval_const_fn`: what the body's flow gives.
unfoldable pub call_value : CtFlow × Env → ℕ → Outcome ℤ
call_value (return v, env) b = done v b
call_value (normal, env) b = done (pos 0) b
call_value (_, env) b = no_value
