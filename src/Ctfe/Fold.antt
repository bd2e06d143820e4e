-- ===== src/Ctfe/Fold.antt =====
-- crates/parser/src/lib.rs: `try_fold_int`, the folding of a constant's initializer from its tokens.
use maka.Base.{
  ℕ, zero, suc, ◌-◌, ◌+◌, ◌*◌, length, ◌&&◌, Bool, List, [], ◌∷◌, ◌++◌, Option, none, some, Bytes,
  if◌then◌else◌,
}
use maka.Base.Int.{ℤ, pos, negsuc, i64_half}
use maka.Ast.Items.{FuncDecl}
use maka.Ctfe.Eval.{eval_const_fn}
use maka.Ctfe.Outcome.{Outcome, Table, get}
use maka.Ctfe.Outcome as Run
use maka.Ctfe.Word.{
  wrapping_add, wrapping_sub, wrapping_mul, wrapping_neg, int_eq, is_zero, int_div, int_rem,
  div_overflows,
}
use maka.Lexer.Token.{
  TokKind, int, true_kw, false_kw, char_lit, minus, plus, star, slash, percent, lparen, rparen,
  comma, ident,
}

-- An `Option<i64>` with the tokens from `self.pos` on. `panicked` is an overflow, `out_of_bounds` a
-- `peek` behind the last token; `out_of_fuel` has no counterpart in the program.
pub data Folded : Type 0 where
  folded : ℤ → List TokKind → Folded
  no_value panicked out_of_bounds out_of_fuel : Folded

abbrev pub and_then : Folded → (ℤ → List TokKind → Folded) → Folded
and_then (folded v ts) k = k v ts
and_then no_value k = no_value
and_then panicked k = panicked
and_then out_of_bounds k = out_of_bounds
and_then out_of_fuel k = out_of_fuel

-- `if r == 0 { return None; } left /= r;`, for either operator.
unfoldable pub divide : (ℤ → ℤ → ℤ) → ℤ → ℤ → List TokKind → Folded
unfolding int_eq div_overflows
divide op l r ts =
    if is_zero r then no_value else if div_overflows l r then panicked else folded (op l r) ts

-- `if !self.eat(&TokKind::RParen) { return None; } Some(v)`.
unfoldable pub close_paren : ℤ → List TokKind → Folded
close_paren v [] = out_of_bounds
close_paren v (rparen ∷ ts) = folded v ts
close_paren v _ = no_value

-- What a call of a constexpr function gives to the folding.
abbrev pub of_call : Outcome ℤ → List TokKind → Folded
of_call (Run.done v b) ts = folded v ts
of_call Run.no_value ts = no_value
of_call Run.panicked ts = panicked
of_call Run.out_of_fuel ts = out_of_fuel

abbrev pub of_constant : Option ℤ → List TokKind → Folded
of_constant none ts = no_value
of_constant (some v) ts = folded v ts

-- `let mut budget: u64 = 5_000_000`, and the fuel that is enough for it.
abbrev pub call_budget : ℕ
call_budget = 5000000

abbrev pub call_fuel : ℕ
call_fuel = 20000004

-- `Some(-n)`; the flag says if the compiler was built with overflow checks: the negation of `i64::MIN`
-- panics or wraps.
unfoldable pub negate : Bool → ℤ → List TokKind → Folded
unfolding int_eq wrapping_neg
negate overflow_checks n ts =
    if int_eq n (negsuc (i64_half - 1)) && overflow_checks
    then panicked
    else folded (wrapping_neg n) ts

module _ (overflow_checks : Bool) (consts : Table ℤ) (fns : Table FuncDecl) where
  unfoldable pub call_folded : Bytes → List ℤ → List TokKind → Folded
  call_folded name args ts = of_call (eval_const_fn consts fns call_fuel name args call_budget) ts

  unfoldable mutual
    unfolding wrapping_add wrapping_sub wrapping_mul int_div int_rem divide close_paren negate get

    pub fold_addsub : ℕ → List TokKind → Folded
    fold_addsub zero ts = out_of_fuel
    fold_addsub (suc f) ts = and_then (fold_muldiv f ts) (addsub_loop f)

    pub addsub_loop : ℕ → ℤ → List TokKind → Folded
    addsub_loop zero left ts = out_of_fuel
    addsub_loop (suc f) left [] = out_of_bounds
    addsub_loop (suc f) left (plus ∷ ts) =
        and_then (fold_muldiv f ts) (λ r. addsub_loop f (wrapping_add left r))
    addsub_loop (suc f) left (minus ∷ ts) =
        and_then (fold_muldiv f ts) (λ r. addsub_loop f (wrapping_sub left r))
    addsub_loop (suc f) left ts = folded left ts

    pub fold_muldiv : ℕ → List TokKind → Folded
    fold_muldiv zero ts = out_of_fuel
    fold_muldiv (suc f) ts = and_then (fold_atom f ts) (muldiv_loop f)

    pub muldiv_loop : ℕ → ℤ → List TokKind → Folded
    muldiv_loop zero left ts = out_of_fuel
    muldiv_loop (suc f) left [] = out_of_bounds
    muldiv_loop (suc f) left (star ∷ ts) =
        and_then (fold_atom f ts) (λ r. muldiv_loop f (wrapping_mul left r))
    muldiv_loop (suc f) left (slash ∷ ts) =
        and_then (fold_atom f ts) (λ r ts'. and_then (divide int_div left r ts') (muldiv_loop f))
    muldiv_loop (suc f) left (percent ∷ ts) =
        and_then (fold_atom f ts) (λ r ts'. and_then (divide int_rem left r ts') (muldiv_loop f))
    muldiv_loop (suc f) left ts = folded left ts

    pub fold_atom : ℕ → List TokKind → Folded
    fold_atom (suc f) [] = out_of_bounds
    fold_atom (suc f) (int n ∷ ts) = folded n ts
    fold_atom (suc f) (true_kw ∷ ts) = folded (pos 1) ts
    fold_atom (suc f) (false_kw ∷ ts) = folded (pos 0) ts
    fold_atom (suc f) (char_lit c ∷ ts) = folded (pos c) ts
    fold_atom (suc f) (minus ∷ ts) = and_then (fold_atom f ts) (negate overflow_checks)
    fold_atom (suc f) (lparen ∷ ts) = and_then (fold_addsub f ts) close_paren
    fold_atom (suc f) (ident name ∷ []) = out_of_bounds
    fold_atom (suc f) (ident name ∷ lparen ∷ rparen ∷ ts) = call_folded name [] ts
    fold_atom (suc f) (ident name ∷ lparen ∷ ts) = fold_args f name [] ts
    fold_atom (suc f) (ident name ∷ ts) = of_constant (get consts name) ts
    fold_atom zero ts = out_of_fuel
    fold_atom _ _ = no_value

    -- The loop over the arguments of a call; `args` is what it pushed.
    pub fold_args : ℕ → Bytes → List ℤ → List TokKind → Folded
    fold_args zero name args ts = out_of_fuel
    fold_args (suc f) name args ts =
        and_then (fold_addsub f ts) (λ a. fold_more f name (args ++ a ∷ []))

    -- Behind an argument.
    pub fold_more : ℕ → Bytes → List ℤ → List TokKind → Folded
    fold_more zero name args ts = out_of_fuel
    fold_more (suc f) name args [] = out_of_bounds
    fold_more (suc f) name args (comma ∷ ts) = fold_args f name args ts
    fold_more (suc f) name args (rparen ∷ ts) = call_folded name args ts
    fold_more (suc f) name args ts = no_value

  -- `try_fold_int`, on the tokens from `self.pos` on, with a fuel that is enough.
  unfoldable pub try_fold_int : List TokKind → Folded
  unfolding fold_addsub
  try_fold_int ts = fold_addsub (5 * length ts + 3) ts
