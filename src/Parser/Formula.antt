-- ===== src/Parser/Formula.antt =====
-- crates/parser/src/lib.rs: formulas, that is numbers and truth values with the operators and with
-- parentheses: what is written, its tokens with any others behind them, and the tree that it stands
-- for. The table of the operators' levels is all that says how they group.
use maka.Base.{ℕ, zero, suc, Bool, List, [], ◌∷◌, ◌≡◌, if◌then◌else◌}
use maka.Base.Int.{ℤ}
use maka.Ast.Exprs.{Expr, lit, bin, un, expr_span}
use maka.Ast.Types.{
  int, bool, BinOp, add, sub, mul, div, mod_op, eq, ne, lt, le, gt, ge, and, or, bit_and, bit_or,
  bit_xor, shl, shr, UnOp, neg, not, bit_not,
}
use maka.Lexer.Token.{
  Span, Token, TokKind, int as int_tok, true_kw, false_kw, lparen, rparen, plus, minus, star, slash,
  percent, eq_eq, not_eq, lt as lt_tok, gt as gt_tok, lt_eq, gt_eq, and_and, or_or, amp, pipe,
  caret, shl_op, shr_op, bang, tilde, lbracket, colon_colon, dot, as_kw, has_kw,
}
use maka.Parser.Grammar.{tok}

-- The operators of a lower level bind more strongly.
unfoldable pub level : BinOp → ℕ
level mul = 0
level div = 0
level mod_op = 0
level add = 1
level sub = 1
level shl = 2
level shr = 2
level lt = 3
level le = 3
level gt = 3
level ge = 3
level bit_and = 4
level bit_xor = 5
level bit_or = 6
level eq = 7
level ne = 7
level and = 8
level or = 9

unfoldable pub sign : BinOp → TokKind
sign mul = star
sign div = slash
sign mod_op = percent
sign add = plus
sign sub = minus
sign shl = shl_op
sign shr = shr_op
sign lt = lt_tok
sign le = lt_eq
sign gt = gt_tok
sign ge = gt_eq
sign bit_and = amp
sign bit_xor = caret
sign bit_or = pipe
sign eq = eq_eq
sign ne = not_eq
sign and = and_and
sign or = or_or

unfoldable pub prefix_sign : UnOp → TokKind
prefix_sign neg = minus
prefix_sign not = bang
prefix_sign bit_not = tilde

-- The signs before an operand.
abbrev pub Prefixes : Type 0
Prefixes = List (UnOp × Span)

-- A formula of a level has operators of lower levels only, outside its parentheses.
mutual
  pub data Formula : ℕ → Type 0 where
    operand : Prefixes → Atom → Formula zero
    chain : {n : ℕ} → Formula n → Links n → Formula (suc n)

  pub data Atom : Type 0 where
    number : ℤ → Span → Atom
    truth : Bool → Span → Atom
    parens : Formula 10 → Span → Atom

  -- The operators of a level and what is behind each of them.
  pub data Links : ℕ → Type 0 where
    done : {n : ℕ} → Links n
    link : {n : ℕ} (o : BinOp) → level o ≡ n → Span → Formula n → Links n → Links n

abbrev pub prefix_tokens : Prefixes → List Token → List Token
prefix_tokens [] rest = rest
prefix_tokens ((o, s) ∷ os) rest = tok (prefix_sign o) s ∷ prefix_tokens os rest

unfoldable mutual
  pub formula_tokens : {n : ℕ} → Formula n → List Token → List Token
  formula_tokens (operand os a) rest = prefix_tokens os (atom_tokens a rest)
  formula_tokens (chain g l) rest = formula_tokens g (links_tokens l rest)

  pub atom_tokens : Atom → List Token → List Token
  atom_tokens (number i s) rest = tok (int_tok i) s ∷ rest
  atom_tokens (truth b s) rest = tok (if b then true_kw else false_kw) s ∷ rest
  atom_tokens (parens g s) rest = tok lparen s ∷ formula_tokens g (tok rparen s ∷ rest)

  pub links_tokens : {n : ℕ} → Links n → List Token → List Token
  links_tokens done rest = rest
  links_tokens (link o e s g l) rest = tok (sign o) s ∷ formula_tokens g (links_tokens l rest)

abbrev pub with_prefixes : Prefixes → Expr → Expr
with_prefixes [] e = e
with_prefixes ((o, s) ∷ os) e = un o (with_prefixes os e) s

-- The operators of a level group to the left.
unfoldable mutual
  pub tree : {n : ℕ} → Formula n → Expr
  tree (operand os a) = with_prefixes os (atom_tree a)
  tree (chain g l) = links_tree (tree g) l

  pub atom_tree : Atom → Expr
  atom_tree (number i s) = lit (int i) s
  atom_tree (truth b s) = lit (bool b) s
  atom_tree (parens g s) = tree g

  pub links_tree : {n : ℕ} → Expr → Links n → Expr
  links_tree lhs done = lhs
  links_tree lhs (link o e s g l) = links_tree (bin o lhs (tree g) (expr_span lhs)) l

-- The level at which a kind goes on with an expression, from 1 on: 0 for what goes on with an operand or
-- with a test, 11 for what ends an expression.
unfoldable pub rank : TokKind → ℕ
rank dot = 0
rank lbracket = 0
rank lparen = 0
rank colon_colon = 0
rank bang = 0
rank as_kw = 0
rank has_kw = 0
rank star = 1
rank slash = 1
rank percent = 1
rank plus = 2
rank minus = 2
rank shl_op = 3
rank shr_op = 3
rank lt_tok = 4
rank lt_eq = 4
rank gt_tok = 4
rank gt_eq = 4
rank amp = 5
rank caret = 6
rank pipe = 7
rank eq_eq = 8
rank not_eq = 8
rank and_and = 9
rank or_or = 10
rank _ = 11
