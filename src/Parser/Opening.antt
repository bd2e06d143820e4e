-- ===== src/Parser/Opening.antt =====
-- crates/parser/src/lib.rs: the look-aheads before a formula find no type and no lambda.
use maka.Base.{
  ℕ, zero, suc, ◌+◌, ◌*◌, ◌≤◌, ◌≡◌, refl, true, false, List, [], ◌∷◌, ◌++◌, none, ap, length, arith,
}
use maka.Base.Int.{ℤ}
use maka.Ast.Exprs.{Expr, Block}
use maka.Ast.Items.{FuncDecl}
use maka.Ast.Types.{TypeExpr, neg, not, bit_not}
use maka.Ctfe.Outcome.{Table}
use maka.Lexer.Token.{
  Span, Token, TokKind, int, true_kw, false_kw, minus, bang, tilde, lparen, has_kw,
}
use maka.Parser.Formula.{
  Formula, Atom, Prefixes, operand, chain, number, truth, parens, formula_tokens, atom_tokens,
  prefix_tokens, prefix_sign,
}
use maka.Parser.Fueled.{fueled}
use maka.Parser.Grammar.{tok}
use maka.Parser.Kind.{same_kind, discriminant}
use maka.Parser.Lambda.{try_parse_lambda, lambda_here}
use maka.Parser.Progress.{unread, back-moved, weight}
use maka.Parser.State.{
  Build, P, state, ParseError, parsed, failed, peek, peek_span, bump, at, eat, expect, position,
  rewind,
}
use maka.Parser.Types.{parse_type, parse_type_base}
use maka.Parser.Exprs.{type_p, type_base_p}
use maka.Parser.Unary.{parse_has_pred, value_has}

-- The kinds that a formula starts with, but for the parenthesis.
pub data Plain : TokKind → Type 0 where
  an_int : {i : ℤ} → Plain (int i)
  a_true : Plain true_kw
  a_false : Plain false_kw
  a_minus : Plain minus
  a_bang : Plain bang
  a_tilde : Plain tilde

-- How the tokens of a formula start.
pub data Opening : List Token → Type 0 where
  plain : {k : TokKind} {s : Span} {ts : List Token} → Plain k → Opening (tok k s ∷ ts)
  behind_paren :
      {k : TokKind} {s t : Span} {ts : List Token} → Plain k → Opening (tok lparen s ∷ tok k t ∷ ts)
  two_parens : {s t : Span} {ts : List Token} → Opening (tok lparen s ∷ tok lparen t ∷ ts)

in_parens : {ts : List Token} {s : Span} → Opening ts → Opening (tok lparen s ∷ ts)
in_parens (plain p) = behind_paren p
in_parens (behind_paren p) = two_parens
in_parens two_parens = two_parens

prefixed : (os : Prefixes) {ts : List Token} → Opening ts → Opening (prefix_tokens os ts)
unfolding prefix_sign
prefixed [] h = h
prefixed ((neg, s) ∷ os) h = plain a_minus
prefixed ((not, s) ∷ os) h = plain a_bang
prefixed ((bit_not, s) ∷ os) h = plain a_tilde

mutual
  unfolding formula_tokens

  pub formula_tokens-Opening :
      {n : ℕ} (g : Formula n) (rest : List Token) → Opening (formula_tokens g rest)
  formula_tokens-Opening (operand os a) rest = prefixed os (atom_tokens-Opening a rest)
  formula_tokens-Opening (chain g l) rest = formula_tokens-Opening g _

  pub atom_tokens-Opening : (a : Atom) (rest : List Token) → Opening (atom_tokens a rest)
  atom_tokens-Opening (number i s) rest = plain an_int
  atom_tokens-Opening (truth true s) rest = plain a_true
  atom_tokens-Opening (truth false s) rest = plain a_false
  atom_tokens-Opening (parens g s) rest = in_parens (formula_tokens-Opening g _)

-- The parser fails, and going back to where it started finds the tokens as they were.
abbrev pub Refuses : {A : Type 0} → P A → List Token → List Token → Type 0
Refuses p read ts =
    (e : ParseError) × (ms : List Token) × (us : List Token) × (p (state read ts)
      ≡ failed e (state (ms ++ read) us))
    × (unread ms us ≡ ts)

pub rewind-unread :
    (ms read us : List Token)
    → rewind (length read) (state (ms ++ read) us) ≡ parsed tt (state read (unread ms us))
unfolding rewind
rewind-unread ms read us = ap (parsed tt) (back-moved ms read us)

module _ (built : Build) (consts : Table ℤ) (fns : Table FuncDecl) where
  type_base-Refuses :
      {ts : List Token}
      → Opening ts
      → (f : ℕ) (read : List Token) → 2 ≤ f
      → Refuses (parse_type_base built consts fns f) read ts
  unfolding parse_type_base peek peek_span at eat bump expect discriminant
  type_base-Refuses o zero read h = absurd (omega (arith, h))
  type_base-Refuses o (suc zero) read h = absurd (omega (arith, h))
  type_base-Refuses (plain an_int) (suc (suc f)) read h = (_, [], _, refl, refl)
  type_base-Refuses (plain a_true) (suc (suc f)) read h = (_, [], _, refl, refl)
  type_base-Refuses (plain a_false) (suc (suc f)) read h = (_, [], _, refl, refl)
  type_base-Refuses (plain a_minus) (suc (suc f)) read h = (_, [], _, refl, refl)
  type_base-Refuses (plain a_bang) (suc (suc f)) read h = (_, [], _, refl, refl)
  type_base-Refuses (plain a_tilde) (suc (suc f)) read h = (_, [], _, refl, refl)
  type_base-Refuses (behind_paren {s} an_int) (suc (suc f)) read h =
      (_, tok lparen s ∷ [], _, refl, refl)
  type_base-Refuses (behind_paren {s} a_true) (suc (suc f)) read h =
      (_, tok lparen s ∷ [], _, refl, refl)
  type_base-Refuses (behind_paren {s} a_false) (suc (suc f)) read h =
      (_, tok lparen s ∷ [], _, refl, refl)
  type_base-Refuses (behind_paren {s} a_minus) (suc (suc f)) read h =
      (_, tok lparen s ∷ [], _, refl, refl)
  type_base-Refuses (behind_paren {s} a_bang) (suc (suc f)) read h =
      (_, tok lparen s ∷ [], _, refl, refl)
  type_base-Refuses (behind_paren {s} a_tilde) (suc (suc f)) read h =
      (_, tok lparen s ∷ [], _, refl, refl)
  type_base-Refuses (two_parens {s}) (suc (suc f)) read h = (_, tok lparen s ∷ [], _, refl, refl)

  type-Refuses :
      {ts : List Token}
      → Opening ts
      → (f : ℕ) (read : List Token) → 3 ≤ f
      → Refuses (parse_type built consts fns f) read ts
  unfolding parse_type
  type-Refuses o zero read h = absurd (omega (arith, h))
  type-Refuses o (suc f) read h =
      let (e, ms, us, r, back) = type_base-Refuses o f read (omega (arith, h)) in
      (e, ms, us, rw r refl, back)

  pub type_p-Refuses :
      {ts : List Token}
      → Opening ts
      → (read : List Token) → Refuses (type_p built consts fns) read ts
  unfolding type_p fueled
  type_p-Refuses {ts} o read = type-Refuses o (10 * weight ts + 10) read (omega arith)

  pub type_base_p-Refuses :
      {ts : List Token}
      → Opening ts
      → (read : List Token) → Refuses (type_base_p built consts fns) read ts
  unfolding type_base_p fueled
  type_base_p-Refuses {ts} o read = type_base-Refuses o (10 * weight ts + 10) read (omega arith)

-- Without a type before them the look-aheads go back to where they started.
module _ (typ : P TypeExpr) (read : List Token) where
  pub try_parse_lambda-passes :
      (expr : P Expr) (block : P Block) {ts : List Token}
      → Opening ts
      → Refuses typ read ts
      → try_parse_lambda typ expr block (state read ts) ≡ parsed none (state read ts)
  unfolding try_parse_lambda lambda_here position peek_span
  try_parse_lambda-passes expr block (plain p) (e, ms, us, r, back) =
      rw (r, rewind-unread ms read us, back) refl
  try_parse_lambda-passes expr block (behind_paren p) (e, ms, us, r, back) =
      rw (r, rewind-unread ms read us, back) refl
  try_parse_lambda-passes expr block two_parens (e, ms, us, r, back) =
      rw (r, rewind-unread ms read us, back) refl

  pub parse_has_pred-passes :
      (next : P Expr) (v : Expr) (r : List Token) (x : Token) (rest : List Token) {ts : List Token}
      → Opening ts
      → Refuses typ read ts
      → next (state read ts) ≡ parsed v (state r (x ∷ rest))
      → same_kind (x.kind) has_kw ≡ false
      → parse_has_pred typ next (state read ts) ≡ parsed v (state r (x ∷ rest))
  unfolding parse_has_pred value_has position peek_span at peek
  parse_has_pred-passes next v r x rest (plain p) (e, ms, us, f, back) g h =
      rw (f, rewind-unread ms read us, back, g, h) refl
  parse_has_pred-passes next v r x rest (behind_paren p) (e, ms, us, f, back) g h =
      rw (f, rewind-unread ms read us, back, g, h) refl
  parse_has_pred-passes next v r x rest two_parens (e, ms, us, f, back) g h =
      rw (f, rewind-unread ms read us, back, g, h) refl
