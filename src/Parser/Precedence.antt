-- ===== src/Parser/Precedence.antt =====
-- crates/parser/src/lib.rs: `parse_expr` reads a formula as its grammar groups it.
use maka.Base.{
  ℕ, zero, suc, ◌+◌, ◌*◌, ◌<◌, ◌≤◌, ◌≡◌, refl, Bool, true, false, List, [], ◌∷◌, none, arith,
}
use maka.Base.Int.{ℤ}
use maka.Ast.Exprs.{Expr, Block}
use maka.Ast.Items.{FuncDecl}
use maka.Ast.Types.{TypeExpr, neg, not, bit_not}
use maka.Ctfe.Outcome.{Table}
use maka.Lexer.Token.{Token, int as int_tok, true_kw, false_kw, rparen, lparen, minus, tilde, bang}
use maka.Parser.Formula.{
  prefix_sign, Prefixes, Formula, Atom, operand, number, truth, parens, prefix_tokens,
  formula_tokens, atom_tokens, with_prefixes, tree, atom_tree, rank,
}
use maka.Parser.Fueled.{fueled}
use maka.Parser.Grammar.{tok}
use maka.Parser.Kind.{discriminant}
use maka.Parser.Opening.{
  Opening, plain, behind_paren, two_parens, an_int, a_true, a_false, a_minus, a_bang, a_tilde,
  formula_tokens-Opening, atom_tokens-Opening, type_p-Refuses, type_base_p-Refuses,
  try_parse_lambda-passes, parse_has_pred-passes,
}
use maka.Parser.Lambda.{try_parse_lambda}
use maka.Parser.Postfix.{parse_postfix_inner, postfix_loop}
use maka.Parser.Primary.{parse_primary, primary_on, in_parens}
use maka.Parser.Progress.{weight}
use maka.Parser.TypeTokens.{Gives}
use maka.Parser.State.{Build, P, state, parsed, peek, peek_span, bump, at, eat, expect}
use maka.Parser.Unary.{parse_has_pred, parse_unary, unary_rec, unary_on}
use maka.Parser.Exprs.{
  type_p, type_base_p, primary, unary, or_level, parse_expr, parse_block, expr_here,
}
use maka.Parser.Operators.{
  mul-stops, add-stops, shift-stops, rel-stops, bitand-stops, bitxor-stops, bitor-stops, eq-stops,
  and-stops, or-stops, has-stops, postfix_on-stops,
}
use maka.Parser.Loops.{head_rank, Reads, Stops, prefix-weight, binary-Reads}

-- The operand of prefix operators.
prefix-Reads :
    (typ : P TypeExpr) (postfix : Bool → P Expr) (a : Atom) (rest : List Token)
    → ((read : List Token)
        → Gives (postfix true (state read (atom_tokens a rest))) (atom_tree a) rest)
    → (os : Prefixes) (f : ℕ) (read : List Token)
    → weight (prefix_tokens os (atom_tokens a rest)) < f
    → Gives
        (unary_rec typ postfix f (state read (prefix_tokens os (atom_tokens a rest))))
        (with_prefixes os (atom_tree a))
        rest
unfolding unary_rec unary_on formula_tokens prefix_sign peek peek_span bump discriminant weight
prefix-Reads typ postfix a rest h os zero read w = absurd (omega (arith, w))
prefix-Reads typ postfix (number i s) rest h [] (suc f) read w = h read
prefix-Reads typ postfix (truth true s) rest h [] (suc f) read w = h read
prefix-Reads typ postfix (truth false s) rest h [] (suc f) read w = h read
prefix-Reads typ postfix (parens g s) rest h [] (suc f) read w = h read
prefix-Reads typ postfix a rest h ((neg, s) ∷ os) (suc f) read w =
    let (r, e) = prefix-Reads typ postfix a rest h os f (tok minus s ∷ read) (omega (arith, w)) in
    (r, rw e refl)
prefix-Reads typ postfix a rest h ((not, s) ∷ os) (suc f) read w =
    let (r, e) = prefix-Reads typ postfix a rest h os f (tok bang s ∷ read) (omega (arith, w)) in
    (r, rw e refl)
prefix-Reads typ postfix a rest h ((bit_not, s) ∷ os) (suc f) read w =
    let (r, e) = prefix-Reads typ postfix a rest h os f (tok tilde s ∷ read) (omega (arith, w)) in
    (r, rw e refl)

postfix_loop-stops :
    (typ : P TypeExpr) (expr : P Expr) (e : Expr) (f : ℕ) (x : Token) (rest read : List Token)
    → 1 ≤ f
    → 0 < rank (x.kind)
    → postfix_loop typ expr true e f (state read (x ∷ rest)) ≡ parsed e (state read (x ∷ rest))
unfolding postfix_loop peek
postfix_loop-stops typ expr e zero x rest read h k = absurd (omega (arith, h))
postfix_loop-stops typ expr e (suc f) x rest read h k =
    postfix_on-stops typ expr e (x.kind) (λ e'. postfix_loop typ expr true e' f)
      (state read (x ∷ rest)) k

postfix-Reads :
    (typ : P TypeExpr) (expr operand_p : P Expr) (e : Expr) (rest read ts : List Token)
    → 0 < head_rank rest
    → Gives (operand_p (state read ts)) e rest
    → Gives (parse_postfix_inner typ expr operand_p true (state read ts)) e rest
unfolding parse_postfix_inner fueled
postfix-Reads typ expr operand_p e [] read ts k h = absurd (omega (arith, k))
postfix-Reads typ expr operand_p e (x ∷ rest) read ts k (r, h) = (
  r,
  rw (h) (postfix_loop-stops typ expr e (10 * weight (x ∷ rest) + 10) x rest r (omega arith) k),
)

no_rparen :
    {ts : List Token}
    → Opening ts
    → (read : List Token) → eat rparen (state read ts) ≡ parsed false (state read ts)
unfolding eat at peek discriminant
no_rparen (plain an_int) read = refl
no_rparen (plain a_true) read = refl
no_rparen (plain a_false) read = refl
no_rparen (plain a_minus) read = refl
no_rparen (plain a_bang) read = refl
no_rparen (plain a_tilde) read = refl
no_rparen (behind_paren p) read = refl
no_rparen two_parens read = refl

module _ (built : Build) (consts : Table ℤ) (fns : Table FuncDecl) where
  module _ (f : ℕ) (expr : P Expr) (block : P Block) (h : Reads 10 f expr) where
    no_lambda :
        (a : Atom) (rest read : List Token)
        → try_parse_lambda
            (type_base_p built consts fns)
            expr
            block
            (state read (atom_tokens a rest))
          ≡ parsed none (state read (atom_tokens a rest))
    no_lambda a rest read =
        let o : Opening (atom_tokens a rest) = atom_tokens-Opening a rest in
        try_parse_lambda-passes (type_base_p built consts fns) read expr block o
          (type_base_p-Refuses built consts fns o read)

    atom-Reads :
        (a : Atom) (rest read : List Token)
        → weight (atom_tokens a rest) < suc f
        → Gives
            (primary built consts fns expr block (state read (atom_tokens a rest)))
            (atom_tree a)
            rest
    unfolding primary parse_primary primary_on in_parens formula_tokens tree peek peek_span bump at
        expect discriminant rank weight
    atom-Reads (number i s) rest read w =
        (tok (int_tok i) s ∷ read, rw (no_lambda (number i s) rest read) refl)
    atom-Reads (truth true s) rest read w =
        (tok true_kw s ∷ read, rw (no_lambda (truth true s) rest read) refl)
    atom-Reads (truth false s) rest read w =
        (tok false_kw s ∷ read, rw (no_lambda (truth false s) rest read) refl)
    atom-Reads (parens g s) rest read w =
        let (r, e) =
          h g (tok rparen s ∷ rest) (tok lparen s ∷ read) (omega arith) (omega (arith, w)) in
        (
          tok rparen s ∷ r,
          rw
              (
                no_lambda (parens g s) rest read,
                no_rparen (formula_tokens-Opening g (tok rparen s ∷ rest)) (tok lparen s ∷ read),
                e,
              )
              refl,
        )

    unary-Reads : Reads 0 (suc f) (unary built consts fns expr block)
    unfolding unary parse_unary fueled formula_tokens tree
    unary-Reads (operand os a) rest read r w =
        prefix-Reads (type_p built consts fns)
          (parse_postfix_inner (type_p built consts fns) expr (primary built consts fns expr block))
          a rest
          (λ read'.
            postfix-Reads (type_p built consts fns) expr (primary built consts fns expr block)
              (atom_tree a) rest read' (atom_tokens a rest) r
              (atom-Reads a rest read' (omega (arith, w, prefix-weight os (atom_tokens a rest)))))
          os (10 * weight (prefix_tokens os (atom_tokens a rest)) + 10) read (omega arith)

    has-Reads :
        {n : ℕ} (next : P Expr)
        → Reads n (suc f) next
        → Reads n (suc f) (parse_has_pred (type_p built consts fns) next)
    has-Reads next k g [] read r w = absurd (omega (arith, r))
    has-Reads next k g (x ∷ rest) read r w =
        let (r', e) = k g (x ∷ rest) read r w in
        let o = formula_tokens-Opening g (x ∷ rest) in
        (
          r',
          parse_has_pred-passes (type_p built consts fns) read next (tree g) r' x rest o
              (type_p-Refuses built consts fns o read) e (has-stops (x.kind) (omega (arith, r))),
        )

    or_level-Reads : Reads 10 (suc f) (or_level built consts fns expr block)
    unfolding or_level Stops
    or_level-Reads = binary-Reads 9 (suc f) _ or-stops (
        binary-Reads 8 (suc f) _ and-stops (
          has-Reads _ (
            binary-Reads 7 (suc f) _ eq-stops (
              binary-Reads 6 (suc f) _ bitor-stops (
                binary-Reads 5 (suc f) _ bitxor-stops (
                  binary-Reads 4 (suc f) _ bitand-stops (
                    binary-Reads 3 (suc f) _ rel-stops (
                      binary-Reads 2 (suc f) _ shift-stops (
                        binary-Reads 1 (suc f) _ add-stops
                          (binary-Reads 0 (suc f) _ mul-stops unary-Reads))))))))))

  parse_expr-Reads : (f : ℕ) → Reads 10 f (parse_expr built consts fns f)
  unfolding parse_expr
  parse_expr-Reads zero g rest read r w = absurd (omega (arith, w))
  parse_expr-Reads (suc f) g rest read r w =
      or_level-Reads f (parse_expr built consts fns f) (parse_block built consts fns f)
        (parse_expr-Reads f) g rest read r w

  -- Numbers and truth values with prefix operators, binary operators and parentheses, before a token that
  -- does not go on with an expression: `parse_expr` reads them all, gives every operator the level of the
  -- table, groups each level to the left, and stops at that token.
  pub parse_expr-formula :
      (g : Formula 10) (x : Token) (rest read : List Token)
      → 10 < rank (x.kind)
      → Gives
          (expr_here built consts fns (state read (formula_tokens g (x ∷ rest))))
          (tree g)
          (x ∷ rest)
  unfolding expr_here
  parse_expr-formula g x rest read r =
      parse_expr-Reads (weight (formula_tokens g (x ∷ rest)) + 1) g (x ∷ rest) read r (omega arith)
