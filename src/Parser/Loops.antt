-- ===== src/Parser/Loops.antt =====
-- crates/parser/src/lib.rs: the loop of a level reads the operators of that level.
use maka.Base.{
  ℕ, zero, suc, ◌+◌, ◌*◌, ◌<◌, ◌≤◌, ◌≡◌, ◌≢◌, refl, subst, false, List, [], ◌∷◌, none, some,
  get_elem?, arith,
}
use maka.Ast.Exprs.{Expr, bin, expr_span}
use maka.Ast.Types.{BinOp}
use maka.Lexer.Token.{Token, TokKind, rparen, eof}
use maka.Parser.Formula.{
  sign, Prefixes, Formula, Atom, Links, operand, chain, number, truth, parens, done, link,
  prefix_tokens, formula_tokens, atom_tokens, links_tokens, tree, links_tree, rank,
}
use maka.Parser.Fueled.{fueled}
use maka.Parser.Grammar.{tok}
use maka.Parser.Kind.{same_kind}
use maka.Parser.Levels.{Ops, binary, bin_loop}
use maka.Parser.Opening.{formula_tokens-Opening}
use maka.Parser.Progress.{weight, kind_weight-positive}
use maka.Parser.TypeTokens.{Gives}
use maka.Parser.State.{P, State, state, parsed, kind_or_eof, peek, peek_at, bump}
use maka.Parser.Operators.{ops_at, ops_at-sign, rank-sign, sign-goes_on, opening-follows}

abbrev pub head_rank : List Token → ℕ
head_rank [] = 0
head_rank (t ∷ ts) = rank (t.kind)

-- The parser reads a formula of the level from fewer than `f` tokens, up to a token of a higher rank.
abbrev pub Reads : ℕ → ℕ → P Expr → Type 0
Reads n f p =
    (g : Formula n) (rest read : List Token)
    → n < head_rank rest
    → weight (formula_tokens g rest) < f
    → Gives (p (state read (formula_tokens g rest))) (tree g) rest

pub prefix-weight : (os : Prefixes) (ts : List Token) → weight ts ≤ weight (prefix_tokens os ts)
unfolding weight
prefix-weight [] ts = omega arith
prefix-weight ((o, s) ∷ os) ts = omega (arith, prefix-weight os ts)

mutual
  unfolding formula_tokens weight

  formula-weight :
      {n : ℕ} (g : Formula n) (rest : List Token) → weight rest ≤ weight (formula_tokens g rest)
  formula-weight (operand os a) rest =
      omega (arith, atom-weight a rest, prefix-weight os (atom_tokens a rest))
  formula-weight (chain g l) rest =
      omega (arith, chain-weight l rest, formula-weight g (links_tokens l rest))

  atom-weight : (a : Atom) (rest : List Token) → weight rest ≤ weight (atom_tokens a rest)
  atom-weight (number i s) rest = omega arith
  atom-weight (truth b s) rest = omega arith
  atom-weight (parens g s) rest = omega (arith, formula-weight g (tok rparen s ∷ rest))

  chain-weight :
      {n : ℕ} (l : Links n) (rest : List Token) → weight rest ≤ weight (links_tokens l rest)
  chain-weight done rest = omega arith
  chain-weight (link o e s g l) rest =
      omega (arith, formula-weight g (links_tokens l rest), chain-weight l rest)

chain-rank :
    {n : ℕ} (l : Links n) (rest : List Token)
    → suc n < head_rank rest
    → n < head_rank (links_tokens l rest)
unfolding formula_tokens
chain-rank done rest h = omega (arith, h)
chain-rank (link o e s g l) rest h = omega (arith, rank-sign o, e)

-- A level above another one.
unfoldable pub Stops : ℕ → Type 0
Stops n = (k m : TokKind) → rank k ≢ suc n → ops_at n k m ≡ none

module _ (ops : Ops) (next : P Expr) (lhs : Expr) (f : ℕ) (read : List Token) where
  loop-stops :
      (x : Token) (rest : List Token)
      → ops (x.kind) (kind_or_eof (get_elem? (x ∷ rest) 1)) ≡ none
      → bin_loop ops next lhs (suc f) (state read (x ∷ rest)) ≡ parsed lhs (state read (x ∷ rest))
  unfolding bin_loop peek peek_at
  loop-stops x rest h = rw h refl

  loop-goes_on :
      (x : Token) (rest : List Token) (o : BinOp) (rhs : Expr) (t u : State) (e : Expr)
      → ops (x.kind) (kind_or_eof (get_elem? (x ∷ rest) 1)) ≡ some o
      → same_kind (x.kind) eof ≡ false
      → next (state (x ∷ read) rest) ≡ parsed rhs t
      → bin_loop ops next (bin o lhs rhs (expr_span lhs)) f t ≡ parsed e u
      → bin_loop ops next lhs (suc f) (state read (x ∷ rest)) ≡ parsed e u
  unfolding bin_loop peek peek_at bump
  loop-goes_on x rest o rhs t u e h k n l = rw (h, k, n, l) refl

bin_loop-Reads :
    (n f : ℕ) (next : P Expr)
    → Stops n
    → Reads n f next
    → (l : Links n) (lhs : Expr) (fuel : ℕ) (rest read : List Token) → suc n < head_rank rest
    → weight (links_tokens l rest) < f
    → weight (links_tokens l rest) < fuel
    → Gives
        (bin_loop (ops_at n) next lhs fuel (state read (links_tokens l rest)))
        (links_tree lhs l)
        rest
unfolding Stops formula_tokens tree weight
bin_loop-Reads n f next st h l lhs zero rest read r w v = absurd (omega (arith, v))
bin_loop-Reads n f next st h done lhs (suc fuel) [] read r w v = absurd (omega (arith, r))
bin_loop-Reads n f next st h done lhs (suc fuel) (x ∷ rest) read r w v = (
  read,
  loop-stops (ops_at n) next lhs fuel read x rest (st (x.kind) _ (λ e. omega (arith, e, r))),
)
bin_loop-Reads n f next st h (link o e s g l) lhs (suc fuel) rest read r w v =
    let ts : List Token = links_tokens l rest in
    let op : ops_at n (sign o) (kind_or_eof (get_elem? (tok (sign o) s ∷ formula_tokens g ts) 1))
        ≡ some o =
      subst
        (λ i.
          ops_at i (sign o) (kind_or_eof (get_elem? (tok (sign o) s ∷ formula_tokens g ts) 1))
          ≡ some o)
        e (ops_at-sign o _ (opening-follows (formula_tokens-Opening g ts) (tok (sign o) s))) in
    let (r1, e1) = h g ts (tok (sign o) s ∷ read) (chain-rank l rest r) (omega (arith, w)) in
    let (r2, e2) =
      bin_loop-Reads n f next st h l (bin o lhs (tree g) (expr_span lhs)) fuel rest r1 r
        (omega (arith, w, formula-weight g ts))
        (omega (arith, v, formula-weight g ts, kind_weight-positive (sign o))) in
    (
      r2,
      loop-goes_on (ops_at n) next lhs fuel read (tok (sign o) s) (formula_tokens g ts) o (tree g) _
          _ _ op (sign-goes_on o) e1 e2,
    )

pub binary-Reads :
    (n f : ℕ) (next : P Expr) → Stops n → Reads n f next → Reads (suc n) f (binary (ops_at n) next)
unfolding formula_tokens tree binary fueled
binary-Reads n f next st h (chain g l) rest read r w =
    let ts : List Token = links_tokens l rest in
    let lw : weight ts < f = omega (arith, w, formula-weight g ts) in
    let (r1, e1) = h g ts read (chain-rank l rest r) w in
    let (r2, e2) =
      bin_loop-Reads n f next st h l (tree g) (10 * weight ts + 10) rest r1 r lw (omega arith) in
    (r2, rw (e1) e2)
