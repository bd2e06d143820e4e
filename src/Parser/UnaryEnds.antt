-- ===== src/Parser/UnaryEnds.antt =====
-- crates/parser/src/lib.rs: the unary operators and `has` keep within their fuel and within the tokens.
use maka.Base.{
  length, not, ◌&&◌, codes, ℕ, zero, suc, ◌+◌, ◌*◌, ◌≤◌, ◌<◌, ◌≡◌, ◌≢◌, Bool, true, false, arith,
}
use maka.Ast.Exprs.{Expr, heap_alloc, wall_mod, un}
use maka.Ast.Types.{TypeExpr, transfer, share, neg, not as not_op, bit_not}
use maka.Lexer.Token.{
  Span, TokKind, eof, alloc_kw, free_kw, transfer_kw, share_kw, mut_kw, as_kw, has_kw, minus, bang,
  tilde, amp,
}
use maka.Parser.Kind.{same_kind-eof}
use maka.Parser.Fueled.{Post-fueled, Eats}
use maka.Parser.Post.{
  Post, kind_of, Post-done, Post-tail, Post-if, Post-bind, Post-attempt, Post-peek, Post-peek_at,
  Post-peek_span, Post-bump, Post-at, Post-eat,
}
use maka.Parser.Expects.{Post-expect_ident, Post-position, Post-rewind, bump-Post}
use maka.Parser.Progress.{Ends, Step, Step_refl, weight}
use maka.Parser.State.{State, rest_of, read_of, P, ◌>>=◌, ◌>>◌, bump, pure}
use maka.Parser.Unary.{
  value_has, parse_has_pred, cast_loop, reference, unary_on, unary_rec, parse_unary, named,
  ends_operand,
}

module _ (n : ℕ) (typ : P TypeExpr) (next : P Expr) (ht : Eats n 1 typ) (hn : Eats n 1 next) where
  value_has-Post :
      (save : ℕ) (start : Span) {v x : State} {c : ℕ}
      → weight (rest_of v) < n
      → Step v v 0
      → Step v x c
      → save ≡ length (read_of v)
      → Post v 1 (value_has typ next save start x)
  unfolding value_has
  value_has-Post save start hl vv sx hs = Post-rewind vv sx hs (λ y sy.
      Post-bind sy (hn y (sy.ends) (omega (arith, sy.weigh))) (λ lhs z sz.
        Post-at has_kw z sz
          (λ p sp eq'. Post-bump sp (same_kind-eof (kind_of p) has_kw eq' (λ e. cc)) (λ a q sq.
            Post-expect_ident "trait name after `has`" sq
              (λ name r sr. Post-done sr (omega arith))))
          (λ p sp. Post-done sp (omega arith))))

  pub parse_has_pred-Eats : Eats n 1 (parse_has_pred typ next)
  unfolding parse_has_pred
  parse_has_pred-Eats t h hl = Post-peek_span t (Step_refl t h) (λ start u su ku.
      Post-position 1 u su (omega arith) (λ save v vv sv kv hs.
        Post-attempt vv (ht v (vv.ends) (omega (arith, sv.weigh)))
          (λ x sx. value_has-Post save start (omega (arith, sv.weigh)) vv sx hs)
          (λ ty x sx.
            Post-at has_kw x sx
              (λ y sy eq'. Post-bump sy (same_kind-eof (kind_of y) has_kw eq' (λ e. cc)) (λ a z sz.
                Post-expect_ident "trait name after `has`" sz
                  (λ name p sp. Post-done sp (omega arith))))
              (λ y sy. value_has-Post save start (omega (arith, sv.weigh)) vv sy hs))))

module _ (n : ℕ) (typ : P TypeExpr) (postfix : Bool → P Expr) (ht : Eats n 1 typ)
    (hp : (allow_as : Bool) → Eats n 1 (postfix allow_as)) where
  cast_loop-Post :
      (f : ℕ) (e : Expr) (t : State)
      → Ends (rest_of t)
      → weight (rest_of t) < n
      → 10 * weight (rest_of t) + 1 ≤ f
      → Post t 0 (cast_loop typ postfix e f t)
  unfolding cast_loop
  cast_loop-Post zero e t h hl hf = absurd (omega (arith, hf))
  cast_loop-Post (suc f) e t h hl hf =
      Post-at as_kw t (Step_refl t h)
        (λ u su eq'. Post-peek_span u su (λ span v sv kv.
          Post-bind sv (bump-Post v (sv.ends)) (λ a w sw.
            Post-bind sw (ht w (sw.ends) (omega (arith, sw.weigh))) (λ ty x sx.
              Post-tail sx
                (cast_loop-Post f _ x (sx.ends) (omega (arith, sx.weigh)) (omega (arith, sx.weigh)))
                (omega arith)))))
        (λ u su. Post-done su (omega arith))

  reference-Eats : (start : Span) → Eats n 1 (reference typ postfix start)
  unfolding reference
  reference-Eats start t h hl =
      Post-eat mut_kw t (Step_refl t h) (λ e. cc)
        (λ u su. Post-bind su (hp false u (su.ends) (omega (arith, su.weigh))) (λ e v sv.
          Post-tail sv
            (Post-fueled (cast_loop typ postfix _) v (λ f hf.
              cast_loop-Post f _ v (sv.ends) (omega (arith, sv.weigh)) (omega (arith, hf))))
            (omega arith)))
        (λ u su. Post-bind su (hp false u (su.ends) (omega (arith, su.weigh))) (λ e v sv.
          Post-tail sv
            (Post-fueled (cast_loop typ postfix _) v (λ f hf.
              cast_loop-Post f _ v (sv.ends) (omega (arith, sv.weigh)) (omega (arith, hf))))
            (omega arith)))

  -- An operator and its operand.
  prefix-Post :
      (unary : P Expr) (build : Expr → Expr) (t : State)
      → Ends (rest_of t)
      → kind_of t ≢ eof
      → Eats (weight (rest_of t)) 1 unary
      → Post t 1 ((bump >> (unary >>= λ e. pure (build e))) t)
  prefix-Post unary build t h ne hu = Post-bump (Step_refl t h) ne (λ a u su.
      Post-bind su (hu u (su.ends) (omega (arith, su.weigh)))
        (λ e v sv. Post-done sv (omega arith)))

  unary_on-Post :
      (unary : P Expr) (kind : TokKind) (start : Span) (t : State)
      → Ends (rest_of t)
      → weight (rest_of t) < n
      → Eats (weight (rest_of t)) 1 unary
      → kind_of t ≡ kind
      → Post t 1 (unary_on typ postfix unary kind start t)
  unfolding unary_on
  unary_on-Post unary alloc_kw start t h hl hu ke =
      prefix-Post unary (λ e. heap_alloc e start) t h (λ k. cc) hu
  unary_on-Post unary free_kw start t h hl hu ke =
      Post-bump (Step_refl t h) (λ k. cc)
        (λ a u su. Post-peek u su (λ first v sv kv. Post-peek_at 1 v sv (λ second w sw kw.
          Post-if (named (codes "deep") first && not (ends_operand second)) sw
            (λ x sx. Post-bind sx (bump-Post x (sx.ends)) (λ b y sy.
              Post-bind sy (hu y (sy.ends) (omega (arith, sy.weigh)))
                (λ e z sz. Post-done sz (omega arith))))
            (λ x sx.
              Post-bind sx (hu x (sx.ends) (omega (arith, sx.weigh)))
                (λ e z sz. Post-done sz (omega arith))))))
  unary_on-Post unary transfer_kw start t h hl hu ke =
      prefix-Post unary (λ e. wall_mod transfer e start) t h (λ k. cc) hu
  unary_on-Post unary share_kw start t h hl hu ke =
      prefix-Post unary (λ e. wall_mod share e start) t h (λ k. cc) hu
  unary_on-Post unary minus start t h hl hu ke =
      prefix-Post unary (λ e. un neg e start) t h (λ k. cc) hu
  unary_on-Post unary bang start t h hl hu ke =
      prefix-Post unary (λ e. un not_op e start) t h (λ k. cc) hu
  unary_on-Post unary tilde start t h hl hu ke =
      prefix-Post unary (λ e. un bit_not e start) t h (λ k. cc) hu
  unary_on-Post unary amp start t h hl hu ke =
      Post-bump (Step_refl t h) (λ k. cc)
        (λ a u su.
          Post-tail su (reference-Eats start u (su.ends) (omega (arith, su.weigh))) (omega arith))
  unary_on-Post unary _ start t h hl hu ke = hp true t h hl

  unary_rec-Post :
      (f : ℕ) (t : State)
      → Ends (rest_of t)
      → weight (rest_of t) < n
      → 10 * weight (rest_of t) + 1 ≤ f
      → Post t 1 (unary_rec typ postfix f t)
  unfolding unary_rec
  unary_rec-Post zero t h hl hf = absurd (omega (arith, hf))
  unary_rec-Post (suc f) t h hl hf = Post-peek_span t (Step_refl t h) (λ start u su ku.
      Post-peek u su (λ kind v sv kv.
        Post-tail sv
          (unary_on-Post (unary_rec typ postfix f) kind start v (sv.ends) (omega (arith, sv.weigh))
            (λ w hw lw. unary_rec-Post f w hw (omega (arith, sv.weigh)) (omega (arith, sv.weigh)))
            kv)
          (omega arith)))

  pub parse_unary-Eats : Eats n 1 (parse_unary typ postfix)
  unfolding parse_unary
  parse_unary-Eats t h hl =
      Post-fueled (unary_rec typ postfix) t (λ f hf. unary_rec-Post f t h hl (omega (arith, hf)))
