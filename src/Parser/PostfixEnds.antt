-- ===== src/Parser/PostfixEnds.antt =====
-- crates/parser/src/lib.rs: the postfix operators keep within their fuel and within the tokens.
use maka.Base.{length, sym, ◌∙◌, ℕ, zero, suc, ◌+◌, ◌*◌, ◌≤◌, ◌<◌, ◌≡◌, Bool, true, Bytes, arith}
use maka.Ast.Exprs.{Expr, ident}
use maka.Ast.Types.{TypeExpr}
use maka.Lexer.Token.{
  Span, TokKind, colon_colon, lparen, rbracket, dot, lbracket, bang, as_kw, lt, gt,
}
use maka.Parser.Kind.{same_kind-eof}
use maka.Parser.Fueled.{Post-fueled, Eats, Post-eat_ident}
use maka.Parser.Lists.{type_args}
use maka.Parser.ListEnds.{
  is_struct_lit_context-Post, type_args-Post, call_args-Eats, struct_fields-Eats,
}
use maka.Parser.Post.{
  Post, kind_of, Post-done, Post-tail, Post-if, Post-bind, Post-peek, Post-peek_span, Post-bump,
  Post-at,
}
use maka.Parser.Expects.{Post-expect, Post-expect_ident, Post-position, Post-rewind}
use maka.Parser.Postfix.{
  qualified_call, variant_or_field, behind_dot, postfix_on, postfix_loop, parse_postfix_inner,
}
use maka.Parser.Progress.{Ends, Step, Step_refl, weight}
use maka.Parser.State.{State, rest_of, read_of, P, ◌>>◌, rewind}

module _ (n : ℕ) (typ : P TypeExpr) (ht : Eats n 1 typ) (expr : P Expr) (he : Eats n 1 expr) where
  -- The next round is `again`.
  module _ (m : ℕ) (mn : m ≤ n) (again : Expr → P Expr) (hc : (e : Expr) → Eats m 0 (again e)) where
    back-Post :
        (e : Expr) {save : ℕ} {v x : State} {c : ℕ}
        → Step v v 0
        → Step v x c
        → save ≡ length (read_of v)
        → weight (rest_of v) < m
        → Post v 0 ((rewind save >> again e) x)
    back-Post e vv sx hs hl =
        Post-rewind vv sx hs
          (λ y sy. Post-tail sy (hc e y (sy.ends) (omega (arith, hl, sy.weigh))) (omega arith))

    qualified_call-Eats :
        (e : Expr) (name : Bytes) (span : Span)
        → Eats m 0 (qualified_call typ expr e name span again)
    unfolding qualified_call
    qualified_call-Eats e name span t h hl =
        Post-at colon_colon t (Step_refl t h)
          (λ u su eq'. Post-position 0 u su (omega arith) (λ save v vv sv kv hs.
            Post-bump vv (λ k. same_kind-eof (kind_of u) colon_colon eq' (λ e'. cc) (sym kv ∙ k))
              (λ a w sw.
                Post-eat_ident w sw (λ x sx. back-Post _ vv sx hs (omega (arith, sv.weigh)))
                  (λ meth x sx.
                    Post-at lparen x sx
                      (λ y sy eq''.
                        Post-bump sy (same_kind-eof (kind_of y) lparen eq'' (λ e'. cc)) (λ b z sz.
                          Post-bind sz
                            (call_args-Eats n expr he z (sz.ends)
                              (omega (arith, mn, sv.weigh, sz.weigh)))
                            (λ args q sq.
                              Post-tail sq (hc _ q (sq.ends) (omega (arith, sv.weigh, sq.weigh)))
                                (omega arith))))
                      (λ y sy. back-Post _ vv sy hs (omega (arith, sv.weigh)))))))
          (λ u su. Post-tail su (hc _ u (su.ends) (omega (arith, su.weigh))) (omega arith))

    variant_or_field-Eats :
        (enum : Bytes) (e : Expr) (name : Bytes) (span : Span)
        → Eats m 0 (variant_or_field typ expr enum e name span again)
    unfolding variant_or_field
    variant_or_field-Eats enum e name span t h hl =
        Post-bind (Step_refl t h) (is_struct_lit_context-Post t h) (λ literal u su.
          Post-if literal su
            (λ v sv.
              Post-bind sv
                (struct_fields-Eats n expr he v (sv.ends) (omega (arith, mn, hl, sv.weigh)))
                (λ fields w sw.
                  Post-tail sw (hc _ w (sw.ends) (omega (arith, hl, sw.weigh))) (omega arith)))
            (λ v sv.
              Post-tail sv
                (qualified_call-Eats e name span v (sv.ends) (omega (arith, hl, sv.weigh)))
                (omega arith)))

    behind_dot-Eats :
        (e : Expr) (name : Bytes) (span : Span) → Eats m 0 (behind_dot typ expr e name span again)
    unfolding behind_dot
    behind_dot-Eats (ident enum s) name span = variant_or_field-Eats enum (ident enum s) name span
    behind_dot-Eats e name span = qualified_call-Eats e name span

    postfix_on-Eats :
        (allow_as : Bool) (e : Expr) (kind : TokKind) (t : State)
        → Ends (rest_of t)
        → weight (rest_of t) < suc m
        → kind_of t ≡ kind
        → Post t 0 (postfix_on typ expr allow_as e kind again t)
    unfolding postfix_on
    postfix_on-Eats allow_as e dot t h hl ke = Post-peek_span t (Step_refl t h) (λ span u su ku.
        Post-bump su (λ k. cc)
          (λ a v sv. Post-expect_ident "field name" sv (λ name w sw.
            Post-tail sw (behind_dot-Eats e (name.0) span w (sw.ends) (omega (arith, sw.weigh)))
              (omega arith))))
    postfix_on-Eats allow_as e lbracket t h hl ke =
        Post-peek_span t (Step_refl t h) (λ span u su ku.
          Post-bump su (λ k. cc)
            (λ a v sv. Post-bind sv (he v (sv.ends) (omega (arith, mn, sv.weigh))) (λ idx w sw.
              Post-expect rbracket "`]`" sw (λ e'. cc)
                (λ b x sx.
                  Post-tail sx (hc _ x (sx.ends) (omega (arith, sx.weigh))) (omega arith)))))
    postfix_on-Eats allow_as e lparen t h hl ke = Post-peek_span t (Step_refl t h) (λ span u su ku.
        Post-bump su (λ k. cc)
          (λ a v sv.
            Post-bind sv (call_args-Eats n expr he v (sv.ends) (omega (arith, mn, sv.weigh)))
              (λ args w sw.
                Post-tail sw (hc _ w (sw.ends) (omega (arith, sw.weigh))) (omega arith))))
    postfix_on-Eats allow_as e colon_colon t h hl ke =
        Post-position 0 t (Step_refl t h) (omega arith) (λ save u uu su ku hs.
          Post-bump uu (λ k. cc)
            (λ a v sv.
              Post-at lt v sv
                (λ w sw eq'. Post-bump sw (same_kind-eof (kind_of w) lt eq' (λ e'. cc)) (λ b x sx.
                  Post-bind sx
                    (Post-fueled (type_args typ) x (λ f hf.
                      type_args-Post n typ ht f x (sx.ends) (omega (arith, mn, su.weigh, sx.weigh))
                        (omega (arith, hf))))
                    (λ targs y sy.
                      Post-expect gt "`>` to close the type arguments" sy (λ e'. cc)
                        (λ c z sz. Post-peek_span z sz (λ span p sp kp.
                          Post-expect lparen
                            "`(` - `::<...>` type arguments are only valid on a call" sp (λ e'. cc)
                            (λ d q sq.
                              Post-bind sq
                                (call_args-Eats n expr he q (sq.ends)
                                  (omega (arith, mn, su.weigh, sq.weigh)))
                                (λ args r sr.
                                  Post-tail sr
                                    (hc _ r (sr.ends) (omega (arith, su.weigh, sr.weigh)))
                                    (omega arith))))))))
                (λ w sw. Post-rewind uu sw hs (λ x sx. Post-done sx (omega arith)))))
    postfix_on-Eats allow_as e bang t h hl ke = Post-peek_span t (Step_refl t h) (λ span u su ku.
        Post-bump su (λ k. cc)
          (λ a v sv. Post-tail sv (hc _ v (sv.ends) (omega (arith, sv.weigh))) (omega arith)))
    postfix_on-Eats true e as_kw t h hl ke = Post-peek_span t (Step_refl t h) (λ span u su ku.
        Post-bump su (λ k. cc)
          (λ a v sv.
            Post-bind sv (ht v (sv.ends) (omega (arith, mn, sv.weigh)))
              (λ ty w sw. Post-tail sw (hc _ w (sw.ends) (omega (arith, sw.weigh))) (omega arith))))
    postfix_on-Eats allow_as e _ t h hl ke = Post-done (Step_refl t h) (omega arith)

  postfix_loop-Post :
      (allow_as : Bool) (f : ℕ) (e : Expr) (t : State)
      → Ends (rest_of t)
      → weight (rest_of t) < suc n
      → 10 * weight (rest_of t) + 1 ≤ f
      → Post t 0 (postfix_loop typ expr allow_as e f t)
  unfolding postfix_loop
  postfix_loop-Post allow_as zero e t h hl hf = absurd (omega (arith, hf))
  postfix_loop-Post allow_as (suc f) e t h hl hf = Post-peek t (Step_refl t h) (λ kind u su ku.
      Post-tail su
        (postfix_on-Eats (weight (rest_of u)) (omega (arith, su.weigh))
          (λ e'. postfix_loop typ expr allow_as e' f)
          (λ e' v hv lv.
            postfix_loop-Post allow_as f e' v hv (omega (arith, su.weigh))
              (omega (arith, su.weigh)))
          allow_as e kind u (su.ends) (omega arith) ku)
        (omega arith))

  pub parse_postfix_inner-Eats :
      (primary : P Expr) (allow_as : Bool)
      → Eats (suc n) 1 primary
      → Eats (suc n) 1 (parse_postfix_inner typ expr primary allow_as)
  unfolding parse_postfix_inner
  parse_postfix_inner-Eats primary allow_as hp t h hl =
      Post-bind (Step_refl t h) (hp t h hl) (λ e u su.
        Post-tail su
          (Post-fueled (postfix_loop typ expr allow_as e) u (λ f hf.
            postfix_loop-Post allow_as f e u (su.ends) (omega (arith, su.weigh))
              (omega (arith, hf))))
          (omega arith))
