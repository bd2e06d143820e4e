-- ===== src/Parser/ListEnds.antt =====
-- crates/parser/src/lib.rs: arguments and fields keep within their fuel and the tokens.
use maka.Base.{ℕ, zero, suc, ◌+◌, ◌*◌, ◌≤◌, ◌<◌, Option, Bytes, arith}
use maka.Ast.Exprs.{Expr}
use maka.Ast.Types.{TypeExpr}
use maka.Lexer.Token.{Span, rparen, lbrace, rbrace, comma, eq}
use maka.Parser.Fueled.{Post-fueled, Eats}
use maka.Parser.Lists.{
  is_struct_lit_context, struct_lit_context, type_args, expr_list, call_args, init_list,
  struct_fields, parse_struct_lit,
}
use maka.Parser.Post.{
  Post, Post-done, Post-if, Post-bind, Post-peek, Post-peek_at, Post-at, Post-eat,
}
use maka.Parser.Expects.{Post-expect, Post-expect_ident}
use maka.Parser.Progress.{Ends, Step_refl, weight}
use maka.Parser.State.{State, rest_of, P}

pub is_struct_lit_context-Post : (t : State) → Ends (rest_of t) → Post t 0 (is_struct_lit_context t)
unfolding is_struct_lit_context
is_struct_lit_context-Post t h = Post-peek t (Step_refl t h) (λ kind u su ke.
    Post-peek_at 1 u su (λ first v sv kv. Post-peek_at 2 v sv (λ second w sw kw.
      Post-if (struct_lit_context kind first second) sw (λ x sx. Post-done sx (omega arith))
        (λ x sx. Post-done sx (omega arith)))))

module _ (n : ℕ) (typ : P TypeExpr) (ht : Eats n 1 typ) where
  pub type_args-Post :
      (f : ℕ) (s : State)
      → Ends (rest_of s)
      → weight (rest_of s) < n
      → 10 * weight (rest_of s) + 1 ≤ f
      → Post s 1 (type_args typ f s)
  unfolding type_args
  type_args-Post zero s h lt hf = absurd (omega (arith, hf))
  type_args-Post (suc f) s h lt hf = Post-bind (Step_refl s h) (ht s h lt) (λ t u su.
      Post-eat comma u su (λ e. cc)
        (λ v sv.
          Post-bind sv
            (type_args-Post f v (sv.ends) (omega (arith, sv.weigh)) (omega (arith, sv.weigh)))
            (λ ts w sw. Post-done sw (omega arith)))
        (λ v sv. Post-done sv (omega arith)))

module _ (n : ℕ) (expr : P Expr) (he : Eats n 1 expr) where
  expr_list-Post :
      (f : ℕ) (s : State)
      → Ends (rest_of s)
      → weight (rest_of s) < n
      → 10 * weight (rest_of s) + 1 ≤ f
      → Post s 1 (expr_list expr f s)
  unfolding expr_list
  expr_list-Post zero s h lt hf = absurd (omega (arith, hf))
  expr_list-Post (suc f) s h lt hf = Post-bind (Step_refl s h) (he s h lt) (λ t u su.
      Post-eat comma u su (λ e. cc)
        (λ v sv.
          Post-bind sv
            (expr_list-Post f v (sv.ends) (omega (arith, sv.weigh)) (omega (arith, sv.weigh)))
            (λ ts w sw. Post-done sw (omega arith)))
        (λ v sv. Post-done sv (omega arith)))

  pub call_args-Eats : Eats n 1 (call_args expr)
  unfolding call_args
  call_args-Eats s h lt =
      Post-at rparen s (Step_refl s h)
        (λ u su eq'. Post-expect rparen "`)`" su (λ e. cc) (λ a v sv. Post-done sv (omega arith)))
        (λ u su.
          Post-bind su
            (Post-fueled (expr_list expr) u
              (λ f hf. expr_list-Post f u (su.ends) (omega (arith, su.weigh)) (omega (arith, hf))))
            (λ args v sv.
              Post-expect rparen "`)`" sv (λ e. cc) (λ a w sw. Post-done sw (omega arith))))

  init_list-Post :
      (f : ℕ) (s : State)
      → Ends (rest_of s)
      → weight (rest_of s) < n
      → 10 * weight (rest_of s) + 1 ≤ f
      → Post s 1 (init_list expr f s)
  unfolding init_list
  init_list-Post zero s h lt hf = absurd (omega (arith, hf))
  init_list-Post (suc f) s h lt hf = Post-expect_ident "field name" (Step_refl s h) (λ name t st.
      Post-expect eq "`=`" st (λ e. cc)
        (λ a u su. Post-bind su (he u (su.ends) (omega (arith, su.weigh))) (λ val v sv.
          Post-eat comma v sv (λ e. cc)
            (λ w sw.
              Post-at rbrace w sw (λ x sx e. Post-done sx (omega arith))
                (λ x sx.
                  Post-bind sx
                    (init_list-Post f x (sx.ends) (omega (arith, sx.weigh))
                      (omega (arith, sx.weigh)))
                    (λ others y sy. Post-done sy (omega arith))))
            (λ w sw. Post-done sw (omega arith)))))

  pub struct_fields-Eats : Eats (suc n) 1 (struct_fields expr)
  unfolding struct_fields
  struct_fields-Eats s h lt =
      Post-expect lbrace "`{`" (Step_refl s h) (λ e. cc)
        (λ a t st.
          Post-at rbrace t st
            (λ u su eq'.
              Post-expect rbrace "`}`" su (λ e. cc) (λ b v sv. Post-done sv (omega arith)))
            (λ u su.
              Post-bind su
                (Post-fueled (init_list expr) u (λ f hf.
                  init_list-Post f u (su.ends) (omega (arith, su.weigh)) (omega (arith, hf))))
                (λ fields v sv.
                  Post-expect rbrace "`}`" sv (λ e. cc) (λ b w sw. Post-done sw (omega arith)))))

  pub parse_struct_lit-Eats :
      (ty : Option Bytes) (span : Span) → Eats (suc n) 1 (parse_struct_lit expr ty span)
  unfolding parse_struct_lit
  parse_struct_lit-Eats ty span s h lt =
      Post-bind (Step_refl s h) (struct_fields-Eats s h lt)
        (λ fields t st. Post-done st (omega arith))
