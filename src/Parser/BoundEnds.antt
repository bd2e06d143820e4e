-- ===== src/Parser/BoundEnds.antt =====
-- crates/parser/src/lib.rs: lists, type parameters and where clauses keep within their fuel and the
-- tokens.
use Prim.Native.String.{String}
use maka.Base.{ℕ, zero, suc, ◌+◌, ◌*◌, ◌≤◌, ◌<◌, ◌≢◌, Bool, List, [], ◌∷◌, false, arith}
use maka.Ast.Types.{TypeExpr, named}
use maka.Lexer.Token.{Span, TokKind, eof, eq, lt, gt, comma, colon, plus, rbrace, where_kw, has_kw}
use maka.Parser.Bounds.{
  separated, until_rbrace, comma_until_rbrace, list_behind, binds, claims, bound_arg, bound_args,
  clause, param_default, type_param, parse_type_params_with_bounds, parse_type_params, where_clause,
  parse_where_clauses,
}
use maka.Parser.Fueled.{fueled, Post-fueled, Eats, Post-part}
use maka.Parser.Post.{
  Post, Post-done, Post-fail, Post-tail, Post-if, Post-bind, Post-peek, Post-peek_at,
  Post-peek_span, Post-at, Post-eat,
}
use maka.Parser.Expects.{bump-Post, Post-expect, Post-expect_ident}
use maka.Parser.Progress.{Ends, Step_refl, weight}
use maka.Parser.State.{State, rest_of, P, ◌>>=◌, ◌>>◌, pure, expect}

module _ {A : Type 0} (n : ℕ) (p : P A) where
  module _ (hp : Eats n 1 p) where
    separated-Post :
        (x : TokKind)
        → x ≢ eof
        → (f : ℕ) (s : State) → Ends (rest_of s)
        → weight (rest_of s) < n
        → 10 * weight (rest_of s) + 1 ≤ f
        → Post s 1 (separated x p f s)
    unfolding separated
    separated-Post x ne zero s h hl hf = absurd (omega (arith, hf))
    separated-Post x ne (suc f) s h hl hf = Post-part (Step_refl s h) hp hl (λ a u su.
        Post-eat x u su ne
          (λ v sv.
            Post-bind sv
              (separated-Post x ne f v (sv.ends) (omega (arith, sv.weigh))
                (omega (arith, sv.weigh)))
              (λ others w sw. Post-done sw (omega arith)))
          (λ v sv. Post-done sv (omega arith)))

    pub separated-Eats : (x : TokKind) → x ≢ eof → Eats n 1 (fueled (separated x p))
    separated-Eats x ne s h hl =
        Post-fueled (separated x p) s (λ f hf. separated-Post x ne f s h hl (omega (arith, hf)))

    until_rbrace-Post :
        (f : ℕ) (s : State)
        → Ends (rest_of s)
        → weight (rest_of s) < n
        → 10 * weight (rest_of s) + 1 ≤ f
        → Post s 0 (until_rbrace p f s)
    unfolding until_rbrace
    until_rbrace-Post zero s h hl hf = absurd (omega (arith, hf))
    until_rbrace-Post (suc f) s h hl hf =
        Post-at rbrace s (Step_refl s h) (λ u su e. Post-done su (omega arith))
          (λ u su. Post-part su hp (omega (arith, hl, su.weigh)) (λ a v sv.
            Post-bind sv
              (until_rbrace-Post f v (sv.ends) (omega (arith, sv.weigh)) (omega (arith, sv.weigh)))
              (λ others w sw. Post-done sw (omega arith))))

    pub until_rbrace-Eats : Eats n 0 (fueled (until_rbrace p))
    until_rbrace-Eats s h hl =
        Post-fueled (until_rbrace p) s (λ f hf. until_rbrace-Post f s h hl (omega (arith, hf)))

    comma_until_rbrace-Post :
        (f : ℕ) (s : State)
        → Ends (rest_of s)
        → weight (rest_of s) < n
        → 10 * weight (rest_of s) + 1 ≤ f
        → Post s 0 (comma_until_rbrace p f s)
    unfolding comma_until_rbrace
    comma_until_rbrace-Post zero s h hl hf = absurd (omega (arith, hf))
    comma_until_rbrace-Post (suc f) s h hl hf =
        Post-at rbrace s (Step_refl s h) (λ u su e. Post-done su (omega arith))
          (λ u su. Post-part su hp (omega (arith, hl, su.weigh)) (λ a v sv.
            Post-eat comma v sv (λ e. cc)
              (λ w sw.
                Post-bind sw
                  (comma_until_rbrace-Post f w (sw.ends) (omega (arith, sw.weigh))
                    (omega (arith, sw.weigh)))
                  (λ others x sx. Post-done sx (omega arith)))
              (λ w sw. Post-done sw (omega arith))))

    pub comma_until_rbrace-Eats : Eats n 0 (fueled (comma_until_rbrace p))
    comma_until_rbrace-Eats s h hl =
        Post-fueled (comma_until_rbrace p) s
          (λ f hf. comma_until_rbrace-Post f s h hl (omega (arith, hf)))

module _ {A : Type 0} (n : ℕ) (p : P (List A)) (hp : Eats n 0 p) where
  pub list_behind-Eats : (k : TokKind) → k ≢ eof → Eats n 0 (list_behind k p)
  unfolding list_behind
  list_behind-Eats k ne s h hl =
      Post-eat k s (Step_refl s h) ne
        (λ u su. Post-tail su (hp u (su.ends) (omega (arith, hl, su.weigh))) (omega arith))
        (λ u su. Post-done su (omega arith))

-- What eats more also eats less.
pub Eats-less : {A : Type 0} (n : ℕ) (p : P A) → Eats n 1 p → Eats n 0 p
Eats-less n p hp s h hl = Post-tail (Step_refl s h) (hp s h hl) (omega arith)

module _ (n : ℕ) (typ : P TypeExpr) (ht : Eats n 1 typ) where
  bound_arg-Eats : Eats n 1 (bound_arg typ)
  unfolding bound_arg
  bound_arg-Eats s h hl = Post-peek s (Step_refl s h) (λ first u su ku.
      Post-peek_at 1 u su (λ second v sv kv.
        Post-if (binds first second) sv
          (λ w sw. Post-expect_ident "assoc-type name" sw (λ name x sx.
            Post-expect eq "`=`" sx (λ e. cc)
              (λ a y sy.
                Post-part sy ht (omega (arith, hl, sy.weigh))
                  (λ ty z sz. Post-done sz (omega arith)))))
          (λ w sw.
            Post-part sw ht (omega (arith, hl, sw.weigh)) (λ ty x sx. Post-done sx (omega arith)))))

  pub closed_by_gt-Eats :
      {A : Type 0} (p : P (List A))
      → Eats n 1 p
      → Eats n 1 (do args ← p; expect gt "`>`"; pure args)
  closed_by_gt-Eats p hp s h hl =
      Post-part (Step_refl s h) hp hl
        (λ args u su. Post-expect gt "`>`" su (λ e. cc) (λ a v sv. Post-done sv (omega arith)))

  bound_args-Eats : Eats n 0 (bound_args typ)
  unfolding bound_args
  bound_args-Eats =
      list_behind-Eats n _
        (Eats-less n _
          (closed_by_gt-Eats _ (separated-Eats n (bound_arg typ) bound_arg-Eats comma (λ e. cc))))
        lt (λ e. cc)

  clause-Eats :
      (what : String) (first : List TypeExpr) (start : Span)
      → Eats n 1 (clause typ what first start)
  unfolding clause
  clause-Eats what first start s h hl = Post-expect_ident what (Step_refl s h) (λ trait u su.
      Post-part su bound_args-Eats (omega (arith, hl, su.weigh))
        (λ args v sv. Post-done sv (omega arith)))

  param_default-Eats : (allow_defaults : Bool) → Eats n 0 (param_default typ allow_defaults)
  unfolding param_default
  param_default-Eats allow_defaults s h hl =
      Post-at eq s (Step_refl s h)
        (λ u su e.
          Post-if allow_defaults su
            (λ v sv. Post-bind sv (bump-Post v (sv.ends)) (λ a w sw.
              Post-part sw ht (omega (arith, hl, sw.weigh))
                (λ ty x sx. Post-done sx (omega arith))))
            (λ v sv. Post-peek_span v sv (λ span w sw kw. Post-fail sw)))
        (λ u su. Post-done su (omega arith))

  type_param-Eats : (allow_defaults : Bool) → Eats n 1 (type_param typ allow_defaults)
  unfolding type_param
  type_param-Eats allow_defaults s h hl = Post-peek_span s (Step_refl s h) (λ start u su ku.
      Post-expect_ident "type parameter" su (λ name v sv.
        Post-part sv
          (list_behind-Eats n _
            (Eats-less n _ (
              separated-Eats n (clause typ "attribute name" (named (name.0) start ∷ []) start)
                (clause-Eats "attribute name" (named (name.0) start ∷ []) start) plus (λ e. cc)))
            colon (λ e. cc))
          (omega (arith, hl, sv.weigh))
          (λ bounds w sw.
            Post-part sw (param_default-Eats allow_defaults) (omega (arith, hl, sw.weigh))
              (λ default_ty x sx. Post-done sx (omega arith)))))

  pub parse_type_params_with_bounds-Eats :
      (allow_defaults : Bool) → Eats n 0 (parse_type_params_with_bounds typ allow_defaults)
  unfolding parse_type_params_with_bounds
  parse_type_params_with_bounds-Eats allow_defaults s h hl =
      Post-part (Step_refl s h)
        (list_behind-Eats n _
          (Eats-less n _ (
            closed_by_gt-Eats _ (
              separated-Eats n (type_param typ allow_defaults) (type_param-Eats allow_defaults)
                comma (λ e. cc))))
          lt (λ e. cc))
        hl (λ params u su. Post-done su (omega arith))

  pub parse_type_params-Eats : Eats n 0 (parse_type_params typ)
  unfolding parse_type_params
  parse_type_params-Eats s h hl =
      Post-part (Step_refl s h) (parse_type_params_with_bounds-Eats false) hl
        (λ params u su. Post-done su (omega arith))

  where_clause-Eats : Eats n 1 (where_clause typ)
  unfolding where_clause
  where_clause-Eats s h hl = Post-peek_span s (Step_refl s h) (λ start u su ku.
      Post-peek u su (λ first v sv kv. Post-peek_at 1 v sv (λ second w sw kw.
        Post-if (claims first second) sw
          (λ x sx. Post-expect_ident "type parameter" sx (λ var y sy.
            Post-expect has_kw "`has`" sy (λ e. cc)
              (λ a z sz.
                Post-tail sz
                  (clause-Eats "attribute name" (named (var.0) (var.1) ∷ []) start z (sz.ends)
                    (omega (arith, hl, sz.weigh)))
                  (omega arith))))
          (λ x sx.
            Post-tail sx
              (clause-Eats "trait name" [] start x (sx.ends) (omega (arith, hl, sx.weigh)))
              (omega arith)))))

  pub parse_where_clauses-Eats : Eats n 0 (parse_where_clauses typ)
  unfolding parse_where_clauses
  parse_where_clauses-Eats =
      list_behind-Eats n _
        (Eats-less n _ (separated-Eats n (where_clause typ) where_clause-Eats comma (λ e. cc)))
        where_kw (λ e. cc)
