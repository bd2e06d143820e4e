-- ===== src/Parser/ArrayEnds.antt =====
-- crates/parser/src/lib.rs: array literals and the choice of a primary expression keep within their fuel
-- and within the tokens.
use maka.Base.{length, ℕ, zero, suc, ◌+◌, ◌*◌, ◌≤◌, ◌<◌, ◌≡◌, Option, none, arith}
use maka.Base.Int.{ℤ}
use maka.Ast.Exprs.{Expr, Block, MatchArms}
use maka.Ast.Types.{TypeExpr}
use maka.Ctfe.Outcome.{Table}
use maka.Lexer.Token.{
  Span, TokKind, int, float, str_lit, char_lit, ident, true_kw, false_kw, null_kw, match_kw, if_kw,
  lparen, rparen, lbrace, lbracket, rbracket, comma, semicolon,
}
use maka.Parser.Finds.{Post-found}
use maka.Parser.Fueled.{Post-fueled, Eats}
use maka.Parser.LambdaEnds.{try_parse_lambda-Finds}
use maka.Parser.ListEnds.{parse_struct_lit-Eats}
use maka.Parser.PatternEnds.{literal-Post}
use maka.Parser.Post.{
  Post, kind_of, Post-done, Post-fail, Post-tail, Post-option, Post-bind, Post-peek, Post-peek_span,
  Post-bump, Post-at, Post-eat,
}
use maka.Parser.Expects.{Post-expect, Post-position, Post-rewind, bump-Post}
use maka.Parser.Primary.{
  more_elems, runtime_fill, array_fill, array_literal, in_parens, primary_on, parse_primary,
}
use maka.Parser.PrimaryEnds.{filled-Post, behind_name-Eats}
use maka.Parser.Progress.{Ends, Step, Step_refl, weight}
use maka.Parser.State.{Build, State, rest_of, read_of, P}

module _ (n : ℕ) (built : Build) (typ type_base : P TypeExpr) (fold : P (Option ℤ))
    (consts : Table ℤ) (expr : P Expr) (block : P Block) (ht : Eats n 1 typ)
    (hb : Eats (suc n) 1 type_base) (hf : Eats n 0 fold) (he : Eats n 1 expr)
    (hk : Eats n 1 block) where
  more_elems-Post :
      (f : ℕ) (t : State)
      → Ends (rest_of t)
      → weight (rest_of t) < n
      → 10 * weight (rest_of t) + 1 ≤ f
      → Post t 0 (more_elems built typ type_base fold consts expr block f t)
  unfolding more_elems
  more_elems-Post zero t h hl hx = absurd (omega (arith, hx))
  more_elems-Post (suc f) t h hl hx =
      Post-eat comma t (Step_refl t h) (λ e. cc)
        (λ u su.
          Post-at rbracket u su (λ v sv eq'. Post-done sv (omega arith))
            (λ v sv. Post-bind sv (he v (sv.ends) (omega (arith, sv.weigh))) (λ e w sw.
              Post-bind sw
                (more_elems-Post f w (sw.ends) (omega (arith, sw.weigh)) (omega (arith, sw.weigh)))
                (λ es x sx. Post-done sx (omega arith)))))
        (λ u su. Post-done su (omega arith))

  runtime_fill-Post :
      (save : ℕ) (first : Expr) (span : Span) {v x : State} {c : ℕ}
      → weight (rest_of v) < n
      → Step v v 0
      → Step v x c
      → save ≡ length (read_of v)
      → Post v 0 (runtime_fill built typ type_base fold consts expr block save first span x)
  unfolding runtime_fill
  runtime_fill-Post save first span hl vv sx hs = Post-rewind vv sx hs (λ y sy.
      Post-bind sy (he y (sy.ends) (omega (arith, sy.weigh))) (λ len z sz.
        Post-expect rbracket "`]`" sz (λ e. cc) (λ a p sp. Post-done sp (omega arith))))

  array_fill-Eats :
      (first : Expr) (span : Span)
      → Eats n 0 (array_fill built typ type_base fold consts expr block first span)
  unfolding array_fill
  array_fill-Eats first span t h hl = Post-peek_span t (Step_refl t h) (λ count_span u su ku.
      Post-position 0 u su (omega arith) (λ save v vv sv kv hs.
        Post-bind vv (hf v (vv.ends) (omega (arith, sv.weigh))) (λ count w sw.
          Post-option count sw
            (λ x sx. runtime_fill-Post save first span (omega (arith, sv.weigh)) vv sx hs)
            (λ k x sx.
              Post-at rbracket x sx
                (λ y sy eq'.
                  Post-bind sy (bump-Post y (sy.ends))
                    (λ a z sz. filled-Post built k first count_span span sz (omega arith)))
                (λ y sy. runtime_fill-Post save first span (omega (arith, sv.weigh)) vv sy hs)))))

  array_literal-Eats :
      (span : Span) → Eats n 0 (array_literal built typ type_base fold consts expr block span)
  unfolding array_literal
  array_literal-Eats span t h hl =
      Post-eat rbracket t (Step_refl t h) (λ e. cc) (λ u su. Post-done su (omega arith))
        (λ u su. Post-bind su (he u (su.ends) (omega (arith, su.weigh))) (λ first v sv.
          Post-eat semicolon v sv (λ e. cc)
            (λ w sw.
              Post-tail sw (array_fill-Eats first span w (sw.ends) (omega (arith, sw.weigh)))
                (omega arith))
            (λ w sw.
              Post-bind sw
                (Post-fueled (more_elems built typ type_base fold consts expr block) w (λ f hx.
                  more_elems-Post f w (sw.ends) (omega (arith, sw.weigh)) (omega (arith, hx))))
                (λ others x sx.
                  Post-expect rbracket "`]`" sx (λ e. cc) (λ a y sy. Post-done sy (omega arith))))))

  in_parens-Eats :
      (span : Span) → Eats n 0 (in_parens built typ type_base fold consts expr block span)
  unfolding in_parens
  in_parens-Eats span t h hl =
      Post-eat rparen t (Step_refl t h) (λ e. cc) (λ u su. Post-done su (omega arith))
        (λ u su.
          Post-bind su (he u (su.ends) (omega (arith, su.weigh))) (λ e v sv.
            Post-expect rparen "`)`" sv (λ e'. cc) (λ a w sw. Post-done sw (omega arith))))

  module _ (match_p : P (Expr × MatchArms)) (hm : Eats n 1 match_p) (if_p : P Expr)
      (hi : Eats (suc n) 1 if_p) where
    primary_on-Eats :
        (kind : TokKind) (span : Span) (t : State)
        → Ends (rest_of t)
        → weight (rest_of t) < suc n
        → kind_of t ≡ kind
        → Post t 1 (primary_on built typ type_base fold consts expr block match_p if_p kind span t)
    unfolding primary_on
    primary_on-Eats (int k) span t h hl ke = literal-Post _ t h (λ e. cc)
    primary_on-Eats (float k) span t h hl ke = literal-Post _ t h (λ e. cc)
    primary_on-Eats (str_lit k) span t h hl ke = literal-Post _ t h (λ e. cc)
    primary_on-Eats (char_lit k) span t h hl ke = literal-Post _ t h (λ e. cc)
    primary_on-Eats true_kw span t h hl ke = literal-Post _ t h (λ e. cc)
    primary_on-Eats false_kw span t h hl ke = literal-Post _ t h (λ e. cc)
    primary_on-Eats null_kw span t h hl ke = literal-Post _ t h (λ e. cc)
    primary_on-Eats lparen span t h hl ke =
        Post-bump (Step_refl t h) (λ e. cc)
          (λ a u su.
            Post-tail su (in_parens-Eats span u (su.ends) (omega (arith, su.weigh))) (omega arith))
    primary_on-Eats lbracket span t h hl ke =
        Post-bump (Step_refl t h) (λ e. cc)
          (λ a u su.
            Post-tail su (array_literal-Eats span u (su.ends) (omega (arith, su.weigh)))
              (omega arith))
    primary_on-Eats match_kw span t h hl ke =
        Post-bump (Step_refl t h) (λ e. cc)
          (λ a u su.
            Post-bind su (hm u (su.ends) (omega (arith, su.weigh)))
              (λ found v sv. Post-done sv (omega arith)))
    primary_on-Eats if_kw span t h hl ke = hi t h hl
    primary_on-Eats lbrace span t h hl ke = parse_struct_lit-Eats n expr he none span t h hl
    primary_on-Eats (ident name) span t h hl ke =
        Post-bump (Step_refl t h) (λ e. cc)
          (λ a u su.
            Post-tail su
              (behind_name-Eats n built typ type_base fold consts expr block ht hb hf he hk name
                span u (su.ends) (omega (arith, su.weigh)))
              (omega arith))
    primary_on-Eats other span t h hl ke = Post-fail (Step_refl t h)

    pub parse_primary-Eats :
        Eats (suc n) 1 (parse_primary built typ type_base fold consts expr block match_p if_p)
    unfolding parse_primary
    parse_primary-Eats t h hl = Post-peek_span t (Step_refl t h) (λ span u su ku.
        Post-found su
          (try_parse_lambda-Finds n type_base hb expr he block hk u (su.ends)
            (omega (arith, su.weigh)))
          (λ v sv. Post-peek v sv (λ kind w sw kw.
            Post-tail sw (primary_on-Eats kind span w (sw.ends) (omega (arith, sw.weigh)) kw)
              (omega arith)))
          (λ e v sv. Post-done sv (omega arith)))
