-- ===== src/Parser/MatchEnds.antt =====
-- crates/parser/src/lib.rs: matches keep within their fuel and within the tokens.
use maka.Base.{ℕ, zero, suc, ◌+◌, ◌*◌, ◌≤◌, ◌<◌, arith}
use maka.Ast.Exprs.{Expr, Block}
use maka.Ast.Types.{Pattern}
use maka.Lexer.Token.{lparen, rparen, lbrace, rbrace, comma, if_kw, else_kw}
use maka.Parser.Kind.{same_kind-eof}
use maka.Parser.Fueled.{Post-fueled, Eats}
use maka.Parser.Matches.{
  arm_guard, arm_body, arm_list, parse_match_after_kw, if_expr, parse_if_expr,
}
use maka.Parser.Post.{Post, kind_of, Post-done, Post-bind, Post-peek_span, Post-bump, Post-at}
use maka.Parser.Expects.{Post-expect, eat-Post}
use maka.Parser.Progress.{Ends, Step_refl, weight}
use maka.Parser.State.{State, rest_of, P}

module _ (n : ℕ) (expr : P Expr) (he : Eats n 1 expr) (block : P Block) (hk : Eats n 1 block) where
  arm_guard-Eats : Eats n 0 (arm_guard expr block)
  unfolding arm_guard
  arm_guard-Eats t h hl =
      Post-at if_kw t (Step_refl t h)
        (λ u su eq'. Post-bump su (same_kind-eof (kind_of u) if_kw eq' (λ e. cc)) (λ a v sv.
          Post-bind sv (he v (sv.ends) (omega (arith, sv.weigh)))
            (λ e w sw. Post-done sw (omega arith))))
        (λ u su. Post-done su (omega arith))

  arm_body-Eats : Eats n 1 (arm_body expr block)
  unfolding arm_body
  arm_body-Eats t h hl =
      Post-at lbrace t (Step_refl t h)
        (λ u su eq'.
          Post-bind su (hk u (su.ends) (omega (arith, su.weigh)))
            (λ b v sv. Post-done sv (omega arith)))
        (λ u su.
          Post-bind su (he u (su.ends) (omega (arith, su.weigh)))
            (λ e v sv. Post-done sv (omega arith)))

  module _ (pattern : P Pattern) (hp : Eats n 1 pattern) where
    arm_list-Post :
        (f : ℕ) (t : State)
        → Ends (rest_of t)
        → weight (rest_of t) < n
        → 10 * weight (rest_of t) + 1 ≤ f
        → Post t 0 (arm_list expr block pattern f t)
    unfolding arm_list
    arm_list-Post zero t h hl hf = absurd (omega (arith, hf))
    arm_list-Post (suc f) t h hl hf =
        Post-at rbrace t (Step_refl t h) (λ u su eq'. Post-done su (omega arith))
          (λ u su. Post-peek_span u su (λ start v sv kv.
            Post-bind sv (hp v (sv.ends) (omega (arith, sv.weigh))) (λ pat w sw.
              Post-bind sw (arm_guard-Eats w (sw.ends) (omega (arith, sw.weigh))) (λ guard x sx.
                Post-bind sx (arm_body-Eats x (sx.ends) (omega (arith, sx.weigh))) (λ body y sy.
                  Post-bind sy (eat-Post comma y (sy.ends) (λ e. cc)) (λ b z sz.
                    Post-bind sz
                      (arm_list-Post f z (sz.ends) (omega (arith, sz.weigh))
                        (omega (arith, sz.weigh)))
                      (λ others p sp. Post-done sp (omega arith))))))))

    pub parse_match_after_kw-Eats : Eats n 1 (parse_match_after_kw expr block pattern)
    unfolding parse_match_after_kw
    parse_match_after_kw-Eats t h hl =
        Post-expect lparen "`(`" (Step_refl t h) (λ e. cc)
          (λ a u su. Post-bind su (he u (su.ends) (omega (arith, su.weigh))) (λ scrut v sv.
            Post-expect rparen "`)`" sv (λ e. cc)
              (λ b w sw.
                Post-expect lbrace "`{`" sw (λ e. cc)
                  (λ c x sx.
                    Post-bind sx
                      (Post-fueled (arm_list expr block pattern) x (λ f hf.
                        arm_list-Post f x (sx.ends) (omega (arith, sx.weigh)) (omega (arith, hf))))
                      (λ found y sy.
                        Post-expect rbrace "`}`" sy (λ e. cc)
                          (λ d z sz. Post-done sz (omega arith)))))))

  if_expr-Post :
      (f : ℕ) (t : State)
      → Ends (rest_of t)
      → weight (rest_of t) < suc n
      → 10 * weight (rest_of t) + 1 ≤ f
      → Post t 1 (if_expr expr block f t)
  unfolding if_expr
  if_expr-Post zero t h hl hf = absurd (omega (arith, hf))
  if_expr-Post (suc f) t h hl hf = Post-peek_span t (Step_refl t h) (λ start u su ku.
      Post-expect if_kw "`if`" su (λ e. cc)
        (λ a v sv.
          Post-expect lparen "`(`" sv (λ e. cc)
            (λ b w sw. Post-bind sw (he w (sw.ends) (omega (arith, sw.weigh))) (λ cond x sx.
              Post-expect rparen "`)`" sx (λ e. cc)
                (λ c y sy. Post-bind sy (hk y (sy.ends) (omega (arith, sy.weigh))) (λ then_blk z sz.
                  Post-expect else_kw "`else` (if-expression requires an else branch)" sz (λ e. cc)
                    (λ d p sp.
                      Post-at if_kw p sp
                        (λ q sq eq'.
                          Post-bind sq
                            (if_expr-Post f q (sq.ends) (omega (arith, sq.weigh))
                              (omega (arith, sq.weigh)))
                            (λ nested r sr. Post-done sr (omega arith)))
                        (λ q sq.
                          Post-bind sq (hk q (sq.ends) (omega (arith, sq.weigh)))
                            (λ else_blk r sr. Post-done sr (omega arith))))))))))

  pub parse_if_expr-Eats : Eats (suc n) 1 (parse_if_expr expr block)
  unfolding parse_if_expr
  parse_if_expr-Eats t h hl =
      Post-fueled (if_expr expr block) t (λ f hf. if_expr-Post f t h hl (omega (arith, hf)))
