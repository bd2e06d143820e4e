-- ===== src/Parser/StmtEnds.antt =====
-- crates/parser/src/lib.rs: statements keep within their fuel and within the tokens.
use maka.Base.{ℕ, zero, suc, ◌+◌, ◌*◌, ◌≤◌, ◌<◌, arith}
use maka.Ast.Exprs.{Expr, Block, MatchArms, Stmt}
use maka.Ast.Types.{TypeExpr}
use maka.Lexer.Token.{
  mut_kw, inline_kw, for_kw, in_kw, thread_local_kw, if_kw, else_kw, lparen, rparen, comma,
  semicolon, eq,
}
use maka.Parser.Fueled.{Post-fueled, Eats}
use maka.Parser.Post.{Post, Post-done, Post-bind, Post-peek_span, Post-at, Post-eat}
use maka.Parser.Expects.{Post-expect, Post-expect_ident, eat-Post}
use maka.Parser.Progress.{Ends, Step, Step_refl, weight}
use maka.Parser.State.{State, rest_of, P, ◌>>=◌, ◌>>◌, pure, expect}
use maka.Parser.Stmts.{tuple_binders, parse_let, parse_let_tuple, if_rec, parse_inline_for}
use maka.Parser.TypePartEnds.{parse_mutness-Post}

tuple_binders-Post :
    (f : ℕ) (t : State)
    → Ends (rest_of t)
    → 10 * weight (rest_of t) + 1 ≤ f
    → Post t 1 (tuple_binders f t)
unfolding tuple_binders
tuple_binders-Post zero t h hf = absurd (omega (arith, hf))
tuple_binders-Post (suc f) t h hf =
    Post-bind (Step_refl t h) (eat-Post mut_kw t h (λ e. cc)) (λ is_mut u su.
      Post-expect_ident "binding name" su (λ name v sv.
        Post-eat comma v sv (λ e. cc)
          (λ w sw.
            Post-bind sw (tuple_binders-Post f w (sw.ends) (omega (arith, sw.weigh)))
              (λ others x sx. Post-done sx (omega arith)))
          (λ w sw. Post-done sw (omega arith))))

module _ (n : ℕ) (typ : P TypeExpr) (ht : Eats n 1 typ) (expr or_level : P Expr)
    (he : Eats n 1 expr) (ho : Eats n 1 or_level) (block : P Block) (hk : Eats n 1 block)
    (match_p : P (Expr × MatchArms)) (hm : Eats n 1 match_p) where
  pub parse_let-Eats : Eats n 1 (parse_let typ expr or_level block match_p)
  unfolding parse_let
  parse_let-Eats t h hl = Post-peek_span t (Step_refl t h) (λ start u su ku.
      Post-bind su (eat-Post thread_local_kw u (su.ends) (λ e. cc)) (λ local v sv.
        Post-bind sv (parse_mutness-Post v (sv.ends)) (λ m w sw.
          Post-bind sw (ht w (sw.ends) (omega (arith, sw.weigh))) (λ ty x sx.
            Post-expect_ident "variable name" sx (λ name y sy.
              Post-expect eq "`=`" sy (λ e. cc)
                (λ a z sz. Post-bind sz (he z (sz.ends) (omega (arith, sz.weigh))) (λ init p sp.
                  Post-expect semicolon "`;`" sp (λ e. cc)
                    (λ b q sq. Post-done sq (omega arith)))))))))

  pub parse_let_tuple-Eats : Eats n 1 (parse_let_tuple typ expr or_level block match_p)
  unfolding parse_let_tuple
  parse_let_tuple-Eats t h hl = Post-peek_span t (Step_refl t h) (λ start u su ku.
      Post-expect lparen "`(`" su (λ e. cc)
        (λ a v sv.
          Post-bind sv
            (Post-fueled tuple_binders v
              (λ f hf. tuple_binders-Post f v (sv.ends) (omega (arith, hf))))
            (λ names w sw.
              Post-expect rparen "`)`" sw (λ e. cc)
                (λ b x sx.
                  Post-expect eq "`=`" sx (λ e. cc)
                    (λ c y sy. Post-bind sy (he y (sy.ends) (omega (arith, sy.weigh))) (λ init z sz.
                      Post-expect semicolon "`;`" sz (λ e. cc)
                        (λ d p sp. Post-done sp (omega arith))))))))

  pub if_rec-Post :
      (f : ℕ) (t : State)
      → Ends (rest_of t)
      → weight (rest_of t) < n
      → 10 * weight (rest_of t) + 1 ≤ f
      → Post t 1 (if_rec typ expr or_level block match_p f t)
  unfolding if_rec
  if_rec-Post zero t h hl hf = absurd (omega (arith, hf))
  if_rec-Post (suc f) t h hl hf = Post-peek_span t (Step_refl t h) (λ start u su ku.
      Post-expect if_kw "`if`" su (λ e. cc)
        (λ a v sv.
          Post-expect lparen "`(`" sv (λ e. cc)
            (λ b w sw. Post-bind sw (he w (sw.ends) (omega (arith, sw.weigh))) (λ cond x sx.
              Post-expect rparen "`)`" sx (λ e. cc)
                (λ c y sy.
                  Post-bind sy (hk y (sy.ends) (omega (arith, sy.weigh))) (λ then_block z sz.
                    Post-eat else_kw z sz (λ e. cc)
                      (λ p sp.
                        Post-at if_kw p sp
                          (λ q sq eq'.
                            Post-bind sq
                              (if_rec-Post f q (sq.ends) (omega (arith, sq.weigh))
                                (omega (arith, sq.weigh)))
                              (λ inner r sr. Post-done sr (omega arith)))
                          (λ q sq.
                            Post-bind sq (hk q (sq.ends) (omega (arith, sq.weigh)))
                              (λ else_block r sr. Post-done sr (omega arith))))
                      (λ p sp. Post-done sp (omega arith))))))))

  pub parse_inline_for-Eats : Eats n 1 (parse_inline_for typ expr or_level block match_p)
  unfolding parse_inline_for
  parse_inline_for-Eats t h hl = Post-peek_span t (Step_refl t h) (λ start u su ku.
      Post-expect inline_kw "`inline`" su (λ e. cc)
        (λ a v sv.
          Post-expect for_kw "`for` (after `inline`)" sv (λ e. cc)
            (λ b w sw.
              Post-expect lparen "`(`" sw (λ e. cc)
                (λ c x sx. Post-expect_ident "loop variable" sx (λ name y sy.
                  Post-expect in_kw "`in`" sy (λ e. cc)
                    (λ d z sz. Post-bind sz (he z (sz.ends) (omega (arith, sz.weigh))) (λ iter p sp.
                      Post-expect rparen "`)`" sp (λ e. cc)
                        (λ e q sq.
                          Post-bind sq (hk q (sq.ends) (omega (arith, sq.weigh)))
                            (λ body r sr. Post-done sr (omega arith))))))))))

  -- A `)` and a body behind what is eaten.
  pub body-Post :
      (build : Block → Stmt) {s t : State} {d : ℕ}
      → Step s t d
      → 1 ≤ d
      → weight (rest_of s) < n
      → Post s 1 ((expect rparen "`)`" >> (block >>= λ body. pure (build body))) t)
  body-Post build st hd hl =
      Post-expect rparen "`)`" st (λ e. cc)
        (λ a u su.
          Post-bind su (hk u (su.ends) (omega (arith, hl, su.weigh)))
            (λ body v sv. Post-done sv (omega arith)))
