-- ===== src/Parser/LambdaEnds.antt =====
-- crates/parser/src/lib.rs: lambdas keep within their fuel and within the tokens.
use maka.Base.{[], ◌∷◌, ℕ, zero, suc, ◌+◌, ◌*◌, ◌≤◌, ◌<◌, Bool, arith}
use maka.Ast.Exprs.{Expr, Block}
use maka.Ast.Types.{TypeExpr}
use maka.Lexer.Token.{Span, lparen, rparen, lbrace, lbracket, rbracket, comma, amp, mut_kw}
use maka.Parser.Fueled.{Post-fueled, Eats, Post-eat_ident}
use maka.Parser.Lambda.{
  capture_mode, capture_list, lambda_captures, param_list, lambda_params, lambda_body, is_empty,
  lambda_here, try_parse_lambda,
}
use maka.Parser.Post.{
  Post, Post-done, Post-if, Post-option, Post-bind, Post-attempt, Post-peek_span, Post-at, Post-eat,
}
use maka.Parser.Finds.{Finds, nothing, found, Finds-Post, Finds-attempt, Finds-bind}
use maka.Parser.Progress.{Step-back, Ends, Step_refl, weight}
use maka.Parser.State.{State, state, rest_of, P, position, peek_span, rewind}

capture_mode-Post : (t : State) → Ends (rest_of t) → Post t 0 (capture_mode t)
unfolding capture_mode
capture_mode-Post t h =
    Post-eat amp t (Step_refl t h) (λ e. cc)
      (λ u su.
        Post-eat mut_kw u su (λ e. cc) (λ v sv. Post-done sv (omega arith))
          (λ v sv. Post-done sv (omega arith)))
      (λ u su. Post-done su (omega arith))

capture_list-Post :
    (f : ℕ) (t : State)
    → Ends (rest_of t)
    → 10 * weight (rest_of t) + 1 ≤ f
    → Post t 0 (capture_list f t)
unfolding capture_list
capture_list-Post zero t h hf = absurd (omega (arith, hf))
capture_list-Post (suc f) t h hf = Post-peek_span t (Step_refl t h) (λ start u su ku.
    Post-bind su (capture_mode-Post u (su.ends)) (λ mode v sv.
      Post-eat_ident v sv (λ w sw. Post-done sw (omega arith))
        (λ n w sw.
          Post-eat comma w sw (λ e. cc)
            (λ x sx.
              Post-at rbracket x sx (λ y sy e. Post-done sy (omega arith))
                (λ y sy.
                  Post-bind sy (capture_list-Post f y (sy.ends) (omega (arith, sy.weigh)))
                    (λ others z sz.
                      Post-option others sz (λ p sp. Post-done sp (omega arith))
                        (λ cs p sp. Post-done sp (omega arith)))))
            (λ x sx. Post-done sx (omega arith)))))

lambda_captures-Post : (t : State) → Ends (rest_of t) → Post t 0 (lambda_captures t)
unfolding lambda_captures
lambda_captures-Post t h =
    Post-eat lbracket t (Step_refl t h) (λ e. cc)
      (λ u su.
        Post-eat rbracket u su (λ e. cc) (λ v sv. Post-done sv (omega arith))
          (λ v sv.
            Post-bind sv
              (Post-fueled capture_list v
                (λ f hf. capture_list-Post f v (sv.ends) (omega (arith, hf))))
              (λ caps w sw.
                Post-option caps sw (λ x sx. Post-done sx (omega arith))
                  (λ cs x sx.
                    Post-eat rbracket x sx (λ e. cc) (λ y sy. Post-done sy (omega arith))
                      (λ y sy. Post-done sy (omega arith))))))
      (λ u su. Post-done su (omega arith))

module _ (n : ℕ) (type_base : P TypeExpr) (hb : Eats (suc n) 1 type_base) where
  param_list-Post :
      (f : ℕ) (t : State)
      → Ends (rest_of t)
      → weight (rest_of t) < suc n
      → 10 * weight (rest_of t) + 1 ≤ f
      → Post t 0 (param_list type_base f t)
  unfolding param_list
  param_list-Post zero t h hl hf = absurd (omega (arith, hf))
  param_list-Post (suc f) t h hl hf = Post-peek_span t (Step_refl t h) (λ start u su ku.
      Post-attempt su (hb u (su.ends) (omega (arith, su.weigh)))
        (λ v sv. Post-done sv (omega arith))
        (λ ty v sv.
          Post-eat_ident v sv (λ w sw. Post-done sw (omega arith))
            (λ name w sw.
              Post-eat comma w sw (λ e. cc)
                (λ x sx.
                  Post-bind sx
                    (param_list-Post f x (sx.ends) (omega (arith, sx.weigh))
                      (omega (arith, sx.weigh)))
                    (λ others y sy.
                      Post-option others sy (λ z sz. Post-done sz (omega arith))
                        (λ ps z sz. Post-done sz (omega arith))))
                (λ x sx.
                  Post-at rparen x sx (λ y sy e. Post-done sy (omega arith))
                    (λ y sy. Post-done sy (omega arith))))))

  lambda_params-Eats : Eats (suc n) 0 (lambda_params type_base)
  unfolding lambda_params
  lambda_params-Eats t h hl =
      Post-eat rparen t (Step_refl t h) (λ e. cc) (λ u su. Post-done su (omega arith))
        (λ u su.
          Post-bind su
            (Post-fueled (param_list type_base) u
              (λ f hf. param_list-Post f u (su.ends) (omega (arith, su.weigh)) (omega (arith, hf))))
            (λ params v sv.
              Post-option params sv (λ w sw. Post-done sw (omega arith))
                (λ ps w sw.
                  Post-eat rparen w sw (λ e. cc) (λ x sx. Post-done sx (omega arith))
                    (λ x sx. Post-done sx (omega arith)))))

  module _ (expr : P Expr) (he : Eats n 1 expr) (block : P Block) (hk : Eats n 1 block) where
    lambda_body-Eats : (no_params : Bool) → Eats n 0 (lambda_body type_base expr block no_params)
    unfolding lambda_body
    lambda_body-Eats no_params t h hl =
        Post-at lbrace t (Step_refl t h)
          (λ u su e.
            Post-attempt su (hk u (su.ends) (omega (arith, su.weigh)))
              (λ v sv. Post-done sv (omega arith)) (λ b v sv. Post-done sv (omega arith)))
          (λ u su.
            Post-if no_params su (λ v sv. Post-done sv (omega arith))
              (λ v sv.
                Post-attempt sv (he v (sv.ends) (omega (arith, sv.weigh)))
                  (λ w sw. Post-done sw (omega arith)) (λ b w sw. Post-done sw (omega arith))))

    lambda_here-Finds :
        (start : Span) (t : State)
        → Ends (rest_of t)
        → weight (rest_of t) < suc n
        → Finds t (lambda_here type_base expr block start t)
    unfolding lambda_here
    lambda_here-Finds start t h hl =
        Finds-attempt (hb t h hl) (λ u su. nothing su)
          (λ ret u su. Finds-Post (
            Post-eat lparen u su (λ e. cc)
              (λ v sv.
                Post-bind sv (lambda_params-Eats v (sv.ends) (omega (arith, sv.weigh)))
                  (λ params w sw.
                    Post-option params sw (λ x sx. Post-done sx (omega arith))
                      (λ ps x sx. Post-bind sx (lambda_captures-Post x (sx.ends)) (λ captures y sy.
                        Post-option captures sy (λ z sz. Post-done sz (omega arith))
                          (λ cs z sz.
                            Post-bind sz
                              (lambda_body-Eats (is_empty ps) z (sz.ends) (omega (arith, sz.weigh)))
                              (λ body p sp.
                                Post-option body sp (λ q sq. Post-done sq (omega arith))
                                  (λ b q sq. Post-done sq (omega arith))))))))
              (λ v sv. Post-done sv (omega arith))))

    pub try_parse_lambda-Finds :
        (t : State)
        → Ends (rest_of t)
        → weight (rest_of t) < suc n
        → Finds t (try_parse_lambda type_base expr block t)
    unfolding try_parse_lambda position peek_span rewind
    try_parse_lambda-Finds (state read []) h hl = elim h [ ]
    try_parse_lambda-Finds (state read (x ∷ rest)) h hl =
        Finds-bind (lambda_here-Finds x.span (state read (x ∷ rest)) h hl)
          (λ u su. let (v, eq, sv) = Step-back su in rw eq (nothing sv)) (λ e u su. found su)
