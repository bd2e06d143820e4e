-- ===== src/Parser/FuncEnds.antt =====
-- crates/parser/src/lib.rs: functions keep within their fuel and the tokens.
use Prim.Native.String.{String}
use maka.Base.{ℕ, zero, suc, ◌+◌, ◌*◌, ◌≤◌, Bool, false, arith}
use maka.Ast.Exprs.{Block}
use maka.Ast.Types.{TypeExpr}
use maka.Lexer.Token.{inline_kw, gate_kw, export_kw, constexpr_kw, lparen, rparen, comma, semicolon}
use maka.Parser.BoundEnds.{
  separated-Eats, parse_type_params_with_bounds-Eats, parse_where_clauses-Eats,
}
use maka.Parser.Fueled.{Post-fueled, Eats, Post-part}
use maka.Parser.Funcs.{
  func_modifiers, method_modifiers, param, func_params, signature, parse_func, parse_attr_method,
}
use maka.Parser.Post.{Post, Post-done, Post-tail, Post-bind, Post-peek_span, Post-at, Post-eat}
use maka.Parser.Expects.{Post-expect, Post-expect_ident}
use maka.Parser.Progress.{Ends, Step_refl, weight}
use maka.Parser.State.{State, rest_of, P}

func_modifiers-Post :
    (f : ℕ) (flags : Bool × Bool × Bool) (s : State)
    → Ends (rest_of s)
    → 10 * weight (rest_of s) + 1 ≤ f
    → Post s 0 (func_modifiers f flags s)
unfolding func_modifiers
func_modifiers-Post zero flags s h hf = absurd (omega (arith, hf))
func_modifiers-Post (suc f) flags s h hf =
    Post-eat inline_kw s (Step_refl s h) (λ e. cc)
      (λ u su.
        Post-tail su (func_modifiers-Post f _ u (su.ends) (omega (arith, su.weigh))) (omega arith))
      (λ u su.
        Post-eat gate_kw u su (λ e. cc)
          (λ v sv.
            Post-tail sv (func_modifiers-Post f _ v (sv.ends) (omega (arith, sv.weigh)))
              (omega arith))
          (λ v sv.
            Post-eat export_kw v sv (λ e. cc)
              (λ w sw.
                Post-tail sw (func_modifiers-Post f _ w (sw.ends) (omega (arith, sw.weigh)))
                  (omega arith))
              (λ w sw.
                Post-eat constexpr_kw w sw (λ e. cc)
                  (λ x sx.
                    Post-tail sx (func_modifiers-Post f _ x (sx.ends) (omega (arith, sx.weigh)))
                      (omega arith))
                  (λ x sx. Post-done sx (omega arith)))))

method_modifiers-Post :
    (f : ℕ) (flags : Bool × Bool) (s : State)
    → Ends (rest_of s)
    → 10 * weight (rest_of s) + 1 ≤ f
    → Post s 0 (method_modifiers f flags s)
unfolding method_modifiers
method_modifiers-Post zero flags s h hf = absurd (omega (arith, hf))
method_modifiers-Post (suc f) flags s h hf =
    Post-eat inline_kw s (Step_refl s h) (λ e. cc)
      (λ u su.
        Post-tail su (method_modifiers-Post f _ u (su.ends) (omega (arith, su.weigh)))
          (omega arith))
      (λ u su.
        Post-eat gate_kw u su (λ e. cc)
          (λ v sv.
            Post-tail sv (method_modifiers-Post f _ v (sv.ends) (omega (arith, sv.weigh)))
              (omega arith))
          (λ v sv. Post-done sv (omega arith)))

module _ (n : ℕ) (typ : P TypeExpr) (ht : Eats n 1 typ) where
  pub param-Eats : Eats n 1 (param typ)
  unfolding param
  param-Eats s h hl = Post-peek_span s (Step_refl s h) (λ start u su ku.
      Post-part su ht (omega (arith, hl, su.weigh)) (λ ty v sv.
        Post-expect_ident "parameter name" sv (λ name w sw. Post-done sw (omega arith))))

  func_params-Eats : Eats n 1 (func_params typ)
  unfolding func_params
  func_params-Eats s h hl =
      Post-expect lparen "`(`" (Step_refl s h) (λ e. cc)
        (λ a u su.
          Post-at rparen u su
            (λ v sv e. Post-expect rparen "`)`" sv (λ e. cc) (λ b w sw. Post-done sw (omega arith)))
            (λ v sv.
              Post-part sv (separated-Eats n (param typ) param-Eats comma (λ e. cc))
                (omega (arith, hl, sv.weigh))
                (λ ps w sw.
                  Post-expect rparen "`)`" sw (λ e. cc) (λ b x sx. Post-done sx (omega arith)))))

  signature-Eats : (what : String) → Eats n 1 (signature typ what)
  unfolding signature
  signature-Eats what s h hl = Post-part (Step_refl s h) ht hl (λ ret t st.
      Post-expect_ident what st (λ name u su.
        Post-part su (parse_type_params_with_bounds-Eats n typ ht false)
          (omega (arith, hl, su.weigh))
          (λ ps v sv. Post-part sv func_params-Eats (omega (arith, hl, sv.weigh)) (λ params w sw.
            Post-part sw (parse_where_clauses-Eats n typ ht) (omega (arith, hl, sw.weigh))
              (λ clauses x sx. Post-done sx (omega arith))))))

  module _ (block : P Block) (hk : Eats n 1 block) where
    pub parse_func-Eats : Eats n 1 (parse_func typ block)
    unfolding parse_func
    parse_func-Eats s h hl = Post-peek_span s (Step_refl s h) (λ start u su ku.
        Post-bind su
          (Post-fueled (λ f. func_modifiers f (false, false, false)) u
            (λ f hf. func_modifiers-Post f (false, false, false) u (su.ends) (omega (arith, hf))))
          (λ flags v sv.
            Post-part sv (signature-Eats "function name") (omega (arith, hl, sv.weigh)) (λ sig w sw.
              Post-part sw hk (omega (arith, hl, sw.weigh))
                (λ body x sx. Post-done sx (omega arith)))))

    pub parse_attr_method-Eats : Eats n 1 (parse_attr_method typ block)
    unfolding parse_attr_method
    parse_attr_method-Eats s h hl = Post-peek_span s (Step_refl s h) (λ start u su ku.
        Post-bind su
          (Post-fueled (λ f. method_modifiers f (false, false)) u
            (λ f hf. method_modifiers-Post f (false, false) u (su.ends) (omega (arith, hf))))
          (λ flags v sv.
            Post-part sv (signature-Eats "method name") (omega (arith, hl, sv.weigh)) (λ sig w sw.
              Post-eat semicolon w sw (λ e. cc) (λ x sx. Post-done sx (omega arith))
                (λ x sx.
                  Post-part sx hk (omega (arith, hl, sx.weigh))
                    (λ body y sy. Post-done sy (omega arith))))))
