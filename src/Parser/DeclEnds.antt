-- ===== src/Parser/DeclEnds.antt =====
-- crates/parser/src/lib.rs: data types, enums, globals and extern functions keep within their fuel
-- and the tokens.
use maka.Base.{ℕ, zero, suc, ◌+◌, ◌*◌, ◌≤◌, ◌<◌, Bool, true, false, ◌&&◌, [], if◌then◌else◌, arith}
use maka.Ast.Exprs.{Expr, Block}
use maka.Ast.Types.{TypeExpr}
use maka.Lexer.Token.{
  Span, extern_kw, gate_kw, data_kw, enum_kw, embed_kw, lparen, rparen, lbrace, rbrace, comma,
  semicolon, dot_dot, eq,
}
use maka.Parser.BoundEnds.{
  until_rbrace-Eats, comma_until_rbrace-Eats, list_behind-Eats, parse_type_params_with_bounds-Eats,
  parse_type_params-Eats, parse_where_clauses-Eats,
}
use maka.Parser.Fueled.{fueled, Post-fueled, Eats, Post-part}
use maka.Parser.FuncEnds.{param-Eats}
use maka.Parser.Items.{is_dot}
use maka.Parser.Decls.{
  parse_global, default_value, field_rest, parse_field, parse_data, variant_fields, variant_value,
  enum_variant, parse_enum, extern_params, parse_extern,
}
use maka.Parser.Post.{
  Post, Post-done, Post-tail, Post-if, Post-bind, Post-peek, Post-peek_at, Post-peek_span, Post-eat,
}
use maka.Parser.Expects.{bump-Post, eat-Post, Post-expect, Post-expect_ident}
use maka.Parser.Progress.{Ends, Step_refl, weight}
use maka.Parser.State.{State, rest_of, P, ◌>>=◌, pure, peek_span}
use maka.Parser.TypePartEnds.{parse_mutness-Post}
use maka.Parser.ItemEnds.{at-Post, mut-Post, optional_text-Eats, value-Post}

module _ (n : ℕ) (typ : P TypeExpr) (ht : Eats n 1 typ) (expr : P Expr) (he : Eats n 1 expr)
    (block : P Block) where
  pub parse_global-Eats : (is_mut : Bool) → Eats n 1 (parse_global typ expr block is_mut)
  unfolding parse_global
  parse_global-Eats is_mut s h hl = Post-peek_span s (Step_refl s h) (λ span t st kt.
      Post-bind st (mut-Post is_mut t (st.ends)) (λ a u su.
        Post-part su ht (omega (arith, hl, su.weigh)) (λ ty v sv.
          Post-expect_ident "global name" sv (λ name w sw.
            Post-expect eq "`=`" sw (λ e. cc)
              (λ b x sx. Post-part sx he (omega (arith, hl, sx.weigh)) (λ init y sy.
                Post-expect semicolon "`;`" sy (λ e. cc)
                  (λ c z sz. Post-done sz (omega arith))))))))

  default_value-Eats : Eats n 0 (default_value typ expr block)
  unfolding default_value
  default_value-Eats s h hl =
      Post-eat eq s (Step_refl s h) (λ e. cc)
        (λ u su.
          Post-part su he (omega (arith, hl, su.weigh)) (λ e v sv. Post-done sv (omega arith)))
        (λ u su. Post-done su (omega arith))

  field_rest-Eats :
      (is_embed : Bool) (start : Span) → Eats n 1 (field_rest typ expr block is_embed start)
  unfolding field_rest
  field_rest-Eats is_embed start s h hl =
      Post-bind (Step_refl s h) (parse_mutness-Post s h) (λ m u su.
        Post-part su ht (omega (arith, hl, su.weigh)) (λ ty v sv.
          Post-expect_ident "field name" sv (λ name w sw.
            Post-part sw default_value-Eats (omega (arith, hl, sw.weigh))
              (λ val x sx. Post-done sx (omega arith)))))

  parse_field-Eats : Eats n 1 (parse_field typ expr block)
  unfolding parse_field
  parse_field-Eats s h hl = Post-peek_span s (Step_refl s h) (λ start u su ku.
      Post-bind su (eat-Post embed_kw u (su.ends) (λ e. cc)) (λ is_embed v sv.
        Post-part sv (field_rest-Eats is_embed start) (omega (arith, hl, sv.weigh)) (λ field w sw.
          Post-expect semicolon "`;`" sw (λ e. cc) (λ a x sx. Post-done sx (omega arith)))))

  pub parse_data-Eats : Eats n 1 (parse_data typ expr block)
  unfolding parse_data
  parse_data-Eats s h hl =
      Post-expect data_kw "`data`" (Step_refl s h) (λ e. cc)
        (λ kw t st. Post-expect_ident "struct name" st (λ name u su.
          Post-part su (parse_type_params_with_bounds-Eats n typ ht false)
            (omega (arith, hl, su.weigh))
            (λ ps v sv.
              Post-part sv (parse_where_clauses-Eats n typ ht) (omega (arith, hl, sv.weigh))
                (λ clauses w sw.
                  Post-expect lbrace "`{`" sw (λ e. cc)
                    (λ a x sx.
                      Post-part sx
                        (until_rbrace-Eats n (parse_field typ expr block) parse_field-Eats)
                        (omega (arith, hl, sx.weigh))
                        (λ fields y sy.
                          Post-expect rbrace "`}`" sy (λ e. cc)
                            (λ b z sz. Post-done sz (omega arith))))))))

  variant_field-Eats : Eats n 1 (peek_span >>= field_rest typ expr block false)
  variant_field-Eats s h hl = Post-peek_span s (Step_refl s h) (λ start u su ku.
      Post-tail su (field_rest-Eats false start u (su.ends) (omega (arith, hl, su.weigh)))
        (omega arith))

  variant_fields-Eats : Eats n 0 (variant_fields typ expr block)
  unfolding variant_fields
  variant_fields-Eats s h hl =
      Post-part (Step_refl s h)
        (comma_until_rbrace-Eats n (peek_span >>= field_rest typ expr block false)
          variant_field-Eats)
        hl
        (λ fields u su.
          Post-expect rbrace "`}` to close variant fields" su (λ e. cc)
            (λ a v sv. Post-done sv (omega arith)))

  variant_value-Eats : Eats n 0 (variant_value typ expr block)
  unfolding variant_value
  variant_value-Eats s h hl = Post-peek s (Step_refl s h) (λ kind u su ku. value-Post kind su ku)

  enum_variant-Eats : Eats n 1 (enum_variant typ expr block)
  unfolding enum_variant
  enum_variant-Eats s h hl = Post-peek_span s (Step_refl s h) (λ start u su ku.
      Post-expect_ident "variant name" su (λ name v sv.
        Post-eat eq v sv (λ e. cc)
          (λ w sw.
            Post-part sw variant_value-Eats (omega (arith, hl, sw.weigh))
              (λ i x sx. Post-done sx (omega arith)))
          (λ w sw.
            Post-part sw
              (list_behind-Eats n (variant_fields typ expr block) variant_fields-Eats lbrace
                (λ e. cc))
              (omega (arith, hl, sw.weigh)) (λ fields x sx. Post-done sx (omega arith)))))

  pub parse_enum-Eats : Eats n 1 (parse_enum typ expr block)
  unfolding parse_enum
  parse_enum-Eats s h hl =
      Post-expect enum_kw "`enum`" (Step_refl s h) (λ e. cc)
        (λ kw t st. Post-expect_ident "enum name" st (λ name u su.
          Post-part su (parse_type_params-Eats n typ ht) (omega (arith, hl, su.weigh)) (λ ps v sv.
            Post-expect lbrace "`{`" sv (λ e. cc)
              (λ a w sw.
                Post-part sw
                  (comma_until_rbrace-Eats n (enum_variant typ expr block) enum_variant-Eats)
                  (omega (arith, hl, sw.weigh))
                  (λ variants x sx.
                    Post-expect rbrace "`}`" sx (λ e. cc)
                      (λ b y sy. Post-done sy (omega arith)))))))

  extern_params-Post :
      (f : ℕ) (s : State)
      → Ends (rest_of s)
      → weight (rest_of s) < n
      → 10 * weight (rest_of s) + 1 ≤ f
      → Post s 0 (extern_params typ expr block f s)
  unfolding extern_params
  extern_params-Post zero s h hl hf = absurd (omega (arith, hf))
  extern_params-Post (suc f) s h hl hf =
      Post-bind (Step_refl s h) (at-Post dot_dot s h) (λ dots t st.
        Post-peek_at 1 t st (λ next u su ku.
          Post-if (dots && is_dot next) su
            (λ v sv. Post-bind sv (bump-Post v (sv.ends)) (λ a w sw.
              Post-bind sw (bump-Post w (sw.ends)) (λ b x sx. Post-done sx (omega arith))))
            (λ v sv. Post-part sv (param-Eats n typ ht) (omega (arith, hl, sv.weigh)) (λ p w sw.
              Post-eat comma w sw (λ e. cc)
                (λ x sx.
                  Post-bind sx
                    (extern_params-Post f x (sx.ends) (omega (arith, sx.weigh))
                      (omega (arith, sx.weigh)))
                    (λ others y sy. Post-done sy (omega arith)))
                (λ x sx. Post-done sx (omega arith))))))

  all_params-Post :
      (closed : Bool) (s : State)
      → Ends (rest_of s)
      → weight (rest_of s) < n
      → Post s 0 ((if closed then pure ([], false) else fueled (extern_params typ expr block)) s)
  all_params-Post true s h hl = Post-done (Step_refl s h) (omega arith)
  all_params-Post false s h hl =
      Post-fueled (extern_params typ expr block) s
        (λ f hf. extern_params-Post f s h hl (omega (arith, hf)))

  pub parse_extern-Eats : Eats n 1 (parse_extern typ expr block)
  unfolding parse_extern
  parse_extern-Eats s h hl =
      Post-expect extern_kw "`extern`" (Step_refl s h) (λ e. cc)
        (λ kw t st. Post-bind st (eat-Post gate_kw t (st.ends) (λ e. cc)) (λ is_gate u su.
          Post-part su (optional_text-Eats n) (omega (arith, hl, su.weigh)) (λ c_name v sv.
            Post-part sv ht (omega (arith, hl, sv.weigh)) (λ ret w sw.
              Post-expect_ident "extern function name" sw (λ name x sx.
                Post-expect lparen "`(`" sx (λ e. cc)
                  (λ a y sy. Post-bind sy (at-Post rparen y (sy.ends)) (λ closed z sz.
                    Post-bind sz (all_params-Post closed z (sz.ends) (omega (arith, hl, sz.weigh)))
                      (λ params p sp.
                        Post-expect rparen "`)`" sp (λ e. cc)
                          (λ b q sq.
                            Post-expect semicolon "`;`" sq (λ e. cc)
                              (λ c r sr. Post-done sr (omega arith)))))))))))
