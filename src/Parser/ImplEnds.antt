-- ===== src/Parser/ImplEnds.antt =====
-- crates/parser/src/lib.rs: every item keeps within its fuel and within the tokens.
use maka.Base.{ℕ, ◌+◌, Bool, true, false, arith}
use maka.Base.Int.{ℤ}
use maka.Ast.Exprs.{Expr, Block}
use maka.Ast.Items.{
  Item, FuncDecl, func, data_item, enum, extern, attr, has, global, c_include, c_block, c_link,
  rblock,
}
use maka.Ast.Types.{TypeExpr}
use maka.Ctfe.Outcome.{Table}
use maka.Lexer.Token.{
  TokKind, ident, mut_kw, extern_kw, cinclude_kw, cblock_kw, clink_kw, rblock_kw, rdep_kw, attr_kw,
  has_kw, inline_kw, gate_kw, data_kw, enum_kw, type_kw, lbrace, rbrace, comma, semicolon, colon,
  lt, eq,
}
use maka.Parser.BoundEnds.{
  separated-Eats, until_rbrace-Eats, list_behind-Eats, Eats-less, closed_by_gt-Eats,
  parse_type_params_with_bounds-Eats,
}
use maka.Parser.ExprEnds.{type_p-Eats, parse_expr-Eats, parse_block-Eats}
use maka.Parser.Exprs.{type_p, parse_expr, parse_block}
use maka.Parser.FuncEnds.{parse_func-Eats, parse_attr_method-Eats}
use maka.Parser.Fueled.{Eats, Post-part}
use maka.Parser.Funcs.{parse_func}
use maka.Parser.Impls.{
  as_item, optional_type, attr_member, supertrait, parse_attr, has_member, attr_args, parse_has,
  behind_type, looks_like_parametric_has_item, plain_item, item_on, parse_item, item_here,
}
use maka.Parser.ItemEnds.{text_item-Eats, parse_rdep-Eats, parse_foreign_data-Eats}
use maka.Parser.DeclEnds.{parse_global-Eats, parse_data-Eats, parse_enum-Eats, parse_extern-Eats}
use maka.Parser.Items.{starts_receiver, is_has, names_global, parse_foreign_data}
use maka.Parser.Decls.{parse_global, parse_data, parse_enum, parse_extern}
use maka.Parser.Post.{
  Total, Post-Total, Post-done, Post-tail, Post-if, Post-bind, Post-attempt, Post-peek,
  Post-peek_at, Post-peek_span, Post-at, Post-eat,
}
use maka.Parser.Expects.{bump-Post, Post-expect, Post-expect_ident, Post-position, Post-rewind}
use maka.Parser.Progress.{Ends, Step_refl, weight}
use maka.Parser.State.{Build, State, rest_of, P}

as_item-Eats :
    {A : Type 0} (n : ℕ) (build : A → Item) (p : P A) → Eats n 1 p → Eats n 1 (as_item build p)
unfolding as_item
as_item-Eats n build p hp s h hl =
    Post-part (Step_refl s h) hp hl (λ a u su. Post-done su (omega arith))

supertrait-Eats :
    (n : ℕ)
    → (typ : P TypeExpr) (expr : P Expr) (block : P Block) → Eats n 1 (supertrait typ expr block)
unfolding supertrait
supertrait-Eats n typ expr block s h hl =
    Post-expect_ident "supertrait name" (Step_refl s h) (λ name u su. Post-done su (omega arith))

module _ (n : ℕ) (typ : P TypeExpr) (ht : Eats n 1 typ) (expr : P Expr) (he : Eats n 1 expr)
    (block : P Block) (hk : Eats n 1 block) where
  optional_type-Eats : Eats n 0 (optional_type typ expr block)
  unfolding optional_type
  optional_type-Eats s h hl =
      Post-eat eq s (Step_refl s h) (λ e. cc)
        (λ u su.
          Post-part su ht (omega (arith, hl, su.weigh)) (λ ty v sv. Post-done sv (omega arith)))
        (λ u su. Post-done su (omega arith))

  attr_member-Eats : Eats n 1 (attr_member typ expr block)
  unfolding attr_member
  attr_member-Eats s h hl =
      Post-at type_kw s (Step_refl s h)
        (λ t st e. Post-peek_span t st (λ span u su ku.
          Post-bind su (bump-Post u (su.ends)) (λ a v sv.
            Post-expect_ident "associated-type name" sv (λ name w sw.
              Post-part sw optional_type-Eats (omega (arith, hl, sw.weigh)) (λ default_ty x sx.
                Post-expect semicolon "`;`" sx (λ e. cc) (λ b y sy. Post-done sy (omega arith)))))))
        (λ t st.
          Post-part st (parse_attr_method-Eats n typ ht block hk) (omega (arith, hl, st.weigh))
            (λ f u su. Post-done su (omega arith)))

  parse_attr-Eats : Eats n 1 (parse_attr typ expr block)
  unfolding parse_attr
  parse_attr-Eats s h hl =
      Post-expect attr_kw "`attr`" (Step_refl s h) (λ e. cc)
        (λ kw t st. Post-expect_ident "attribute name" st (λ name u su.
          Post-part su (parse_type_params_with_bounds-Eats n typ ht true)
            (omega (arith, hl, su.weigh))
            (λ ps v sv.
              Post-part sv
                (list_behind-Eats n _
                  (Eats-less n _ (
                    separated-Eats n (supertrait typ expr block) (supertrait-Eats n typ expr block)
                      comma (λ e. cc)))
                  colon (λ e. cc))
                (omega (arith, hl, sv.weigh))
                (λ sups w sw.
                  Post-expect lbrace "`{`" sw (λ e. cc)
                    (λ a x sx.
                      Post-part sx
                        (until_rbrace-Eats n (attr_member typ expr block) attr_member-Eats)
                        (omega (arith, hl, sx.weigh))
                        (λ members y sy.
                          Post-expect rbrace "`}`" sy (λ e. cc)
                            (λ b z sz. Post-done sz (omega arith))))))))

  has_member-Eats : Eats n 1 (has_member typ expr block)
  unfolding has_member
  has_member-Eats s h hl =
      Post-at type_kw s (Step_refl s h)
        (λ t st e. Post-peek_span t st (λ span u su ku.
          Post-bind su (bump-Post u (su.ends)) (λ a v sv.
            Post-expect_ident "associated-type name" sv (λ name w sw.
              Post-expect eq "`=`" sw (λ e. cc)
                (λ c x sx. Post-part sx ht (omega (arith, hl, sx.weigh)) (λ val y sy.
                  Post-expect semicolon "`;`" sy (λ e. cc)
                    (λ b z sz. Post-done sz (omega arith))))))))
        (λ t st.
          Post-part st (parse_func-Eats n typ ht block hk) (omega (arith, hl, st.weigh))
            (λ f u su. Post-done su (omega arith)))

  attr_args-Eats : Eats n 0 (attr_args typ expr block)
  unfolding attr_args
  attr_args-Eats =
      list_behind-Eats n _
        (Eats-less n _ (closed_by_gt-Eats n typ ht _ (separated-Eats n typ ht comma (λ e. cc)))) lt
        (λ e. cc)

  parse_has-Eats : Eats n 1 (parse_has typ expr block)
  unfolding parse_has
  parse_has-Eats s h hl = Post-peek_span s (Step_refl s h) (λ start t st kt.
      Post-part st ht (omega (arith, hl, st.weigh)) (λ receiver u su.
        Post-expect has_kw "`has`" su (λ e. cc)
          (λ a v sv. Post-expect_ident "attribute name" sv (λ name w sw.
            Post-part sw attr_args-Eats (omega (arith, hl, sw.weigh)) (λ args x sx.
              Post-expect lbrace "`{`" sx (λ e. cc)
                (λ b y sy.
                  Post-part sy (until_rbrace-Eats n (has_member typ expr block) has_member-Eats)
                    (omega (arith, hl, sy.weigh))
                    (λ members z sz.
                      Post-expect rbrace "`}`" sz (λ e. cc)
                        (λ c p sp. Post-done sp (omega arith)))))))))

  behind_type-Eats : (test : TokKind → TokKind → Bool) → Eats n 0 (behind_type typ expr block test)
  unfolding behind_type
  behind_type-Eats test s h hl =
      Post-position 0 s (Step_refl s h) (omega arith) (λ save t tt st kt eq'.
        Post-attempt tt (ht t (tt.ends) (omega (arith, hl, st.weigh)))
          (λ u su. Post-rewind tt su eq' (λ v sv. Post-done sv (omega arith)))
          (λ ty u su. Post-peek u su (λ first v sv kv.
            Post-peek_at 1 v sv
              (λ second w sw kw. Post-rewind tt sw eq' (λ x sx. Post-done sx (omega arith))))))

  looks_like_parametric_has_item-Eats : Eats n 0 (looks_like_parametric_has_item typ expr block)
  unfolding looks_like_parametric_has_item
  looks_like_parametric_has_item-Eats s h hl = Post-peek s (Step_refl s h) (λ kind u su ku.
      Post-if (starts_receiver kind) su
        (λ v sv.
          Post-tail sv
            (behind_type-Eats (λ first second. is_has first) v (sv.ends)
              (omega (arith, hl, sv.weigh)))
            (omega arith))
        (λ v sv. Post-done sv (omega arith)))

  func_item-Eats : Eats n 1 (as_item func (parse_func typ block))
  func_item-Eats = as_item-Eats n func (parse_func typ block) (parse_func-Eats n typ ht block hk)

  global_item-Eats :
      (is_mut : Bool) → Eats n 1 (as_item global (parse_global typ expr block is_mut))
  global_item-Eats is_mut =
      as_item-Eats n global (parse_global typ expr block is_mut)
        (parse_global-Eats n typ ht expr he block is_mut)

  plain_item-Eats : Eats n 1 (plain_item typ expr block)
  unfolding plain_item
  plain_item-Eats s h hl =
      Post-part (Step_refl s h) looks_like_parametric_has_item-Eats hl (λ parametric u su.
        Post-if parametric su
          (λ v sv.
            Post-tail sv
              (as_item-Eats n has (parse_has typ expr block) parse_has-Eats v (sv.ends)
                (omega (arith, hl, sv.weigh)))
              (omega arith))
          (λ v sv.
            Post-part sv (behind_type-Eats names_global) (omega (arith, hl, sv.weigh))
              (λ is_global w sw.
                Post-if is_global sw
                  (λ x sx.
                    Post-tail sx (global_item-Eats false x (sx.ends) (omega (arith, hl, sx.weigh)))
                      (omega arith))
                  (λ x sx.
                    Post-tail sx (func_item-Eats x (sx.ends) (omega (arith, hl, sx.weigh)))
                      (omega arith)))))

  item_on-Eats : (kind next : TokKind) → Eats n 1 (item_on typ expr block kind next)
  unfolding item_on
  item_on-Eats data_kw next =
      as_item-Eats n data_item (parse_data typ expr block) (parse_data-Eats n typ ht expr he block)
  item_on-Eats enum_kw next =
      as_item-Eats n enum (parse_enum typ expr block) (parse_enum-Eats n typ ht expr he block)
  item_on-Eats extern_kw data_kw =
      as_item-Eats n data_item parse_foreign_data (parse_foreign_data-Eats n)
  item_on-Eats extern_kw _ =
      as_item-Eats n extern (parse_extern typ expr block) (parse_extern-Eats n typ ht expr he block)
  item_on-Eats cinclude_kw next = text_item-Eats n cinclude_kw _ _ c_include (λ e. cc)
  item_on-Eats cblock_kw next = text_item-Eats n cblock_kw _ _ c_block (λ e. cc)
  item_on-Eats clink_kw next = text_item-Eats n clink_kw _ _ c_link (λ e. cc)
  item_on-Eats rblock_kw next = text_item-Eats n rblock_kw _ _ rblock (λ e. cc)
  item_on-Eats rdep_kw next = parse_rdep-Eats n
  item_on-Eats attr_kw next = as_item-Eats n attr (parse_attr typ expr block) parse_attr-Eats
  item_on-Eats inline_kw next = func_item-Eats
  item_on-Eats gate_kw next = func_item-Eats
  item_on-Eats mut_kw next = global_item-Eats true
  item_on-Eats (ident name) has_kw = as_item-Eats n has (parse_has typ expr block) parse_has-Eats
  item_on-Eats _ _ = plain_item-Eats

  parse_item-Eats : Eats n 1 (parse_item typ expr block)
  unfolding parse_item
  parse_item-Eats s h hl = Post-peek s (Step_refl s h) (λ kind u su ku.
      Post-peek_at 1 u su (λ next v sv kv.
        Post-tail sv (item_on-Eats kind next v (sv.ends) (omega (arith, hl, sv.weigh)))
          (omega arith)))

module _ (built : Build) (consts : Table ℤ) (fns : Table FuncDecl) where
  -- From a state whose tokens end with the end of the file, `parse_item` gives an item, gives an error,
  -- or panics at an overflow (of a folded constant, or of the capacity of a fill literal); it never
  -- reads behind the last token, and the fuel of the model is enough for it. The tokens it leaves are
  -- those it was given, but for `>>` that became `>`, and an item has eaten at least one.
  pub parse_item-Total : (s : State) → Ends (rest_of s) → Total s (item_here built consts fns s)
  unfolding item_here
  parse_item-Total s h =
      let f : ℕ = weight (rest_of s) + 1 in
      Post-Total (
        parse_item-Eats f (type_p built consts fns) (type_p-Eats built consts fns f)
          (parse_expr built consts fns f) (parse_expr-Eats built consts fns f)
          (parse_block built consts fns f) (parse_block-Eats built consts fns f) s h (omega arith))
