-- ===== src/Parser/BlockEnds.antt =====
-- crates/parser/src/lib.rs: the choice of a statement, and blocks, keep within their fuel and within the
-- tokens.
use maka.Base.{ℕ, zero, suc, ◌+◌, ◌*◌, ◌≤◌, ◌<◌, ◌≡◌, Bool, true, false, Bytes, arith}
use maka.Ast.Exprs.{Expr, Block, MatchArms, for_range, for_each, while_stmt}
use maka.Ast.Types.{TypeExpr}
use maka.Lexer.Token.{
  Span, TokKind, eof, unsafe_kw, match_kw, yield_kw, propagate_kw, inline_kw, for_kw, in_kw,
  break_kw, continue_kw, dot_dot, dot_dot_eq, if_kw, while_kw, return_kw, lparen, lbrace, rbrace,
  semicolon, underscore,
}
use maka.Parser.Fueled.{Post-fueled, Eats}
use maka.Parser.Post.{
  Post, kind_of, Post-done, Post-tail, Post-if, Post-option, Post-bind, Post-peek, Post-peek_at,
  Post-peek_span, Post-bump, Post-at, Post-eat, yields,
}
use maka.Parser.Expects.{Post-expect, Post-expect_ident, bump-Post, eat-Post}
use maka.Parser.Progress.{Ends, Step, Step_refl, weight}
use maka.Parser.SkimEnds.{looks_like_decl-Post}
use maka.Parser.State.{State, rest_of, P}
use maka.Parser.StmtEnds.{
  parse_let-Eats, parse_let_tuple-Eats, if_rec-Post, parse_inline_for-Eats, body-Post,
}
use maka.Parser.Stmts.{
  looks_like_tuple_destructure, op_of, is_eq, if_rec, range_for, parse_for, parse_while,
  assign_or_expr, parse_assign_or_expr, optional_value, other_stmt, stmt_on, parse_stmt, stmt_list,
  block_body,
}

looks_like_tuple-Post : (t : State) → Ends (rest_of t) → Post t 0 (looks_like_tuple_destructure t)
unfolding looks_like_tuple_destructure
looks_like_tuple-Post t h = yields (Step_refl t h)

module _ (n : ℕ) (typ : P TypeExpr) (ht : Eats n 1 typ) (expr or_level : P Expr)
    (he : Eats n 1 expr) (ho : Eats n 1 or_level) (block : P Block) (hk : Eats n 1 block)
    (match_p : P (Expr × MatchArms)) (hm : Eats n 1 match_p) where
  range_for-Post :
      (var_ty : TypeExpr) (name : Bytes) (from : Expr) (inclusive : Bool) (start : Span)
      {s t : State} {d : ℕ}
      → Step s t d
      → 1 ≤ d
      → weight (rest_of s) < n
      → Post s 1 (range_for typ expr or_level block match_p var_ty name from inclusive start t)
  unfolding range_for
  range_for-Post var_ty name from inclusive start {t} st hd hl =
      Post-bind st (ho t (st.ends) (omega (arith, hl, st.weigh))) (λ to u su.
        body-Post n typ ht expr or_level he ho block hk match_p hm
          (λ body. for_range var_ty name from to inclusive body start) su (omega (arith, hd)) hl)

  parse_for-Eats : Eats n 1 (parse_for typ expr or_level block match_p)
  unfolding parse_for
  parse_for-Eats t h hl = Post-peek_span t (Step_refl t h) (λ start u su ku.
      Post-expect for_kw "`for`" su (λ e. cc)
        (λ a v sv.
          Post-expect lparen "`(`" sv (λ e. cc)
            (λ b w sw. Post-bind sw (ht w (sw.ends) (omega (arith, sw.weigh))) (λ var_ty x sx.
              Post-expect_ident "loop variable" sx (λ name y sy.
                Post-expect in_kw "`in`" sy (λ e. cc)
                  (λ c z sz. Post-bind sz (ho z (sz.ends) (omega (arith, sz.weigh))) (λ src p sp.
                    Post-eat dot_dot_eq p sp (λ e. cc)
                      (λ q sq. range_for-Post var_ty (name.0) src true start sq (omega arith) hl)
                      (λ q sq.
                        Post-eat dot_dot q sq (λ e. cc)
                          (λ r sr.
                            range_for-Post var_ty (name.0) src false start sr (omega arith) hl)
                          (λ r sr.
                            body-Post n typ ht expr or_level he ho block hk match_p hm
                              (λ body. for_each var_ty (name.0) src body start) sr (omega arith)
                              hl)))))))))

  parse_while-Eats : Eats n 1 (parse_while typ expr or_level block match_p)
  unfolding parse_while
  parse_while-Eats t h hl = Post-peek_span t (Step_refl t h) (λ start u su ku.
      Post-expect while_kw "`while`" su (λ e. cc)
        (λ a v sv.
          Post-expect lparen "`(`" sv (λ e. cc)
            (λ b w sw. Post-bind sw (he w (sw.ends) (omega (arith, sw.weigh))) (λ cond x sx.
              body-Post n typ ht expr or_level he ho block hk match_p hm
                (λ body. while_stmt cond body start) sx (omega arith) hl))))

  assign_or_expr-Eats :
      (start : Span) → Eats n 1 (assign_or_expr typ expr or_level block match_p start)
  unfolding assign_or_expr
  assign_or_expr-Eats start t h hl = Post-bind (Step_refl t h) (he t h hl) (λ lhs u su.
      Post-peek u su (λ kind v sv kv.
        Post-option (op_of kind) sv
          (λ w sw. Post-expect semicolon "`;`" sw (λ e. cc) (λ a x sx. Post-done sx (omega arith)))
          (λ op w sw. Post-bind sw (bump-Post w (sw.ends)) (λ a x sx.
            Post-bind sx (he x (sx.ends) (omega (arith, sx.weigh))) (λ rhs y sy.
              Post-expect semicolon "`;`" sy (λ e. cc) (λ b z sz. Post-done sz (omega arith)))))))

  parse_assign_or_expr-Eats : Eats n 1 (parse_assign_or_expr typ expr or_level block match_p)
  unfolding parse_assign_or_expr
  parse_assign_or_expr-Eats t h hl = Post-peek_span t (Step_refl t h) (λ start u su ku.
      Post-at underscore u su
        (λ v sv eq'. Post-peek_at 1 v sv (λ second w sw kw.
          Post-if (is_eq second) sw
            (λ x sx. Post-bind sx (bump-Post x (sx.ends)) (λ a y sy.
              Post-bind sy (bump-Post y (sy.ends)) (λ b z sz.
                Post-bind sz (he z (sz.ends) (omega (arith, sz.weigh))) (λ value p sp.
                  Post-expect semicolon "`;`" sp (λ e. cc)
                    (λ c q sq. Post-done sq (omega arith))))))
            (λ x sx.
              Post-tail sx (assign_or_expr-Eats start x (sx.ends) (omega (arith, sx.weigh)))
                (omega arith))))
        (λ v sv.
          Post-tail sv (assign_or_expr-Eats start v (sv.ends) (omega (arith, sv.weigh)))
            (omega arith)))

  optional_value-Eats : Eats n 1 (optional_value typ expr or_level block match_p)
  unfolding optional_value
  optional_value-Eats t h hl =
      Post-at semicolon t (Step_refl t h)
        (λ u su eq'.
          Post-expect semicolon "`;`" su (λ e. cc) (λ a v sv. Post-done sv (omega arith)))
        (λ u su. Post-bind su (he u (su.ends) (omega (arith, su.weigh))) (λ e v sv.
          Post-expect semicolon "`;`" sv (λ e'. cc) (λ a w sw. Post-done sw (omega arith))))

  other_stmt-Eats : Eats n 1 (other_stmt typ expr or_level block match_p)
  unfolding other_stmt
  other_stmt-Eats t h hl = Post-bind (Step_refl t h) (looks_like_tuple-Post t h) (λ tuple u su.
      Post-if tuple su
        (λ v sv.
          Post-tail sv
            (parse_let_tuple-Eats n typ ht expr or_level he ho block hk match_p hm v (sv.ends)
              (omega (arith, sv.weigh)))
            (omega arith))
        (λ v sv. Post-bind sv (looks_like_decl-Post v (sv.ends)) (λ decl w sw.
          Post-if decl sw
            (λ x sx.
              Post-tail sx
                (parse_let-Eats n typ ht expr or_level he ho block hk match_p hm x (sx.ends)
                  (omega (arith, sx.weigh)))
                (omega arith))
            (λ x sx.
              Post-tail sx (parse_assign_or_expr-Eats x (sx.ends) (omega (arith, sx.weigh)))
                (omega arith)))))

  stmt_on-Post :
      (kind : TokKind) (start : Span) (t : State)
      → Ends (rest_of t)
      → weight (rest_of t) < n
      → kind_of t ≡ kind
      → Post t 1 (stmt_on typ expr or_level block match_p kind start t)
  unfolding stmt_on
  stmt_on-Post if_kw start t h hl ke =
      Post-fueled (if_rec typ expr or_level block match_p) t (λ f hf.
        if_rec-Post n typ ht expr or_level he ho block hk match_p hm f t h hl (omega (arith, hf)))
  stmt_on-Post while_kw start t h hl ke = parse_while-Eats t h hl
  stmt_on-Post for_kw start t h hl ke = parse_for-Eats t h hl
  stmt_on-Post inline_kw start t h hl ke =
      parse_inline_for-Eats n typ ht expr or_level he ho block hk match_p hm t h hl
  stmt_on-Post break_kw start t h hl ke =
      Post-bump (Step_refl t h) (λ e. cc)
        (λ a u su. Post-expect semicolon "`;`" su (λ e. cc) (λ b v sv. Post-done sv (omega arith)))
  stmt_on-Post continue_kw start t h hl ke =
      Post-bump (Step_refl t h) (λ e. cc)
        (λ a u su. Post-expect semicolon "`;`" su (λ e. cc) (λ b v sv. Post-done sv (omega arith)))
  stmt_on-Post match_kw start t h hl ke =
      Post-bump (Step_refl t h) (λ e. cc)
        (λ a u su. Post-bind su (hm u (su.ends) (omega (arith, su.weigh))) (λ found v sv.
          Post-bind sv (eat-Post semicolon v (sv.ends) (λ e. cc))
            (λ b w sw. Post-done sw (omega arith))))
  stmt_on-Post yield_kw start t h hl ke =
      Post-bump (Step_refl t h) (λ e. cc)
        (λ a u su. Post-bind su (he u (su.ends) (omega (arith, su.weigh))) (λ e v sv.
          Post-expect semicolon "`;`" sv (λ e'. cc) (λ b w sw. Post-done sw (omega arith))))
  stmt_on-Post propagate_kw start t h hl ke =
      Post-bump (Step_refl t h) (λ e. cc)
        (λ a u su.
          Post-bind su (optional_value-Eats u (su.ends) (omega (arith, su.weigh)))
            (λ e v sv. Post-done sv (omega arith)))
  stmt_on-Post return_kw start t h hl ke =
      Post-bump (Step_refl t h) (λ e. cc)
        (λ a u su.
          Post-bind su (optional_value-Eats u (su.ends) (omega (arith, su.weigh)))
            (λ e v sv. Post-done sv (omega arith)))
  stmt_on-Post lbrace start t h hl ke =
      Post-bind (Step_refl t h) (hk t h hl) (λ b u su. Post-done su (omega arith))
  stmt_on-Post unsafe_kw start t h hl ke =
      Post-bump (Step_refl t h) (λ e. cc)
        (λ a u su.
          Post-bind su (hk u (su.ends) (omega (arith, su.weigh)))
            (λ b v sv. Post-done sv (omega arith)))
  stmt_on-Post _ start t h hl ke = other_stmt-Eats t h hl

  pub parse_stmt-Eats : Eats n 1 (parse_stmt typ expr or_level block match_p)
  unfolding parse_stmt
  parse_stmt-Eats t h hl = Post-peek_span t (Step_refl t h) (λ start u su ku.
      Post-peek u su (λ kind v sv kv.
        Post-tail sv (stmt_on-Post kind start v (sv.ends) (omega (arith, sv.weigh)) kv)
          (omega arith)))

  stmt_list-Post :
      (f : ℕ) (t : State)
      → Ends (rest_of t)
      → weight (rest_of t) < n
      → 10 * weight (rest_of t) + 1 ≤ f
      → Post t 0 (stmt_list typ expr or_level block match_p f t)
  unfolding stmt_list
  stmt_list-Post zero t h hl hf = absurd (omega (arith, hf))
  stmt_list-Post (suc f) t h hl hf =
      Post-at rbrace t (Step_refl t h) (λ u su e. Post-done su (omega arith))
        (λ u su.
          Post-at eof u su (λ v sv e. Post-done sv (omega arith))
            (λ v sv.
              Post-bind sv (parse_stmt-Eats v (sv.ends) (omega (arith, sv.weigh))) (λ first w sw.
                Post-bind sw
                  (stmt_list-Post f w (sw.ends) (omega (arith, sw.weigh)) (omega (arith, sw.weigh)))
                  (λ others x sx. Post-done sx (omega arith)))))

  -- A block's parts are behind its `{`.
  pub block_body-Eats : Eats (suc n) 1 (block_body typ expr or_level block match_p)
  unfolding block_body
  block_body-Eats t h hl =
      Post-expect lbrace "`{`" (Step_refl t h) (λ e. cc)
        (λ opening u su.
          Post-bind su
            (Post-fueled (stmt_list typ expr or_level block match_p) u
              (λ f hf. stmt_list-Post f u (su.ends) (omega (arith, su.weigh)) (omega (arith, hf))))
            (λ found v sv.
              Post-expect rbrace "`}`" sv (λ e. cc) (λ a w sw. Post-done sw (omega arith))))
