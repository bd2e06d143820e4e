-- ===== src/Parser/PrimaryEnds.antt =====
-- crates/parser/src/lib.rs: primary expressions keep within their fuel and within the tokens.
use maka.Base.{
  ltb, ◌*◌, ◌-◌, length, sym, ◌∙◌, ℕ, zero, suc, ◌+◌, ◌*◌, ◌≤◌, ◌<◌, ◌≡◌, ◌≢◌, Option, some, Bytes,
  arith,
}
use maka.Base.Int.{i64_half, ℤ, pos, negsuc}
use maka.Ast.Exprs.{Expr, Block}
use maka.Ast.Types.{TypeExpr}
use maka.Ctfe.Outcome.{Table, get}
use maka.Lexer.Token.{Span, eof, colon_colon, lparen, comma, lt as lt_tok, gt}
use maka.Parser.Kind.{same_kind-eof}
use maka.Parser.Fueled.{Post-fueled, Eats, Post-eat_ident}
use maka.Parser.ListEnds.{is_struct_lit_context-Post, call_args-Eats, parse_struct_lit-Eats}
use maka.Parser.Post.{
  overflows, Post-if, Post, kind_of, Post-done, Post-fail, Post-tail, Post-if, Post-option,
  Post-bind, Post-attempt, Post-peek, Post-bump, Post-at, Post-eat,
}
use maka.Parser.Expects.{Post-position, Post-rewind, expect-Post}
use maka.Parser.Primary.{
  filled, keeps_name, constant_or_ident, skip_type_args, generic_literal, prefix_call, behind_name,
}
use maka.Parser.Progress.{Ends, Step, Step_refl, weight}
use maka.Parser.State.{Build, State, rest_of, read_of, P, ◌>>◌, rewind}
use maka.Parser.Types.{closes}

pub filled-Post :
    (built : Build) (n : ℤ) (first : Expr) (count_span span : Span) {s t : State} {d e : ℕ}
    → Step s t d
    → e ≤ d
    → Post s e (filled built n first count_span span t)
unfolding filled
filled-Post built (pos n) first count_span span st le =
    Post-if (ltb (i64_half - 1) (n * built.expr_size)) st (λ u su. overflows)
      (λ u su. Post-done su le)
filled-Post built (negsuc n) first count_span span st le = Post-fail st

constant_or_ident-Post :
    (consts : Table ℤ) (name : Bytes) (span : Span) (t : State)
    → Ends (rest_of t)
    → Post t 0 (constant_or_ident consts name span t)
unfolding constant_or_ident
constant_or_ident-Post consts name span t h = Post-peek t (Step_refl t h) (λ kind u su ku.
    Post-option (get consts name) su (λ v sv. Post-done sv (omega arith))
      (λ k v sv.
        Post-if (keeps_name kind) sv (λ w sw. Post-done sw (omega arith))
          (λ w sw. Post-done sw (omega arith))))

module _ (n : ℕ) (typ : P TypeExpr) (ht : Eats n 1 typ) where
  skip_type_args-Post :
      (f : ℕ) (t : State)
      → Ends (rest_of t)
      → weight (rest_of t) < n
      → 10 * weight (rest_of t) + 1 ≤ f
      → Post t 0 (skip_type_args typ f t)
  unfolding skip_type_args
  skip_type_args-Post zero t h hl hf = absurd (omega (arith, hf))
  skip_type_args-Post (suc f) t h hl hf =
      Post-attempt (Step_refl t h) (ht t h hl) (λ u su. Post-done su (omega arith))
        (λ ty u su.
          Post-eat comma u su (λ e. cc)
            (λ v sv.
              Post-tail sv
                (skip_type_args-Post f v (sv.ends) (omega (arith, sv.weigh))
                  (omega (arith, sv.weigh)))
                (omega arith))
            (λ v sv. Post-peek v sv (λ kind w sw kw.
              Post-if (closes kind) sw (λ x sx. Post-done sx (omega arith))
                (λ x sx. Post-done sx (omega arith)))))

  generic_literal-Post :
      (t : State)
      → Ends (rest_of t)
      → weight (rest_of t) < suc n
      → kind_of t ≢ eof
      → Post t 0 (generic_literal typ t)
  unfolding generic_literal
  generic_literal-Post t h hl ne = Post-bump (Step_refl t h) ne (λ a u su.
      Post-bind su
        (Post-fueled (skip_type_args typ) u
          (λ f hf. skip_type_args-Post f u (su.ends) (omega (arith, su.weigh)) (omega (arith, hf))))
        (λ ok v sv.
          Post-if ok sv
            (λ w sw.
              Post-attempt sw (expect-Post gt "`>`" w (sw.ends) (λ e. cc))
                (λ x sx. Post-done sx (omega arith))
                (λ b x sx. Post-tail sx (is_struct_lit_context-Post x (sx.ends)) (omega arith)))
            (λ w sw. Post-done sw (omega arith))))

module _ (n : ℕ) (built : Build) (typ type_base : P TypeExpr) (fold : P (Option ℤ))
    (consts : Table ℤ) (expr : P Expr) (block : P Block) (ht : Eats n 1 typ)
    (hb : Eats (suc n) 1 type_base) (hf : Eats n 0 fold) (he : Eats n 1 expr)
    (hk : Eats n 1 block) where
  constant_back-Post :
      (name : Bytes) (span : Span) {save : ℕ} {v x : State} {c : ℕ}
      → Step v v 0
      → Step v x c
      → save ≡ length (read_of v)
      → Post v 0 ((rewind save >> constant_or_ident consts name span) x)
  constant_back-Post name span vv sx hs =
      Post-rewind vv sx hs
        (λ y sy. Post-tail sy (constant_or_ident-Post consts name span y (sy.ends)) (omega arith))

  prefix_call-Eats :
      (name : Bytes) (span : Span)
      → Eats n 0 (prefix_call built typ type_base fold consts expr block name span)
  unfolding prefix_call
  prefix_call-Eats name span t h hl =
      Post-at colon_colon t (Step_refl t h)
        (λ u su eq'. Post-position 0 u su (omega arith) (λ save v vv sv kv hs.
          Post-bump vv (λ k. same_kind-eof (kind_of u) colon_colon eq' (λ e'. cc) (sym kv ∙ k))
            (λ a w sw.
              Post-eat_ident w sw (λ x sx. constant_back-Post name span vv sx hs)
                (λ seg x sx.
                  Post-at lparen x sx
                    (λ y sy eq''.
                      Post-bump sy (same_kind-eof (kind_of y) lparen eq'' (λ e'. cc)) (λ b z sz.
                        Post-bind sz
                          (call_args-Eats n expr he z (sz.ends) (omega (arith, sv.weigh, sz.weigh)))
                          (λ args q sq. Post-done sq (omega arith))))
                    (λ y sy. constant_back-Post name span vv sy hs)))))
        (λ u su. Post-tail su (constant_or_ident-Post consts name span u (su.ends)) (omega arith))

  pub behind_name-Eats :
      (name : Bytes) (span : Span)
      → Eats n 0 (behind_name built typ type_base fold consts expr block name span)
  unfolding behind_name
  behind_name-Eats name span t h hl =
      Post-bind (Step_refl t h) (is_struct_lit_context-Post t h) (λ literal u su.
        Post-if literal su
          (λ v sv.
            Post-tail sv
              (parse_struct_lit-Eats n expr he (some name) span v (sv.ends)
                (omega (arith, sv.weigh)))
              (omega arith))
          (λ v sv.
            Post-at lt_tok v sv
              (λ w sw eq'. Post-position 0 w sw (omega arith) (λ save x xx sx kx hs.
                Post-bind xx
                  (generic_literal-Post n typ ht x (xx.ends) (omega (arith, sx.weigh))
                    (λ k. same_kind-eof (kind_of w) lt_tok eq' (λ e'. cc) (sym kx ∙ k)))
                  (λ found y sy.
                    Post-if found sy
                      (λ z sz.
                        Post-tail sz
                          (parse_struct_lit-Eats n expr he (some name) span z (sz.ends)
                            (omega (arith, sx.weigh, sz.weigh)))
                          (omega arith))
                      (λ z sz. Post-rewind xx sz hs (λ p sp.
                        Post-tail sp
                          (prefix_call-Eats name span p (sp.ends)
                            (omega (arith, sx.weigh, sp.weigh)))
                          (omega arith))))))
              (λ w sw.
                Post-tail sw (prefix_call-Eats name span w (sw.ends) (omega (arith, sw.weigh)))
                  (omega arith))))
