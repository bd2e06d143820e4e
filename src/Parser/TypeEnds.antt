-- ===== src/Parser/TypeEnds.antt =====
-- crates/parser/src/lib.rs: types keep within their fuel and the tokens.
use maka.Base.{sym, ◌∙◌, ℕ, zero, suc, ◌+◌, ◌*◌, ◌≤◌, ◌≡◌, ◌≢◌, true, false, Bytes, arith}
use maka.Base.Int.{ℤ}
use maka.Ast.Items.{FuncDecl}
use maka.Ast.Types.{raw_ptr, own_ptr, heap, ref, ptr}
use maka.Ctfe.Outcome.{Table}
use maka.Lexer.Token.{
  Span, TokKind, eof, ident, mut_kw, alloc_kw, raw_kw, own_kw, dyn_kw, some_kw, unit_kw, lparen,
  rparen, lbracket, rbracket, comma, underscore, star, amp, lt, gt,
}
use maka.Parser.Kind.{same_kind-eof}
use maka.Parser.Progress.{Ends, Step_refl, weight}
use maka.Parser.Post.{
  Post, kind_of, Post-done, Post-fail, Post-tail, Post-if, Post-option, Post-bind, Post-attempt,
  Post-peek, Post-peek_span, Post-bump, Post-at, Post-eat,
}
use maka.Parser.Expects.{
  Post-expect, Post-expect_ident, Post-position, Post-rewind, expect-Post, fold_here-Post,
}
use maka.Parser.State.{Build, State, rest_of}
use maka.Parser.Types.{
  closes, parse_type, fn_params, type_list, parse_type_base, own_type, type_on, bracket_type,
  generic_type, generic_args,
}
use maka.Parser.TypePartEnds.{assoc_segments-Post, dyn_type-Post, pointee-Post}

module _ (built : Build) (consts : Table ℤ) (fns : Table FuncDecl) where
  mutual
    unfolding parse_type

    pub parse_type-Post :
        (f : ℕ) (s : State)
        → Ends (rest_of s)
        → 10 * weight (rest_of s) + 4 ≤ f
        → Post s 1 (parse_type built consts fns f s)
    parse_type-Post zero s h le = absurd (omega (arith, le))
    parse_type-Post (suc f) s h le =
        Post-bind (Step_refl s h) (parse_type_base-Post f s h (omega (arith, le))) (λ base t st.
          Post-at lparen t st
            (λ u su eq. Post-peek_span u su (λ span v sv ke.
              Post-bump sv (λ e. same_kind-eof (kind_of u) lparen eq (λ e'. cc) (cc))
                (λ a w sw.
                  Post-bind sw (fn_params-Post f w (sw.ends) (omega (arith, sw.weigh)))
                    (λ params x sx.
                      Post-expect rparen "`)`" sx (λ e. cc)
                        (λ b y sy. Post-done sy (omega arith))))))
            (λ u su. Post-done su (omega arith)))

    fn_params-Post :
        (f : ℕ) (s : State)
        → Ends (rest_of s)
        → 10 * weight (rest_of s) + 6 ≤ f
        → Post s 0 (fn_params built consts fns f s)
    fn_params-Post zero s h le = absurd (omega (arith, le))
    fn_params-Post (suc f) s h le =
        Post-at rparen s (Step_refl s h) (λ u su eq. Post-done su (omega arith))
          (λ u su.
            Post-tail su (type_list-Post f u (su.ends) (omega (arith, su.weigh))) (omega arith))

    pub type_list-Post :
        (f : ℕ) (s : State)
        → Ends (rest_of s)
        → 10 * weight (rest_of s) + 5 ≤ f
        → Post s 1 (type_list built consts fns f s)
    type_list-Post zero s h le = absurd (omega (arith, le))
    type_list-Post (suc f) s h le =
        Post-bind (Step_refl s h) (parse_type-Post f s h (omega (arith, le))) (λ t u su.
          Post-eat comma u su (λ e. cc)
            (λ v sv.
              Post-bind sv (type_list-Post f v (sv.ends) (omega (arith, sv.weigh)))
                (λ ts w sw. Post-done sw (omega arith)))
            (λ v sv. Post-done sv (omega arith)))

    pub parse_type_base-Post :
        (f : ℕ) (s : State)
        → Ends (rest_of s)
        → 10 * weight (rest_of s) + 3 ≤ f
        → Post s 1 (parse_type_base built consts fns f s)
    parse_type_base-Post zero s h le = absurd (omega (arith, le))
    parse_type_base-Post (suc f) s h le = Post-peek_span s (Step_refl s h) (λ start t st ke.
        Post-at alloc_kw t st (λ u su eq. Post-fail su)
          (λ u su.
            Post-eat raw_kw u su (λ e. cc)
              (λ v sv.
                Post-expect star "`*` after `raw`" sv (λ e. cc)
                  (λ a w sw.
                    pointee-Post (parse_type built consts fns f) (λ m inner. raw_ptr m inner start)
                      sw (λ x sx. parse_type-Post f x (sx.ends) (omega (arith, sx.weigh)))
                      (omega arith)))
              (λ v sv.
                Post-eat own_kw v sv (λ e. cc)
                  (λ w sw.
                    Post-tail sw (own_type-Post f start w (sw.ends) (omega (arith, sw.weigh)))
                      (omega arith))
                  (λ w sw.
                    Post-eat dyn_kw w sw (λ e. cc)
                      (λ x sx.
                        Post-tail sx
                          (dyn_type-Post f false start x (sx.ends) (omega (arith, sx.weigh)))
                          (omega arith))
                      (λ x sx.
                        Post-eat some_kw x sx (λ e. cc)
                          (λ y sy.
                            Post-tail sy
                              (dyn_type-Post f true start y (sy.ends) (omega (arith, sy.weigh)))
                              (omega arith))
                          (λ y sy. Post-peek y sy (λ kind z sz kz.
                            Post-tail sz
                              (type_on-Post f kind start z (sz.ends) (omega (arith, sz.weigh)) kz)
                              (omega arith))))))))

    own_type-Post :
        (f : ℕ) (start : Span) (s : State)
        → Ends (rest_of s)
        → 10 * weight (rest_of s) + 1 ≤ f
        → Post s 1 (own_type built consts fns f start s)
    own_type-Post zero start s h le = absurd (omega (arith, le))
    own_type-Post (suc f) start s h le =
        Post-eat star s (Step_refl s h) (λ e. cc)
          (λ t st.
            pointee-Post (parse_type built consts fns f) (λ m inner. own_ptr m inner start) st
              (λ u su. parse_type-Post f u (su.ends) (omega (arith, su.weigh))) (omega arith))
          (λ t st.
            Post-eat amp t st (λ e. cc)
              (λ u su.
                pointee-Post (parse_type built consts fns f) (λ m inner. heap inner start) su
                  (λ v sv. parse_type-Post f v (sv.ends) (omega (arith, sv.weigh))) (omega arith))
              (λ u su. Post-peek_span u su (λ span v sv ke. Post-fail sv)))

    type_on-Post :
        (f : ℕ) (kind : TokKind) (start : Span) (s : State)
        → Ends (rest_of s)
        → 10 * weight (rest_of s) + 2 ≤ f
        → kind_of s ≡ kind
        → Post s 1 (type_on built consts fns f kind start s)
    type_on-Post zero kind start s h le ke = absurd (omega (arith, le))
    type_on-Post (suc f) amp start s h le ke =
        Post-bump (Step_refl s h) (λ e. cc)
          (λ a t st.
            pointee-Post (parse_type built consts fns f) (λ m inner. ref m inner start) st
              (λ u su. parse_type-Post f u (su.ends) (omega (arith, su.weigh))) (omega arith))
    type_on-Post (suc f) star start s h le ke =
        Post-bump (Step_refl s h) (λ e. cc)
          (λ a t st.
            pointee-Post (parse_type built consts fns f) (λ m inner. ptr m inner start) st
              (λ u su. parse_type-Post f u (su.ends) (omega (arith, su.weigh))) (omega arith))
    type_on-Post (suc f) lbracket start s h le ke =
        Post-bump (Step_refl s h) (λ e. cc)
          (λ a t st.
            Post-tail st (bracket_type-Post f start t (st.ends) (omega (arith, st.weigh)))
              (omega arith))
    type_on-Post (suc f) lparen start s h le ke =
        Post-bump (Step_refl s h) (λ e. cc)
          (λ a t st. Post-expect rparen "`)`" st (λ e. cc) (λ b u su. Post-done su (omega arith)))
    type_on-Post (suc f) unit_kw start s h le ke =
        Post-bump (Step_refl s h) (λ e. cc) (λ a t st. Post-done st (omega arith))
    type_on-Post (suc f) underscore start s h le ke =
        Post-bump (Step_refl s h) (λ e. cc)
          (λ a t st.
            Post-tail st (assoc_segments-Post f _ t (st.ends) (omega (arith, st.weigh)))
              (omega arith))
    type_on-Post (suc f) (ident n) start s h le ke =
        Post-expect_ident "type name" (Step_refl s h) (λ name t st.
          Post-at lt t st
            (λ u su eq.
              Post-bind su
                (generic_type-Post f (name.0) (name.1) u (su.ends) (omega (arith, su.weigh))
                  (same_kind-eof (kind_of u) lt eq (λ e. cc)))
                (λ head v sv.
                  Post-tail sv (assoc_segments-Post f head v (sv.ends) (omega (arith, sv.weigh)))
                    (omega arith)))
            (λ u su.
              Post-tail su (assoc_segments-Post f _ u (su.ends) (omega (arith, su.weigh)))
                (omega arith)))
    type_on-Post (suc f) other start s h le ke =
        Post-peek_span s (Step_refl s h) (λ span v sv ke'. Post-fail sv)

    bracket_type-Post :
        (f : ℕ) (start : Span) (s : State)
        → Ends (rest_of s)
        → 10 * weight (rest_of s) + 5 ≤ f
        → Post s 1 (bracket_type built consts fns f start s)
    bracket_type-Post zero start s h le = absurd (omega (arith, le))
    bracket_type-Post (suc f) start s h le =
        Post-eat rbracket s (Step_refl s h) (λ e. cc)
          (λ t st.
            Post-eat mut_kw t st (λ e. cc)
              (λ u su.
                Post-bind su (parse_type-Post f u (su.ends) (omega (arith, su.weigh)))
                  (λ elem v sv. Post-done sv (omega arith)))
              (λ u su.
                Post-bind su (parse_type-Post f u (su.ends) (omega (arith, su.weigh)))
                  (λ elem v sv. Post-done sv (omega arith))))
          (λ t st.
            Post-eat star t st (λ e. cc)
              (λ u su.
                Post-expect rbracket "`]`" su (λ e. cc)
                  (λ a v sv.
                    Post-bind sv (parse_type-Post f v (sv.ends) (omega (arith, sv.weigh)))
                      (λ elem w sw. Post-done sw (omega arith))))
              (λ u su. Post-peek_span u su (λ span v sv ke.
                Post-bind sv (fold_here-Post built consts fns v (sv.ends)) (λ folded w sw.
                  Post-option folded sw (λ x sx. Post-fail sx)
                    (λ n x sx.
                      Post-expect rbracket "`]`" sx (λ e. cc)
                        (λ a y sy.
                          Post-bind sy (parse_type-Post f y (sy.ends) (omega (arith, sy.weigh)))
                            (λ elem z sz. Post-done sz (omega arith))))))))

    generic_type-Post :
        (f : ℕ) (name : Bytes) (span : Span) (s : State)
        → Ends (rest_of s)
        → 10 * weight (rest_of s) + 1 ≤ f
        → kind_of s ≢ eof
        → Post s 0 (generic_type built consts fns f name span s)
    generic_type-Post zero name span s h le ne = absurd (omega (arith, le))
    generic_type-Post (suc f) name span s h le ne =
        Post-position 0 s (Step_refl s h) (omega arith) (λ n t tt' st ke eq.
          Post-bump tt' (λ e. ne (sym ke ∙ e))
            (λ a u su.
              Post-bind su (generic_args-Post f u (su.ends) (omega (arith, st.weigh, su.weigh)))
                (λ args v sv.
                  Post-option args sv
                    (λ w sw. Post-rewind tt' sw eq (λ x sx. Post-done sx (omega arith)))
                    (λ ts w sw.
                      Post-attempt sw (expect-Post gt "`>`" w (sw.ends) (λ e. cc))
                        (λ x sx. Post-rewind tt' sx eq (λ y sy. Post-done sy (omega arith)))
                        (λ b x sx. Post-done sx (omega arith))))))

    generic_args-Post :
        (f : ℕ) (s : State)
        → Ends (rest_of s)
        → 10 * weight (rest_of s) + 5 ≤ f
        → Post s 0 (generic_args built consts fns f s)
    generic_args-Post zero s h le = absurd (omega (arith, le))
    generic_args-Post (suc f) s h le =
        Post-attempt (Step_refl s h) (parse_type-Post f s h (omega (arith, le)))
          (λ t st. Post-done st (omega arith))
          (λ t u su.
            Post-eat comma u su (λ e. cc)
              (λ v sv.
                Post-bind sv (generic_args-Post f v (sv.ends) (omega (arith, sv.weigh)))
                  (λ others w sw.
                    Post-option others sw (λ x sx. Post-done sx (omega arith))
                      (λ ts x sx. Post-done sx (omega arith))))
              (λ v sv. Post-peek v sv (λ kind w sw ke.
                Post-if (closes kind) sw (λ x sx. Post-done sx (omega arith))
                  (λ x sx. Post-done sx (omega arith)))))
