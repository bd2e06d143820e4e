-- ===== src/Parser/TypePartEnds.antt =====
-- crates/parser/src/lib.rs: the parts of a type keep within their fuel and the tokens.
use maka.Base.{ℕ, zero, suc, ◌+◌, ◌*◌, ◌≤◌, Bool, arith}
use maka.Ast.Types.{TypeExpr, Mutness}
use maka.Lexer.Token.{
  Span, mut_kw, const_kw, constexpr_kw, thread_local_kw, colon_colon, lparen, rparen, plus,
}
use maka.Parser.Kind.{same_kind-eof}
use maka.Parser.Progress.{Ends, Step, Step_refl, Step_less, weight}
use maka.Parser.Post.{Post, kind_of, Post-done, Post-tail, Post-bind, Post-bump, Post-at, Post-eat}
use maka.Parser.Expects.{Post-expect, Post-expect_ident, eat-Post}
use maka.Parser.State.{State, rest_of, P, ◌>>=◌, and_then, pure}
use maka.Parser.Types.{parse_mutness, trait_names, dyn_type, assoc_segments}

pub parse_mutness-Post : (s : State) → Ends (rest_of s) → Post s 0 (parse_mutness s)
unfolding parse_mutness
parse_mutness-Post s h =
    Post-bind (Step_refl s h) (eat-Post thread_local_kw s h (λ e. cc)) (λ a t st.
      Post-eat mut_kw t st (λ e. cc) (λ u su. Post-done su (omega arith))
        (λ u su.
          Post-eat const_kw u su (λ e. cc) (λ v sv. Post-done sv (omega arith))
            (λ v sv.
              Post-eat constexpr_kw v sv (λ e. cc) (λ w sw. Post-done sw (omega arith))
                (λ w sw. Post-done sw (omega arith)))))

trait_names-Post :
    (f : ℕ) (s : State)
    → Ends (rest_of s)
    → 10 * weight (rest_of s) + 1 ≤ f
    → Post s 1 (trait_names f s)
unfolding trait_names
trait_names-Post zero s h le = absurd (omega (arith, le))
trait_names-Post (suc f) s h le = Post-expect_ident "trait name" (Step_refl s h) (λ name t st.
    Post-eat plus t st (λ e. cc)
      (λ u su.
        Post-bind su (trait_names-Post f u (su.ends) (omega (arith, su.weigh)))
          (λ names v sv. Post-done sv (omega arith)))
      (λ u su. Post-done su (omega arith)))

pub dyn_type-Post :
    (f : ℕ) (locked : Bool) (start : Span) (s : State)
    → Ends (rest_of s)
    → 10 * weight (rest_of s) + 1 ≤ f
    → Post s 1 (dyn_type f locked start s)
unfolding dyn_type
dyn_type-Post f locked start s h le =
    Post-eat lparen s (Step_refl s h) (λ e. cc)
      (λ u su.
        Post-bind su (trait_names-Post f u (su.ends) (omega (arith, su.weigh))) (λ names v sv.
          Post-expect rparen "`)`" sv (λ e. cc) (λ a w sw. Post-done sw (omega arith))))
      (λ u su. Post-expect_ident "trait name" su (λ name v sv. Post-done sv (omega arith)))

pub assoc_segments-Post :
    (f : ℕ) (base : TypeExpr) (s : State)
    → Ends (rest_of s)
    → 10 * weight (rest_of s) + 1 ≤ f
    → Post s 0 (assoc_segments f base s)
unfolding assoc_segments
assoc_segments-Post zero base s h le = absurd (omega (arith, le))
assoc_segments-Post (suc f) base s h le =
    Post-at colon_colon s (Step_refl s h)
      (λ u su eq. Post-bump su (same_kind-eof (kind_of u) colon_colon eq (λ e. cc)) (λ a v sv.
        Post-expect_ident "associated-type name" sv (λ name w sw.
          Post-tail sw (assoc_segments-Post f _ w (sw.ends) (omega (arith, sw.weigh)))
            (omega arith))))
      (λ u su. Post-done su (omega arith))

-- A mutability and what is pointed at.
pub pointee-Post :
    (p : P TypeExpr) (build : Mutness → TypeExpr → TypeExpr) {s t : State} {d e : ℕ}
    → Step s t d
    → ((u : State) → Step s u d → Post u 1 (p u))
    → e ≤ d + 1
    → Post s e (and_then (parse_mutness t) (λ m. p >>= (λ inner. pure (build m inner))))
pointee-Post p build {s} {t} {d} st hp le = Post-bind st (parse_mutness-Post t (st.ends)) (λ m u su.
    let su' : Step s u d = Step_less su (omega arith) in
    Post-bind su' (hp u su') (λ inner v sv. Post-done sv (omega arith)))
