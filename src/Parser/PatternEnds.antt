-- ===== src/Parser/PatternEnds.antt =====
-- crates/parser/src/lib.rs: patterns keep within their fuel and the tokens.
use maka.Base.{ℕ, zero, suc, ◌+◌, ◌*◌, ◌-◌, ◌&&◌, ◌≤◌, ◌≡◌, ◌≢◌, Option, none, some, Bytes, arith}
use maka.Base.Int.{ℤ, negsuc, i64_half}
use maka.Ctfe.Word.{int_eq}
use maka.Ast.Types.{Pattern}
use maka.Lexer.Token.{
  Span, TokKind, eof, ident, lbrace, rbrace, comma, eq, colon, dot, int, true_kw, false_kw, null_kw,
  else_kw, float, char_lit, minus,
}
use maka.Parser.Fueled.{Post-fueled}
use maka.Parser.Patterns.{
  looks_like_destructure, negated, int_of, field_value, pat_field, pat_fields, variant_pattern,
  pattern_on, parse_pattern,
}
use maka.Parser.Post.{
  Post, kind_of, Post-done, Post-fail, Post-tail, Post-if, Post-bind, Post-peek, Post-peek_span,
  Post-peek_at, Post-bump, Post-at, Post-eat, overflows,
}
use maka.Parser.Expects.{bump-Post, Post-expect, Post-expect_ident}
use maka.Parser.Progress.{Ends, Step, Step_refl, weight}
use maka.Parser.State.{Build, State, rest_of, P, ◌>>=◌, ◌>>◌, bump, pure, fail, message, peek_span}

field_value-Post :
    (name : Bytes) (start : Span) (kind : TokKind) (s : State)
    → Ends (rest_of s)
    → kind_of s ≡ kind
    → Post s 1 (field_value name start kind s)
unfolding field_value
field_value-Post name start (int n) s h ke =
    Post-bump (Step_refl s h) (λ e. cc) (λ a t st. Post-done st (omega arith))
field_value-Post name start true_kw s h ke =
    Post-bump (Step_refl s h) (λ e. cc) (λ a t st. Post-done st (omega arith))
field_value-Post name start false_kw s h ke =
    Post-bump (Step_refl s h) (λ e. cc) (λ a t st. Post-done st (omega arith))
field_value-Post name start (ident n) s h ke =
    Post-expect_ident "rename" (Step_refl s h) (λ rename t st. Post-done st (omega arith))
field_value-Post name start other s h ke =
    Post-peek_span s (Step_refl s h) (λ span t st ke'. Post-fail st)

pat_field-Post : (s : State) → Ends (rest_of s) → Post s 1 (pat_field s)
unfolding pat_field
pat_field-Post s h = Post-peek_span s (Step_refl s h) (λ start t st ke.
    Post-expect_ident "field name" st (λ name u su.
      Post-eat colon u su (λ e. cc)
        (λ v sv. Post-expect_ident "binding name" sv (λ rename w sw. Post-done sw (omega arith)))
        (λ v sv.
          Post-eat eq v sv (λ e. cc)
            (λ w sw. Post-peek w sw (λ kind x sx kx.
              Post-tail sx (field_value-Post (name.0) start kind x (sx.ends) kx) (omega arith)))
            (λ w sw. Post-done sw (omega arith)))))

pat_fields-Post :
    (f : ℕ) (s : State)
    → Ends (rest_of s)
    → 10 * weight (rest_of s) + 1 ≤ f
    → Post s 0 (pat_fields f s)
unfolding pat_fields
pat_fields-Post zero s h hf = absurd (omega (arith, hf))
pat_fields-Post (suc f) s h hf =
    Post-at rbrace s (Step_refl s h) (λ t st e. Post-done st (omega arith))
      (λ t st. Post-bind st (pat_field-Post t (st.ends)) (λ first u su.
        Post-eat comma u su (λ e. cc)
          (λ v sv.
            Post-bind sv (pat_fields-Post f v (sv.ends) (omega (arith, sv.weigh)))
              (λ others w sw. Post-done sw (omega arith)))
          (λ v sv. Post-done sv (omega arith))))

variant_pattern-Post :
    (enum : Option Bytes) (name : Bytes) (start : Span) (s : State)
    → Ends (rest_of s)
    → Post s 0 (variant_pattern enum name start s)
unfolding variant_pattern
variant_pattern-Post enum name start s h =
    Post-at lbrace s (Step_refl s h)
      (λ t st eq'. Post-peek_at 1 t st (λ first u su ku. Post-peek_at 2 u su (λ second v sv kv.
        Post-if (looks_like_destructure first second) sv
          (λ w sw. Post-bind sw (bump-Post w (sw.ends)) (λ a x sx.
            Post-bind sx
              (Post-fueled pat_fields x (λ f hf. pat_fields-Post f x (sx.ends) (omega (arith, hf))))
              (λ fields y sy.
                Post-expect rbrace "`}`" sy (λ e. cc) (λ b z sz. Post-done sz (omega arith)))))
          (λ w sw. Post-done sw (omega arith)))))
      (λ t st. Post-done st (omega arith))

negated-Post :
    (built : Build) (n : ℤ) (start : Span) {s t : State} {d e : ℕ}
    → Step s t d
    → e ≤ d
    → Post s e (negated built n start t)
unfolding negated
negated-Post built n start st le =
    Post-if (int_eq n (negsuc (i64_half - 1)) && built.overflow_checks) st (λ u su. overflows)
      (λ u su. Post-done su le)

pub literal-Post :
    {A : Type 0} (a : A) (s : State)
    → Ends (rest_of s)
    → kind_of s ≢ eof
    → Post s 1 ((bump >> pure a) s)
literal-Post a s h ne = Post-bump (Step_refl s h) ne (λ b t st. Post-done st (omega arith))

-- A `-` and what is behind it.
minus-Post :
    (built : Build) (kind : TokKind) (start : Span) (t : State) {s : State}
    → Step s t 1
    → kind_of t ≡ kind
    → Post s 1 (
        (elim (int_of kind) as (λ _. P Pattern) [
          | none ↦ (do span ← peek_span; fail (message "expected integer after `-`") span)
          | some n ↦ (bump >> negated built n start)
        ])
          t)
minus-Post built (int n) start t st ke =
    Post-bump st (λ e. cc) (λ a u su. negated-Post built n start su (omega arith))
minus-Post built _ start t st ke = Post-peek_span t st (λ span u su ke'. Post-fail su)

pattern_on-Post :
    (built : Build) (kind : TokKind) (start : Span) (s : State)
    → Ends (rest_of s)
    → kind_of s ≡ kind
    → Post s 1 (pattern_on built kind start s)
unfolding pattern_on
pattern_on-Post built null_kw start s h ke = literal-Post _ s h (λ e. cc)
pattern_on-Post built else_kw start s h ke = literal-Post _ s h (λ e. cc)
pattern_on-Post built (int n) start s h ke = literal-Post _ s h (λ e. cc)
pattern_on-Post built (float n) start s h ke = literal-Post _ s h (λ e. cc)
pattern_on-Post built (char_lit n) start s h ke = literal-Post _ s h (λ e. cc)
pattern_on-Post built true_kw start s h ke = literal-Post _ s h (λ e. cc)
pattern_on-Post built false_kw start s h ke = literal-Post _ s h (λ e. cc)
pattern_on-Post built minus start s h ke =
    Post-bump (Step_refl s h) (λ e. cc)
      (λ a t st. Post-peek t st (λ kind u su ku. minus-Post built kind start u su ku))
pattern_on-Post built (ident n) start s h ke =
    Post-expect_ident "pattern" (Step_refl s h) (λ name t st.
      Post-eat dot t st (λ e. cc)
        (λ u su. Post-expect_ident "variant name" su (λ second v sv.
          Post-tail sv (variant_pattern-Post _ (second.0) start v (sv.ends)) (omega arith)))
        (λ u su. Post-tail su (variant_pattern-Post _ (name.0) start u (su.ends)) (omega arith)))
pattern_on-Post built other start s h ke = Post-fail (Step_refl s h)

pub parse_pattern-Post :
    (built : Build) (s : State) → Ends (rest_of s) → Post s 1 (parse_pattern built s)
unfolding parse_pattern
parse_pattern-Post built s h = Post-peek_span s (Step_refl s h) (λ start t st ke.
    Post-peek t st (λ kind u su ku.
      Post-tail su (pattern_on-Post built kind start u (su.ends) ku) (omega arith)))
