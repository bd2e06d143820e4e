-- ===== src/Parser/ItemEnds.antt =====
-- crates/parser/src/lib.rs: items without types, and parts of the others, keep within their fuel.
use Prim.Native.String.{String}
use maka.Base.{ℕ, ◌≡◌, ◌≢◌, Bool, true, false, Option, none, some, Bytes, if◌then◌else◌, arith}
use maka.Base.Int.{ℤ}
use maka.Ast.Items.{Item}
use maka.Lexer.Token.{
  Span, TokKind, eof, int, str_lit, mut_kw, extern_kw, rdep_kw, data_kw, semicolon, eq,
}
use maka.Parser.Fueled.{Eats, Post-part}
use maka.Parser.Items.{
  text_of, text_behind, text_item, parse_rdep, parse_foreign_data, optional_text,
}
use maka.Parser.Patterns.{int_of}
use maka.Parser.Post.{Post, kind_of, Post-done, Post-fail, Post-peek, Post-peek_span, Post-bump}
use maka.Parser.Expects.{Post-expect, Post-expect_ident}
use maka.Parser.Progress.{Ends, Step, Step_refl}
use maka.Parser.State.{
  State, rest_of, P, ◌>>=◌, ◌>>◌, pure, fail, message, bump, at, expect, peek_span,
}

text-Post :
    (what : String) (kind : TokKind) {s u : State} {d : ℕ}
    → Step s u d
    → kind_of u ≡ kind
    → Post s 0 (
        (elim (text_of kind) as (λ _. P Bytes) [
          | none ↦ (do span ← peek_span; fail (message what) span)
          | some text ↦ (bump >> pure text)
        ])
          u)
text-Post what (str_lit text) su ku = Post-bump su (λ e. cc) (λ a v sv. Post-done sv (omega arith))
text-Post what _ {s} {u} su ku = Post-peek_span u su (λ span v sv kv. Post-fail sv)

text_behind-Eats : (n : ℕ) (what : String) → Eats n 0 (text_behind what)
unfolding text_behind
text_behind-Eats n what s h hl =
    Post-peek s (Step_refl s h) (λ kind u su ku. text-Post what kind su ku)

pub text_item-Eats :
    (n : ℕ) (keyword : TokKind) (name what : String) (build : Bytes → Span → Item)
    → keyword ≢ eof
    → Eats n 1 (text_item keyword name what build)
unfolding text_item
text_item-Eats n keyword name what build ne s h hl =
    Post-expect keyword name (Step_refl s h) ne (λ kw u su.
      Post-part su (text_behind-Eats n what) (omega (arith, hl, su.weigh)) (λ text v sv.
        Post-expect semicolon "`;`" sv (λ e. cc) (λ a w sw. Post-done sw (omega arith))))

pub parse_rdep-Eats : (n : ℕ) → Eats n 1 parse_rdep
unfolding parse_rdep
parse_rdep-Eats n s h hl =
    Post-expect rdep_kw "`rdep`" (Step_refl s h) (λ e. cc)
      (λ kw u su. Post-expect_ident "crate name" su (λ name v sv.
        Post-expect eq "`=`" sv (λ e. cc)
          (λ a w sw.
            Post-part sw (text_behind-Eats n "expected string literal after `=` in `rdep`")
              (omega (arith, hl, sw.weigh))
              (λ text x sx.
                Post-expect semicolon "`;`" sx (λ e. cc) (λ b y sy. Post-done sy (omega arith))))))

pub parse_foreign_data-Eats : (n : ℕ) → Eats n 1 parse_foreign_data
unfolding parse_foreign_data
parse_foreign_data-Eats n s h hl =
    Post-expect extern_kw "`extern`" (Step_refl s h) (λ e. cc)
      (λ a u su.
        Post-expect data_kw "`data`" su (λ e. cc)
          (λ kw v sv. Post-expect_ident "foreign type name" sv (λ name w sw.
            Post-expect semicolon "`;` after `extern data Name`" sw (λ e. cc)
              (λ b x sx. Post-done sx (omega arith)))))

optional-Post :
    (kind : TokKind) {s u : State} {d : ℕ}
    → Step s u d
    → kind_of u ≡ kind
    → Post s 0 (
        (elim (text_of kind) as (λ _. P (Option Bytes)) [
          | none ↦ pure none
          | some text ↦ (bump >> pure (some text))
        ])
          u)
optional-Post (str_lit text) su ku = Post-bump su (λ e. cc) (λ a v sv. Post-done sv (omega arith))
optional-Post _ su ku = Post-done su (omega arith)

pub optional_text-Eats : (n : ℕ) → Eats n 0 optional_text
unfolding optional_text
optional_text-Eats n s h hl = Post-peek s (Step_refl s h) (λ kind u su ku. optional-Post kind su ku)

pub value-Post :
    (kind : TokKind) {s u : State} {d : ℕ}
    → Step s u d
    → kind_of u ≡ kind
    → Post s 0 (
        (elim (int_of kind) as (λ _. P ℤ) [
          | none ↦ (do span ← peek_span; fail (message "expected integer") span)
          | some i ↦ (bump >> pure i)
        ])
          u)
value-Post (int i) su ku = Post-bump su (λ e. cc) (λ a v sv. Post-done sv (omega arith))
value-Post _ {s} {u} su ku = Post-peek_span u su (λ span v sv kv. Post-fail sv)

pub at-Post : (k : TokKind) (t : State) → Ends (rest_of t) → Post t 0 (at k t)
unfolding at
at-Post k t h = Post-peek t (Step_refl t h) (λ kind u su ku. Post-done su (omega arith))

pub mut-Post :
    (b : Bool) (t : State)
    → Ends (rest_of t)
    → Post t 0 ((if b then (expect mut_kw "`mut`" >> pure true) else pure true) t)
mut-Post true t h =
    Post-expect mut_kw "`mut`" (Step_refl t h) (λ e. cc) (λ a u su. Post-done su (omega arith))
mut-Post false t h = Post-done (Step_refl t h) (omega arith)
