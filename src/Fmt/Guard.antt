-- ===== src/Fmt/Guard.antt =====
-- crates/fmt/src/lib.rs: what `format_checked` lets through.
use maka.Base.{List, Bytes, bytes_eq, bytes_eq_iff, ◌∙◌, ◌≡◌, inl, inr, ap, Bool-cases}
use maka.Fmt.Checked.{formatted, lex_kinds, check_after, check_before, format_checked}
use maka.Fmt.Decoding.{kinds_eq_iff}
use maka.Fmt.Kinds.{kinds_eq}
use maka.Fmt.Layout.{format}
use maka.Lexer.Token.{TokKind, Result, ok, err, panicked, out_of_fuel}

after-formatted :
    (out x : Bytes) (before : List TokKind) (r : Result (List TokKind))
    → check_after out before r ≡ formatted x
    → (x ≡ out) × (r ≡ ok before)
unfolding check_after
after-formatted out x before (ok after) h = elim (Bool-cases (kinds_eq before after)) [
  | inl e ↦
      let q = (kinds_eq_iff before after).0 e in
      let f : formatted out ≡ formatted x = rw e at h in (cc, cc)
  | inr e ↦ let f = rw e at h in cc
]
after-formatted out x before (err e) h = cc
after-formatted out x before panicked h = cc
after-formatted out x before out_of_fuel h = cc

before-formatted :
    (out x : Bytes) (r : Result (List TokKind))
    → check_before out r ≡ formatted x
    → (x ≡ out) × (lex_kinds out ≡ r)
unfolding check_before
before-formatted out x (ok before) h = after-formatted out x before (lex_kinds out) h
before-formatted out x (err e) h = cc
before-formatted out x panicked h = cc
before-formatted out x out_of_fuel h = cc

-- A text that `format_checked` returns is the one `format` makes, and lexes to the token kinds of the
-- source, or to the error of the source.
pub format_checked-kinds :
    (src x : Bytes)
    → format_checked src ≡ formatted x
    → (x ≡ format src) × (lex_kinds x ≡ lex_kinds src)
unfolding format_checked
format_checked-kinds src x h = elim (Bool-cases (bytes_eq (format src) src)) [
  | inl e ↦
      let q : format src ≡ src = (bytes_eq_iff (format src) src).0 e in
      let f : formatted (format src) ≡ formatted x = rw e at h in
      let g : x ≡ format src = cc in (g, ap lex_kinds (g ∙ q))
  | inr e ↦
      let p = before-formatted (format src) x (lex_kinds src) (rw e at h) in
      (p.0, ap lex_kinds p.0 ∙ p.1)
]
