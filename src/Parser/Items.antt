-- ===== src/Parser/Items.antt =====
-- crates/parser/src/lib.rs: items without types, and the tests that choose between items.
use Prim.Native.String.{String}
use maka.Base.{Bool, true, false, [], Option, none, some, Bytes}
use maka.Ast.Items.{Item, rdep, DataDecl}
use maka.Lexer.Token.{
  Span, TokKind, str_lit, ident, extern_kw, rdep_kw, raw_kw, own_kw, has_kw, data_kw, semicolon,
  dot, star, amp, eq,
}
use maka.Parser.State.{
  P, ◌>>=◌, ◌>>◌, pure, fail, message, peek, peek_span, bump, expect, expect_ident,
}

abbrev pub text_of : TokKind → Option Bytes
text_of (str_lit text) = some text
text_of _ = none

-- A string literal, or the message of the declaration.
unfoldable pub text_behind : String → P Bytes
text_behind what = do
  kind ← peek
  elim (text_of kind) as (λ _. P Bytes) [
    | none ↦ (do span ← peek_span; fail (message what) span)
    | some text ↦ (bump >> pure text)
  ]

-- `cinclude`, `clink`, `cblock` and `rblock`, whose parsers differ in the keyword and the messages.
unfoldable pub text_item : TokKind → String → String → (Bytes → Span → Item) → P Item
unfolding text_behind
text_item keyword name what build = do
  kw ← expect keyword name
  text ← text_behind what
  expect semicolon "`;`"
  pure (build text (kw.span))

unfoldable pub parse_rdep : P Item
unfolding text_behind
parse_rdep = do
  kw ← expect rdep_kw "`rdep`"
  name ← expect_ident "crate name"
  expect eq "`=`"
  version ← text_behind "expected string literal after `=` in `rdep`"
  expect semicolon "`;`"
  pure (rdep (name.0) version (kw.span))

unfoldable pub parse_foreign_data : P DataDecl
parse_foreign_data = do
  expect extern_kw "`extern`"
  kw ← expect data_kw "`data`"
  name ← expect_ident "foreign type name"
  expect semicolon "`;` after `extern data Name`"
  pure (record {
    name = name.0;
    type_params = [];
    fields = [];
    where_clauses = [];
    is_pub = false;
    is_foreign = true;
    span = kw.span;
  })

-- `if let TokKind::StrLit(_) = self.peek() { … } else { None }`.
unfoldable pub optional_text : P (Option Bytes)
optional_text = do
  kind ← peek
  elim (text_of kind) as (λ _. P (Option Bytes)) [
    | none ↦ pure none
    | some text ↦ (bump >> pure (some text))
  ]

abbrev pub or_else : Option Bytes → Bytes → Bytes
or_else none name = name
or_else (some text) name = text

abbrev pub is_dot : TokKind → Bool
is_dot dot = true
is_dot _ = false

-- `matches!(self.peek(), Star | Amp | Own | Raw | Ident(_))`.
abbrev pub starts_receiver : TokKind → Bool
starts_receiver star = true
starts_receiver amp = true
starts_receiver own_kw = true
starts_receiver raw_kw = true
starts_receiver (ident _) = true
starts_receiver _ = false

abbrev pub is_has : TokKind → Bool
is_has has_kw = true
is_has _ = false

abbrev pub names_global : TokKind → TokKind → Bool
names_global (ident _) eq = true
names_global _ _ = false
