-- ===== src/Parser/Patterns.antt =====
-- crates/parser/src/lib.rs: match patterns.
use maka.Base.{
  ℕ, zero, suc, ◌-◌, Bool, true, false, ◌&&◌, List, [], ◌∷◌, Option, none, some, Bytes,
  if◌then◌else◌,
}
use maka.Base.Int.{ℤ, negsuc, i64_half}
use maka.Ast.Types.{
  int, float, bool, char, PatField, Pattern, variant, variant_destructure, lit, null, else_pattern,
  ident,
}
use maka.Ctfe.Word.{wrapping_neg, int_eq}
use maka.Lexer.Token.{
  Span, TokKind, int as int_tok, float as float_tok, char_lit, ident as ident_tok, true_kw,
  false_kw, null_kw, mut_kw, unsafe_kw, raw_kw, own_kw, match_kw, yield_kw, propagate_kw, for_kw,
  break_kw, continue_kw, if_kw, else_kw, while_kw, return_kw, lparen, lbrace, rbrace, comma, dot,
  colon, underscore, minus, star, amp, eq,
}
use maka.Parser.Fueled.{fueled}
use maka.Parser.State.{
  Build, P, ◌>>=◌, ◌>>◌, pure, fail, no_fuel, message, expected, overflowed, peek, peek_at,
  peek_span, bump, at, eat, expect, expect_ident,
}

-- `looks_like_destructure`, on the two kinds behind the `{`.
unfoldable pub looks_like_destructure : TokKind → TokKind → Bool
looks_like_destructure rbrace _ = false
looks_like_destructure if_kw _ = false
looks_like_destructure while_kw _ = false
looks_like_destructure for_kw _ = false
looks_like_destructure return_kw _ = false
looks_like_destructure mut_kw _ = false
looks_like_destructure unsafe_kw _ = false
looks_like_destructure match_kw _ = false
looks_like_destructure break_kw _ = false
looks_like_destructure continue_kw _ = false
looks_like_destructure yield_kw _ = false
looks_like_destructure propagate_kw _ = false
looks_like_destructure underscore _ = false
looks_like_destructure own_kw _ = false
looks_like_destructure raw_kw _ = false
looks_like_destructure star _ = false
looks_like_destructure amp _ = false
looks_like_destructure (ident_tok _) lparen = false
looks_like_destructure (ident_tok _) dot = false
looks_like_destructure (ident_tok _) eq = false
looks_like_destructure (ident_tok _) (ident_tok _) = false
looks_like_destructure _ _ = true

-- `Lit::Int(-n)`, whose negation panics at `i64::MIN` if arithmetic is checked.
unfoldable pub negated : Build → ℤ → Span → P Pattern
negated built n start =
    if int_eq n (negsuc (i64_half - 1)) && built.overflow_checks
    then (λ s. overflowed)
    else pure (lit (int (wrapping_neg n)) start)

-- The kinds of an integer, an identifier and the others, which the guards distinguish.
abbrev pub int_of : TokKind → Option ℤ
int_of (int_tok n) = some n
int_of _ = none

-- Behind the `=` of a field.
unfoldable pub field_value : Bytes → Span → TokKind → P PatField
field_value name start (int_tok n) =
    bump >> pure (record { field = name; binding = none; literal = some (int n); span = start })
field_value name start true_kw =
    bump >> pure (record { field = name; binding = none; literal = some (bool true); span = start })
field_value name start false_kw =
    bump
    >> pure (record { field = name; binding = none; literal = some (bool false); span = start })
field_value name start (ident_tok n) = do
  rename ← expect_ident "rename"
  pure (record { field = name; binding = some (rename.0); literal = none; span = start })
field_value name start other = do span ← peek_span; fail (expected "rename or literal" other) span

unfoldable pub pat_field : P PatField
unfolding field_value
pat_field = do
  start ← peek_span
  name ← expect_ident "field name"
  renamed ← eat colon
  if renamed
      then (do
        rename ← expect_ident "binding name"
        pure (record { field = name.0; binding = some (rename.0); literal = none; span = start }))
      else (do
        valued ← eat eq
        if valued
            then (do kind ← peek; field_value (name.0) start kind)
            else pure (record { field = name.0; binding = none; literal = none; span = start }))

-- `while !self.at(&TokKind::RBrace) { … }`.
unfoldable pub pat_fields : ℕ → P (List PatField)
unfolding pat_field
pat_fields zero = no_fuel
pat_fields (suc f) = do
  closed ← at rbrace
  if closed then pure [] else (do
    first ← pat_field
    again ← eat comma
    if again then (do others ← pat_fields f; pure (first ∷ others)) else pure (first ∷ []))

-- What an identifier alone or behind an enum's name is.
abbrev pub plain_pattern : Option Bytes → Bytes → Span → Pattern
plain_pattern none name start = ident name start
plain_pattern (some enum) name start = variant (some enum) name start

-- From the `{` on, if there is one.
unfoldable pub variant_pattern : Option Bytes → Bytes → Span → P Pattern
unfolding looks_like_destructure pat_fields
variant_pattern enum_name name start = do
  opened ← at lbrace
  if opened
      then (do
        first ← peek_at 1
        second ← peek_at 2
        if looks_like_destructure first second
            then (do
              bump
              fields ← fueled pat_fields
              expect rbrace "`}`"
              pure (variant_destructure enum_name name fields start))
            else pure (plain_pattern enum_name name start))
      else pure (plain_pattern enum_name name start)

-- `match self.peek() { … }` of `parse_pattern_atom`.
unfoldable pub pattern_on : Build → TokKind → Span → P Pattern
unfolding negated variant_pattern
pattern_on built null_kw start = bump >> pure (null start)
pattern_on built else_kw start = bump >> pure (else_pattern start)
pattern_on built (int_tok n) start = bump >> pure (lit (int n) start)
pattern_on built (float_tok text) start = bump >> pure (lit (float text) start)
pattern_on built (char_lit c) start = bump >> pure (lit (char c) start)
pattern_on built true_kw start = bump >> pure (lit (bool true) start)
pattern_on built false_kw start = bump >> pure (lit (bool false) start)
pattern_on built minus start = do
  bump
  kind ← peek
  elim (int_of kind) as (λ _. P Pattern) [
    | none ↦ (do span ← peek_span; fail (message "expected integer after `-`") span)
    | some n ↦ (bump >> negated built n start)
  ]
pattern_on built (ident_tok n) start = do
  name ← expect_ident "pattern"
  qualified ← eat dot
  if qualified
      then (do
        second ← expect_ident "variant name"
        variant_pattern (some (name.0)) (second.0) start)
      else variant_pattern none (name.0) start
pattern_on built other start = fail (expected "pattern" other) start

unfoldable pub parse_pattern : Build → P Pattern
unfolding pattern_on
parse_pattern built = do start ← peek_span; kind ← peek; pattern_on built kind start
