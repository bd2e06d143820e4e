-- ===== src/Parser/Primary.antt =====
-- crates/parser/src/lib.rs: primary expressions.
use maka.Base.{
  ltb, ◌*◌, ◌-◌, ℕ, zero, suc, Bool, true, false, Option, none, some, Bytes, if◌then◌else◌,
}
use maka.Base.Int.{i64_half, ℤ, pos, negsuc}
use maka.Ast.Exprs.{
  Expr, lit, ident, array_lit, vec_fill, match, attr_call, Exprs, no_exprs, exprs, no_expr,
  MatchArms, Block,
}
use maka.Ast.Types.{TypeExpr, int, float, bool, char, str, null, unit}
use maka.Ctfe.Outcome.{Table, get}
use maka.Lexer.Token.{
  Span, TokKind, int as int_tok, float as float_tok, str_lit, char_lit, ident as ident_tok, true_kw,
  false_kw, null_kw, match_kw, if_kw, colon_colon, lparen, rparen, lbrace, lbracket, rbracket,
  comma, semicolon, dot, bang, lt, gt,
}
use maka.Parser.Fueled.{fueled, eat_ident}
use maka.Parser.Lambda.{try_parse_lambda}
use maka.Parser.Lists.{is_struct_lit_context, call_args, parse_struct_lit}
use maka.Parser.State.{
  Build, overflowed, P, ◌>>=◌, ◌>>◌, pure, fail, no_fuel, attempt, message, expected, peek,
  peek_span, bump, at, eat, expect, position, rewind,
}
use maka.Parser.Types.{closes}

unfoldable pub replicate : ℕ → Expr → Exprs
replicate zero e = no_exprs
replicate (suc n) e = exprs e (replicate n e)

-- `[expr; N]` with the length that was folded: `Vec::with_capacity` panics if the elements take more
-- than `isize::MAX` bytes.
unfoldable pub filled : Build → ℤ → Expr → Span → Span → P Expr
unfolding replicate
filled built (pos n) first count_span span =
    if ltb (i64_half - 1) (n * built.expr_size)
    then (λ s. overflowed)
    else pure (array_lit (replicate n first) span)
filled built (negsuc n) first count_span span =
    fail (message "array fill-length must be non-negative") count_span

-- The kinds behind a name that keep it from being a constant's value.
abbrev pub keeps_name : TokKind → Bool
keeps_name lparen = true
keeps_name lbracket = true
keeps_name dot = true
keeps_name lt = true
keeps_name bang = true
keeps_name _ = false

-- The constants' part of a name.
unfoldable pub constant_or_ident : Table ℤ → Bytes → Span → P Expr
unfolding get
constant_or_ident consts name span = do
  kind ← peek
  elim (get consts name) as (λ _. P Expr) [
    | none ↦ pure (ident name span)
    | some v ↦ if keeps_name kind then pure (ident name span) else pure (lit (int v) span)
  ]

-- The loop behind `Name <`.
unfoldable pub skip_type_args : P TypeExpr → ℕ → P Bool
skip_type_args typ zero = no_fuel
skip_type_args typ (suc f) = do
  t ← attempt typ
  elim t as (λ _. P Bool) [
    | none ↦ pure false
    | some _ ↦ (do
      again ← eat comma
      if again
          then skip_type_args typ f
          else (do kind ← peek; if closes kind then pure true else pure false))
  ]

-- At a `<`: do type arguments and a literal's `{` follow?
unfoldable pub generic_literal : P TypeExpr → P Bool
unfolding skip_type_args
generic_literal typ = do
  bump
  ok ← fueled (skip_type_args typ)
  if ok
      then (do
        closed ← attempt (expect gt "`>`")
        elim closed as (λ _. P Bool) [ none ↦ pure false | some _ ↦ is_struct_lit_context ])
      else pure false

module _ (built : Build) (typ type_base : P TypeExpr) (fold : P (Option ℤ)) (consts : Table ℤ)
    (expr : P Expr) (block : P Block) where
  -- `Attr::method(args)`, or the name alone.
  unfoldable pub prefix_call : Bytes → Span → P Expr
  unfolding call_args constant_or_ident
  prefix_call name span = do
    qualified ← at colon_colon
    if qualified
        then (do
          save ← position
          bump
          segment ← eat_ident
          elim segment as (λ _. P Expr) [
            | none ↦ (rewind save >> constant_or_ident consts name span)
            | some seg ↦ (do
              opened ← at lparen
              if opened
                  then (do bump; args ← call_args expr; pure (attr_call name seg no_expr args span))
                  else (rewind save >> constant_or_ident consts name span))
          ])
        else constant_or_ident consts name span

  -- Behind a name.
  unfoldable pub behind_name : Bytes → Span → P Expr
  unfolding prefix_call generic_literal parse_struct_lit
  behind_name name span = do
    literal ← is_struct_lit_context
    if literal then parse_struct_lit expr (some name) span else (do
      generic ← at lt
      if generic
          then (do
            save ← position
            found ← generic_literal typ
            if found
                then parse_struct_lit expr (some name) span
                else (rewind save >> prefix_call name span))
          else prefix_call name span)

  unfoldable pub more_elems : ℕ → P Exprs
  more_elems zero = no_fuel
  more_elems (suc f) = do
    again ← eat comma
    if again
        then (do
          closed ← at rbracket
          if closed then pure no_exprs else (do e ← expr; es ← more_elems f; pure (exprs e es)))
        else pure no_exprs

  -- A length that is no constant.
  unfoldable pub runtime_fill : ℕ → Expr → Span → P Expr
  runtime_fill save first span = do
    rewind save
    len ← expr
    expect rbracket "`]`"
    pure (vec_fill first len span)

  -- Behind `[expr;`.
  unfoldable pub array_fill : Expr → Span → P Expr
  unfolding filled runtime_fill
  array_fill first span = do
    count_span ← peek_span
    save ← position
    count ← fold
    elim count as (λ _. P Expr) [
      | none ↦ runtime_fill save first span
      | some n ↦ (do
        closed ← at rbracket
        if closed
            then (bump >> filled built n first count_span span)
            else runtime_fill save first span)
    ]

  -- Behind `[`.
  unfoldable pub array_literal : Span → P Expr
  unfolding more_elems array_fill
  array_literal span = do
    closed ← eat rbracket
    if closed then pure (array_lit no_exprs span) else (do
      first ← expr
      fill ← eat semicolon
      if fill then array_fill first span else (do
        others ← fueled more_elems
        expect rbracket "`]`"
        pure (array_lit (exprs first others) span)))

  -- Behind `(`.
  unfoldable pub in_parens : Span → P Expr
  in_parens span = do
    closed ← eat rparen
    if closed then pure (lit unit span) else (do e ← expr; expect rparen "`)`"; pure e)

  module _ (match_after_kw : P (Expr × MatchArms)) (if_p : P Expr) where
    -- `match self.peek().clone() { … }`.
    unfoldable pub primary_on : TokKind → Span → P Expr
    unfolding in_parens array_literal behind_name parse_struct_lit
    primary_on (int_tok n) span = bump >> pure (lit (int n) span)
    primary_on (float_tok text) span = bump >> pure (lit (float text) span)
    primary_on (str_lit text) span = bump >> pure (lit (str text) span)
    primary_on (char_lit c) span = bump >> pure (lit (char c) span)
    primary_on true_kw span = bump >> pure (lit (bool true) span)
    primary_on false_kw span = bump >> pure (lit (bool false) span)
    primary_on null_kw span = bump >> pure (lit null span)
    primary_on lparen span = bump >> in_parens span
    primary_on lbracket span = bump >> array_literal span
    primary_on match_kw span = do
      bump
      found ← match_after_kw
      pure (match (found.0) (found.1) span)
    primary_on if_kw span = if_p
    primary_on lbrace span = parse_struct_lit expr none span
    primary_on (ident_tok name) span = bump >> behind_name name span
    primary_on other span = fail (expected "expression" other) span

    unfoldable pub parse_primary : P Expr
    unfolding primary_on try_parse_lambda
    parse_primary = do
      span ← peek_span
      found ← try_parse_lambda type_base expr block
      elim found as (λ _. P Expr) [
        | none ↦ (do kind ← peek; primary_on kind span)
        | some e ↦ pure e
      ]
