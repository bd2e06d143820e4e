-- ===== src/Parser/Impls.antt =====
-- crates/parser/src/lib.rs: attributes, their implementations, and the choice between the declarations.
use maka.Base.{
  ℕ, ◌+◌, ◌⊎◌, inl, inr, Bool, true, false, List, Option, none, some, Bytes, if◌then◌else◌,
}
use maka.Ast.Exprs.{Expr, Block}
use maka.Ast.Items.{
  Item, func, data_item, enum, extern, attr, has, c_include, c_block, c_link, global, rblock,
  FuncDecl, AttrDecl, HasDecl,
}
use maka.Ast.Placeholder.{receiver_canonical_name}
use maka.Ast.Types.{TypeExpr, AssocTypeDecl, AssocTypeDef}
use maka.Lexer.Token.{
  TokKind, ident, mut_kw, extern_kw, cinclude_kw, cblock_kw, clink_kw, rblock_kw, rdep_kw, attr_kw,
  has_kw, inline_kw, gate_kw, data_kw, enum_kw, type_kw, lbrace, rbrace, comma, semicolon, colon,
  lt, gt, eq,
}
use maka.Parser.Bounds.{
  separated, until_rbrace, list_behind, lefts, rights, parse_type_params_with_bounds,
}
use maka.Parser.Fueled.{fueled}
use maka.Parser.Funcs.{parse_func, parse_attr_method}
use maka.Parser.Exprs.{type_p, parse_expr, parse_block}
use maka.Parser.Progress.{weight}
use maka.Ctfe.Outcome.{Table}
use maka.Base.Int.{ℤ}
use maka.Parser.Items.{
  text_item, parse_rdep, parse_foreign_data, starts_receiver, is_has, names_global,
}
use maka.Parser.Decls.{parse_global, parse_data, parse_enum, parse_extern}
use maka.Parser.State.{
  Build, rest_of, P, ◌>>=◌, ◌>>◌, pure, attempt, peek, peek_at, peek_span, bump, at, eat, expect,
  expect_ident, position, rewind,
}

-- A result in an item.
unfoldable pub as_item : {A : Type 0} → (A → Item) → P A → P Item
as_item build p = do a ← p; pure (build a)

module _ (typ : P TypeExpr) (expr : P Expr) (block : P Block) where
  unfoldable pub optional_type : P (Option TypeExpr)
  optional_type = do found ← eat eq; if found then (do ty ← typ; pure (some ty)) else pure none

  -- An associated type of an attribute, or a method.
  unfoldable pub attr_member : P (AssocTypeDecl ⊎ FuncDecl)
  unfolding optional_type parse_attr_method
  attr_member = do
    is_type ← at type_kw
    if is_type
        then (do
          span ← peek_span
          bump
          name ← expect_ident "associated-type name"
          default_ty ← optional_type
          expect semicolon "`;`"
          pure (inl (record { name = name.0; default_ty = default_ty; span = span })))
        else (do f ← parse_attr_method typ block; pure (inr f))

  unfoldable pub supertrait : P Bytes
  supertrait = do name ← expect_ident "supertrait name"; pure (name.0)

  unfoldable pub parse_attr : P AttrDecl
  unfolding attr_member supertrait separated until_rbrace list_behind lefts rights
      parse_type_params_with_bounds
  parse_attr = do
    kw ← expect attr_kw "`attr`"
    name ← expect_ident "attribute name"
    type_params ← parse_type_params_with_bounds typ true
    supertraits ← list_behind colon (fueled (separated comma supertrait))
    expect lbrace "`{`"
    members ← fueled (until_rbrace attr_member)
    expect rbrace "`}`"
    pure (record {
      name = name.0;
      type_params = type_params.names;
      type_param_defaults = type_params.defaults;
      supertraits = supertraits;
      funcs = rights members;
      assoc_types = lefts members;
      is_pub = false;
      span = kw.span;
    })

  -- An associated type of an implementation, or a function.
  unfoldable pub has_member : P (AssocTypeDef ⊎ FuncDecl)
  unfolding parse_func
  has_member = do
    is_type ← at type_kw
    if is_type
        then (do
          span ← peek_span
          bump
          name ← expect_ident "associated-type name"
          expect eq "`=`"
          val ← typ
          expect semicolon "`;`"
          pure (inl (record { name = name.0; value = val; span = span })))
        else (do f ← parse_func typ block; pure (inr f))

  unfoldable pub attr_args : P (List TypeExpr)
  unfolding separated list_behind
  attr_args = list_behind lt (do args ← fueled (separated comma typ); expect gt "`>`"; pure args)

  unfoldable pub parse_has : P HasDecl
  unfolding has_member attr_args until_rbrace lefts rights receiver_canonical_name
  parse_has = do
    start ← peek_span
    receiver ← typ
    expect has_kw "`has`"
    name ← expect_ident "attribute name"
    args ← attr_args
    expect lbrace "`{`"
    members ← fueled (until_rbrace has_member)
    expect rbrace "`}`"
    pure (record {
      type_name = receiver_canonical_name receiver;
      receiver = receiver;
      attr_name = name.0;
      attr_args = args;
      funcs = rights members;
      assoc_type_defs = lefts members;
      is_pub = false;
      span = start;
    })

  -- What `test` says of the two kinds behind a type, or no; the parser is where it was.
  unfoldable pub behind_type : (TokKind → TokKind → Bool) → P Bool
  behind_type test = do
    save ← position
    ty ← attempt typ
    elim ty as (λ _. P Bool) [
      | none ↦ (rewind save >> pure false)
      | some t ↦ (do first ← peek; second ← peek_at 1; rewind save; pure (test first second))
    ]

  unfoldable pub looks_like_parametric_has_item : P Bool
  unfolding behind_type
  looks_like_parametric_has_item = do
    kind ← peek
    if starts_receiver kind then behind_type (λ first second. is_has first) else pure false

  -- An item without a keyword: an implementation, a global or a function.
  unfoldable pub plain_item : P Item
  unfolding as_item looks_like_parametric_has_item parse_has parse_global parse_func
  plain_item = do
    parametric ← looks_like_parametric_has_item
    if parametric then as_item has parse_has else (do
      is_global ← behind_type names_global
      if is_global
          then as_item global (parse_global typ expr block false)
          else as_item func (parse_func typ block))

  -- `match &kind { … }`, with the kind behind it.
  unfoldable pub item_on : TokKind → TokKind → P Item
  unfolding plain_item text_item parse_rdep parse_foreign_data parse_data parse_enum parse_extern
      parse_attr
  item_on data_kw next = as_item data_item (parse_data typ expr block)
  item_on enum_kw next = as_item enum (parse_enum typ expr block)
  item_on extern_kw data_kw = as_item data_item parse_foreign_data
  item_on extern_kw next = as_item extern (parse_extern typ expr block)
  item_on cinclude_kw next =
      text_item cinclude_kw "`cinclude`" "expected string literal after `cinclude`" c_include
  item_on cblock_kw next =
      text_item cblock_kw "`cblock`" "expected string literal after `cblock`" c_block
  item_on clink_kw next =
      text_item clink_kw "`clink`"
        "expected string literal after `clink` (a `-lname`/`-L/path` flag or a `.a`/`.o`/`.c` file)"
        c_link
  item_on rblock_kw next =
      text_item rblock_kw "`rblock`" "expected string literal after `rblock`" rblock
  item_on rdep_kw next = parse_rdep
  item_on attr_kw next = as_item attr parse_attr
  item_on inline_kw next = as_item func (parse_func typ block)
  item_on gate_kw next = as_item func (parse_func typ block)
  item_on mut_kw next = as_item global (parse_global typ expr block true)
  item_on (ident n) has_kw = as_item has parse_has
  item_on _ next = plain_item

  unfoldable pub parse_item : P Item
  unfolding item_on
  parse_item = do kind ← peek; next ← peek_at 1; item_on kind next

module _ (built : Build) (consts : Table ℤ) (fns : Table FuncDecl) where
  -- With a fuel that is enough.
  unfoldable pub item_here : P Item
  unfolding parse_item type_p parse_expr
  item_here s =
      let f : ℕ = weight (rest_of s) + 1 in
      parse_item (type_p built consts fns) (parse_expr built consts fns f)
        (parse_block built consts fns f) s
