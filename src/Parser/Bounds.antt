-- ===== src/Parser/Bounds.antt =====
-- crates/parser/src/lib.rs: type parameters with their bounds, and where clauses.
use Prim.Native.String.{String}
use maka.Base.{
  ◌⊎◌, ℕ, zero, suc, Bool, true, false, List, [], ◌∷◌, ◌++◌, Option, none, some, inl, inr, map,
  Bytes, if◌then◌else◌,
}
use maka.Ast.Types.{TypeExpr, named, WhereClause}
use maka.Lexer.Token.{
  Span, TokKind, ident, eq, lt, gt, comma, colon, plus, rbrace, where_kw, has_kw,
}
use maka.Parser.Fueled.{fueled}
use maka.Parser.State.{
  P, ◌>>=◌, ◌>>◌, pure, fail, no_fuel, message, peek, peek_at, peek_span, bump, at, eat, expect,
  expect_ident,
}

module _ {A : Type 0} where
  -- `loop { … if !self.eat(separator) { break; } }`.
  unfoldable pub separated : TokKind → P A → ℕ → P (List A)
  separated separator p zero = no_fuel
  separated separator p (suc f) = do
    a ← p
    again ← eat separator
    if again then (do others ← separated separator p f; pure (a ∷ others)) else pure (a ∷ [])

  -- `while !self.at(&TokKind::RBrace) { … }`.
  unfoldable pub until_rbrace : P A → ℕ → P (List A)
  until_rbrace p zero = no_fuel
  until_rbrace p (suc f) = do
    closed ← at rbrace
    if closed then pure [] else (do a ← p; others ← until_rbrace p f; pure (a ∷ others))

  -- The same with a comma between two of them, and maybe one behind the last.
  unfoldable pub comma_until_rbrace : P A → ℕ → P (List A)
  comma_until_rbrace p zero = no_fuel
  comma_until_rbrace p (suc f) = do
    closed ← at rbrace
    if closed then pure [] else (do
      a ← p
      again ← eat comma
      if again then (do others ← comma_until_rbrace p f; pure (a ∷ others)) else pure (a ∷ []))

  -- Behind the keyword or sign that says that there is a list, or none.
  unfoldable pub list_behind : TokKind → P (List A) → P (List A)
  list_behind k p = do found ← eat k; if found then p else pure []

  unfoldable pub concat : List (List A) → List A
  concat [] = []
  concat (xs ∷ rest) = xs ++ concat rest

module _ {A B : Type 0} where
  unfoldable pub lefts : List (A ⊎ B) → List A
  lefts [] = []
  lefts (inl a ∷ rest) = a ∷ lefts rest
  lefts (inr b ∷ rest) = lefts rest

  unfoldable pub rights : List (A ⊎ B) → List B
  rights [] = []
  rights (inl a ∷ rest) = rights rest
  rights (inr b ∷ rest) = b ∷ rights rest

-- `(TokKind::Ident(_), TokKind::Eq)`.
abbrev pub binds : TokKind → TokKind → Bool
binds (ident _) eq = true
binds _ _ = false

-- `(TokKind::Ident(_), TokKind::Has)`.
abbrev pub claims : TokKind → TokKind → Bool
claims (ident _) has_kw = true
claims _ _ = false

-- `out`, `defaults` and `bounds`.
pub record TypeParams : Type 0 where
  pub names : List Bytes
  pub defaults : List (Option TypeExpr)
  pub bounds : List WhereClause

module _ (typ : P TypeExpr) where
  -- `Name = Type`, or a type.
  unfoldable pub bound_arg : P ((Bytes × TypeExpr) ⊎ TypeExpr)
  bound_arg = do
    first ← peek
    second ← peek_at 1
    if binds first second
        then (do
          name ← expect_ident "assoc-type name"
          expect eq "`=`"
          ty ← typ
          pure (inl (name.0, ty)))
        else (do ty ← typ; pure (inr ty))

  -- `<…>` behind a trait.
  unfoldable pub bound_args : P (List ((Bytes × TypeExpr) ⊎ TypeExpr))
  unfolding separated list_behind bound_arg
  bound_args =
      list_behind lt (do args ← fueled (separated comma bound_arg); expect gt "`>`"; pure args)

  -- A trait with its arguments, behind the arguments `first`.
  unfoldable pub clause : String → List TypeExpr → Span → P WhereClause
  unfolding bound_args lefts rights
  clause what first start = do
    trait ← expect_ident what
    args ← bound_args
    pure (record {
      trait_name = trait.0;
      args = first ++ rights args;
      assoc_type_bindings = lefts args;
      span = start;
    })

  unfoldable pub param_default : Bool → P (Option TypeExpr)
  param_default allow_defaults = do
    found ← at eq
    if found
        then (if allow_defaults then (do bump; ty ← typ; pure (some ty)) else (do
          span ← peek_span
          fail (message "type-parameter defaults are only allowed on `attr` declarations") span))
        else pure none

  -- A name, its default and its bounds.
  unfoldable pub type_param : Bool → P (Bytes × Option TypeExpr × List WhereClause)
  unfolding clause param_default
  type_param allow_defaults = do
    start ← peek_span
    name ← expect_ident "type parameter"
    bounds ←
        list_behind colon
          (fueled (separated plus (clause "attribute name" (named (name.0) start ∷ []) start)))
    default_ty ← param_default allow_defaults
    pure (name.0, default_ty, bounds)

  unfoldable pub parse_type_params_with_bounds : Bool → P TypeParams
  unfolding type_param concat
  parse_type_params_with_bounds allow_defaults = do
    params ←
        list_behind lt
          (do ps ← fueled (separated comma (type_param allow_defaults)); expect gt "`>`"; pure ps)
    pure (record {
      names = map (λ p. p.0) params;
      defaults = map (λ p. p.1) params;
      bounds = concat (map (λ p. p.2) params);
    })

  unfoldable pub parse_type_params : P (List Bytes)
  unfolding parse_type_params_with_bounds
  parse_type_params = do params ← parse_type_params_with_bounds false; pure (params.names)

  -- `T has Attr`, or `Attr<T>`.
  unfoldable pub where_clause : P WhereClause
  unfolding clause
  where_clause = do
    start ← peek_span
    first ← peek
    second ← peek_at 1
    if claims first second
        then (do
          var ← expect_ident "type parameter"
          expect has_kw "`has`"
          clause "attribute name" (named (var.0) (var.1) ∷ []) start)
        else clause "trait name" [] start

  unfoldable pub parse_where_clauses : P (List WhereClause)
  unfolding where_clause separated list_behind
  parse_where_clauses = list_behind where_kw (fueled (separated comma where_clause))
