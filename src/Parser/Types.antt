-- ===== src/Parser/Types.antt =====
-- crates/parser/src/lib.rs: module paths and types. A loop or a call that recurs takes fuel.
use maka.Base.{
  ℕ, zero, suc, Bool, true, false, ◌&&◌, List, [], ◌∷◌, Option, none, some, Bytes, codes,
  if◌then◌else◌,
}
use maka.Base.Int.{ℤ}
use maka.Ast.Items.{FuncDecl}
use maka.Ast.Types.{
  Mutness, default, const, mut, TypeExpr, TypeExprs, nil, cons, named, assoc_path, ref, ptr,
  raw_ptr, own_ptr, heap, array, slice, vec, unit, dyn, generic, fn_ptr,
}
use maka.Ctfe.Outcome.{Table}
use maka.Lexer.Token.{
  Span, TokKind, ident, mut_kw, const_kw, alloc_kw, raw_kw, own_kw, dyn_kw, some_kw, constexpr_kw,
  thread_local_kw, unit_kw, colon_colon, lparen, rparen, lbracket, rbracket, comma, dot, underscore,
  plus, star, amp, shr_op, lt, gt,
}
use maka.Parser.State.{
  Build, P, ◌>>=◌, ◌>>◌, pure, fail, no_fuel, attempt, message, expected, peek, peek_at, peek_span,
  bump, at, eat, expect, expect_ident, position, rewind, fold_here,
}

abbrev pub is_ident : TokKind → Bool
is_ident (ident name) = true
is_ident _ = false

-- Behind a component of a path.
unfoldable pub path_rest : ℕ → P (List Bytes)
path_rest zero = no_fuel
path_rest (suc f) = do
  dotted ← at dot
  next ← peek_at 1
  if dotted && is_ident next
      then (do
        bump
        part ← expect_ident "module path component"
        parts ← path_rest f
        pure (part.0 ∷ parts))
      else pure []

unfoldable pub parse_dotted_path : ℕ → P (List Bytes)
unfolding path_rest
parse_dotted_path f = do
  first ← expect_ident "module path component"
  parts ← path_rest f
  pure (first.0 ∷ parts)

unfoldable pub parse_mutness : P Mutness
parse_mutness = do
  _ ← eat thread_local_kw
  is_mut ← eat mut_kw
  if is_mut then pure mut else (do
    is_const ← eat const_kw
    if is_const then pure const else (do
      is_constexpr ← eat constexpr_kw
      if is_constexpr then pure const else pure default))

-- The names between `dyn (` and `)`.
unfoldable pub trait_names : ℕ → P (List Bytes)
trait_names zero = no_fuel
trait_names (suc f) = do
  name ← expect_ident "trait name"
  again ← eat plus
  if again then (do names ← trait_names f; pure (name.0 ∷ names)) else pure (name.0 ∷ [])

-- Behind `dyn`, or behind `some`, which is locked.
unfoldable pub dyn_type : ℕ → Bool → Span → P TypeExpr
unfolding trait_names
dyn_type f locked start = do
  several ← eat lparen
  if several
      then (do traits ← trait_names f; expect rparen "`)`"; pure (dyn traits locked start))
      else (do name ← expect_ident "trait name"; pure (dyn (name.0 ∷ []) locked start))

-- `while self.at(&TokKind::ColonColon) { … }`.
unfoldable pub assoc_segments : ℕ → TypeExpr → P TypeExpr
assoc_segments zero base = no_fuel
assoc_segments (suc f) base = do
  again ← at colon_colon
  if again
      then (do
        bump
        segment ← expect_ident "associated-type name"
        assoc_segments f (assoc_path base (segment.0) (segment.1)))
      else pure base

-- `self.at(&TokKind::Gt) || matches!(self.peek(), TokKind::ShrOp)`.
abbrev pub closes : TokKind → Bool
closes gt = true
closes shr_op = true
closes _ = false

module _ (built : Build) (consts : Table ℤ) (fns : Table FuncDecl) where
  unfoldable mutual
    pub parse_type : ℕ → P TypeExpr
    parse_type zero = no_fuel
    parse_type (suc f) = do
      base ← parse_type_base f
      opened ← at lparen
      if opened
          then (do
            span ← peek_span
            bump
            params ← fn_params f
            expect rparen "`)`"
            pure (fn_ptr base params span))
          else pure base

    pub fn_params : ℕ → P TypeExprs
    fn_params zero = no_fuel
    fn_params (suc f) = do closed ← at rparen; if closed then pure nil else type_list f

    -- Types with a comma between two of them.
    pub type_list : ℕ → P TypeExprs
    type_list zero = no_fuel
    type_list (suc f) = do
      t ← parse_type f
      again ← eat comma
      if again then (do ts ← type_list f; pure (cons t ts)) else pure (cons t nil)

    pub parse_type_base : ℕ → P TypeExpr
    parse_type_base zero = no_fuel
    parse_type_base (suc f) = do
      start ← peek_span
      is_alloc ← at alloc_kw
      if is_alloc
          then fail
              (message "`alloc` is not a type modifier; use `own *T` or `own &T` for owning slots")
              start
          else (do
            is_raw ← eat raw_kw
            if is_raw
                then (do
                  expect star "`*` after `raw`"
                  m ← parse_mutness
                  inner ← parse_type f
                  pure (raw_ptr m inner start))
                else (do
                  is_own ← eat own_kw
                  if is_own then own_type f start else (do
                    is_dyn ← eat dyn_kw
                    if is_dyn then dyn_type f false start else (do
                      is_some ← eat some_kw
                      if is_some
                          then dyn_type f true start
                          else (do kind ← peek; type_on f kind start)))))

    -- Behind `own`.
    pub own_type : ℕ → Span → P TypeExpr
    own_type zero start = no_fuel
    own_type (suc f) start = do
      nullable ← eat star
      if nullable
          then (do m ← parse_mutness; inner ← parse_type f; pure (own_ptr m inner start))
          else (do
            strict ← eat amp
            if strict
                then (do _ ← parse_mutness; inner ← parse_type f; pure (heap inner start))
                else (do span ← peek_span; fail (message "expected `*` or `&` after `own`") span))

    -- `match self.peek() { … }` of `parse_type_base`.
    pub type_on : ℕ → TokKind → Span → P TypeExpr
    type_on zero kind start = no_fuel
    type_on (suc f) amp start = do
      bump
      m ← parse_mutness
      inner ← parse_type f
      pure (ref m inner start)
    type_on (suc f) star start = do
      bump
      m ← parse_mutness
      inner ← parse_type f
      pure (ptr m inner start)
    type_on (suc f) lbracket start = bump >> bracket_type f start
    type_on (suc f) lparen start = do bump; expect rparen "`)`"; pure (unit start)
    type_on (suc f) unit_kw start = bump >> pure (named (codes "unit") start)
    type_on (suc f) underscore start = bump >> assoc_segments f (named (codes "_") start)
    type_on (suc f) (ident n) start = do
      name ← expect_ident "type name"
      generics ← at lt
      if generics
          then (do head ← generic_type f (name.0) (name.1); assoc_segments f head)
          else assoc_segments f (named (name.0) (name.1))
    type_on (suc f) other start = do span ← peek_span; fail (expected "type" other) span

    -- Behind `[`.
    pub bracket_type : ℕ → Span → P TypeExpr
    bracket_type zero start = no_fuel
    bracket_type (suc f) start = do
      is_slice ← eat rbracket
      if is_slice
          then (do
            is_mut ← eat mut_kw
            if is_mut
                then (do elem ← parse_type f; pure (slice mut elem start))
                else (do elem ← parse_type f; pure (slice default elem start)))
          else (do
            is_vec ← eat star
            if is_vec
                then (do expect rbracket "`]`"; elem ← parse_type f; pure (vec elem start))
                else (do
                  span ← peek_span
                  folded ← fold_here built consts fns
                  elim folded as (λ _. P TypeExpr) [
                    | none ↦
                        fail
                          (message
                            "array length must be an integer literal or a `constexpr` expression")
                          span
                    | some n ↦ (do
                      expect rbracket "`]`"
                      elem ← parse_type f
                      pure (array n elem start))
                  ]))

    -- At the `<` behind a name: where the arguments do not close, the name stands alone.
    pub generic_type : ℕ → Bytes → Span → P TypeExpr
    generic_type zero name span = no_fuel
    generic_type (suc f) name span = do
      save ← position
      bump
      args ← generic_args f
      elim args as (λ _. P TypeExpr) [
        | none ↦ (rewind save >> pure (named name span))
        | some ts ↦ (do
          closed ← attempt (expect gt "`>`")
          elim closed as (λ _. P TypeExpr) [
            | none ↦ (rewind save >> pure (named name span))
            | some _ ↦ pure (generic name ts span)
          ])
      ]

    -- The loop behind `<`: none where `ok` is false.
    pub generic_args : ℕ → P (Option TypeExprs)
    generic_args zero = no_fuel
    generic_args (suc f) = do
      first ← attempt (parse_type f)
      elim first as (λ _. P (Option TypeExprs)) [
        | none ↦ pure none
        | some t ↦ (do
          again ← eat comma
          if again
              then (do
                others ← generic_args f
                elim others as (λ _. P (Option TypeExprs)) [
                  | none ↦ pure none
                  | some ts ↦ pure (some (cons t ts))
                ])
              else (do kind ← peek; if closes kind then pure (some (cons t nil)) else pure none))
      ]
