-- ===== src/Parser/Funcs.antt =====
-- crates/parser/src/lib.rs: functions and the methods of an attribute.
use Prim.Native.String.{String}
use maka.Base.{ℕ, zero, suc, Bool, true, false, List, [], ◌++◌, Bytes, if◌then◌else◌}
use maka.Ast.Exprs.{Block, block, no_stmts}
use maka.Ast.Items.{FuncDecl}
use maka.Ast.Types.{TypeExpr, Param, WhereClause}
use maka.Lexer.Token.{
  Span, inline_kw, gate_kw, export_kw, constexpr_kw, lparen, rparen, comma, semicolon,
}
use maka.Parser.Bounds.{separated, parse_type_params_with_bounds, parse_where_clauses}
use maka.Parser.Fueled.{fueled}
use maka.Parser.State.{P, ◌>>=◌, ◌>>◌, pure, no_fuel, peek_span, at, eat, expect, expect_ident}

-- The keywords before a function: `is_inline`, `is_gate` and `is_export`.
unfoldable pub func_modifiers : ℕ → Bool × Bool × Bool → P (Bool × Bool × Bool)
func_modifiers zero flags = no_fuel
func_modifiers (suc f) flags = do
  is_inline ← eat inline_kw
  if is_inline then func_modifiers f (true, flags.1, flags.2) else (do
    is_gate ← eat gate_kw
    if is_gate then func_modifiers f (flags.0, true, flags.2) else (do
      is_export ← eat export_kw
      if is_export then func_modifiers f (flags.0, flags.1, true) else (do
        is_constexpr ← eat constexpr_kw
        if is_constexpr then func_modifiers f flags else pure flags)))

-- `is_inline` and `is_gate`.
unfoldable pub method_modifiers : ℕ → Bool × Bool → P (Bool × Bool)
method_modifiers zero flags = no_fuel
method_modifiers (suc f) flags = do
  is_inline ← eat inline_kw
  if is_inline then method_modifiers f (true, flags.1) else (do
    is_gate ← eat gate_kw
    if is_gate then method_modifiers f (flags.0, true) else pure flags)

-- What is before the body.
pub record Signature : Type 0 where
  pub name : Bytes
  pub type_params : List Bytes
  pub params : List Param
  pub ret : TypeExpr
  pub where_clauses : List WhereClause

module _ (typ : P TypeExpr) where
  unfoldable pub param : P Param
  param = do
    start ← peek_span
    ty ← typ
    name ← expect_ident "parameter name"
    pure (record { name = name.0; ty = ty; span = start })

  unfoldable pub func_params : P (List Param)
  unfolding param separated
  func_params = do
    expect lparen "`(`"
    closed ← at rparen
    if closed
        then (expect rparen "`)`" >> pure [])
        else (do ps ← fueled (separated comma param); expect rparen "`)`"; pure ps)

  unfoldable pub signature : String → P Signature
  unfolding func_params parse_type_params_with_bounds parse_where_clauses
  signature what = do
    ret ← typ
    name ← expect_ident what
    type_params ← parse_type_params_with_bounds typ false
    params ← func_params
    clauses ← parse_where_clauses typ
    pure (record {
      name = name.0;
      type_params = type_params.names;
      params = params;
      ret = ret;
      where_clauses = clauses ++ type_params.bounds;
    })

abbrev pub func_decl : Bool × Bool × Bool → Signature → Block → Span → FuncDecl
func_decl flags sig body start = record {
  name = sig.name;
  type_params = sig.type_params;
  params = sig.params;
  ret = sig.ret;
  body = body;
  is_inline = flags.0;
  is_gate = flags.1;
  is_pub = false;
  is_export = flags.2;
  where_clauses = sig.where_clauses;
  span = start;
}

module _ (typ : P TypeExpr) (block_p : P Block) where
  unfoldable pub parse_func : P FuncDecl
  unfolding func_modifiers signature
  parse_func = do
    start ← peek_span
    flags ← fueled (λ f. func_modifiers f (false, false, false))
    sig ← signature typ "function name"
    body ← block_p
    pure (func_decl flags sig body start)

  -- Without a default body the block is empty.
  unfoldable pub parse_attr_method : P FuncDecl
  unfolding method_modifiers signature
  parse_attr_method = do
    start ← peek_span
    flags ← fueled (λ f. method_modifiers f (false, false))
    sig ← signature typ "method name"
    declared ← eat semicolon
    if declared
        then pure (func_decl (flags.0, flags.1, false) sig (block no_stmts start) start)
        else (do body ← block_p; pure (func_decl (flags.0, flags.1, false) sig body start))
