-- ===== src/Lint/Walk.antt =====
-- crates/lint/src/lib.rs: `lint_module` and the walk over items and statements.
use maka.Base.{not, List, [], ◌∷◌, Option, none, some, Bytes, bytes_eq, codes, if◌then◌else◌}
use maka.Ast.Exprs.{
  Stmt, let_stmt, let_tuple, if_stmt, while_stmt, block_stmt, unsafe, match_stmt, for_range,
  for_each, inline_for, Stmts, no_stmts, stmts, Block, block, OptBlock, no_block, some_block,
  ArmBody, arm_expr, arm_block, MatchArms, no_arms, arms,
}
use maka.Ast.Items.{
  FuncDecl, FieldDecl, VariantDecl, Item, func, data_item, enum, extern, attr, has, c_include,
  c_block, c_link, constexpr, global, rblock, rdep, Module,
}
use maka.Ast.Types.{Param}
use maka.Lexer.Token.{Span}
use maka.Lint.Names.{Finding, type, variant, fn, var, field, module_kind, const, check}

-- `for x in xs { f(x, out); }`.
abbrev pub for_each_in {ℓ} :
    {A : Type ℓ} → (A → List Finding → List Finding) → List A → List Finding → List Finding
for_each_in f [] out = out
for_each_in f (x ∷ xs) out = for_each_in f xs (f x out)

unfoldable mutual
  pub lint_block : Block → List Finding → List Finding
  lint_block (block ss _) out = lint_stmts ss out

  pub lint_stmts : Stmts → List Finding → List Finding
  lint_stmts no_stmts out = out
  lint_stmts (stmts s ss) out = lint_stmts ss (lint_stmt s out)

  pub lint_opt_block : OptBlock → List Finding → List Finding
  lint_opt_block no_block out = out
  lint_opt_block (some_block b) out = lint_block b out

  pub lint_arm_body : ArmBody → List Finding → List Finding
  lint_arm_body (arm_expr _) out = out
  lint_arm_body (arm_block b) out = lint_block b out

  pub lint_arms : MatchArms → List Finding → List Finding
  lint_arms no_arms out = out
  lint_arms (arms _ _ body _ rest) out = lint_arms rest (lint_arm_body body out)

  pub lint_stmt : Stmt → List Finding → List Finding
  lint_stmt (let_stmt _ _ name _ _ span) out = check name span var out
  lint_stmt (let_tuple names _ span) out = for_each_in (λ n. check n.1 span var) names out
  lint_stmt (if_stmt _ then_block else_block _) out =
      lint_opt_block else_block (lint_block then_block out)
  lint_stmt (while_stmt _ body _) out = lint_block body out
  lint_stmt (for_range _ var_name _ _ _ body span) out =
      lint_block body (check var_name span var out)
  lint_stmt (for_each _ var_name _ body span) out = lint_block body (check var_name span var out)
  lint_stmt (inline_for _ _ body _) out = lint_block body out
  lint_stmt (block_stmt b) out = lint_block b out
  lint_stmt (unsafe b _) out = lint_block b out
  lint_stmt (match_stmt _ ms _) out = lint_arms ms out
  lint_stmt _ out = out

-- A parameter; `self` is skipped.
unfoldable pub lint_param : Param → List Finding → List Finding
lint_param p out = if not (bytes_eq p.name (codes "self")) then check p.name p.span var out else out

unfoldable pub lint_func : FuncDecl → List Finding → List Finding
unfolding lint_param lint_block bytes_eq
lint_func f out = lint_block f.body (for_each_in lint_param f.params (check f.name f.span fn out))

abbrev pub lint_field : FieldDecl → List Finding → List Finding
lint_field f out = check f.name f.span field out

abbrev pub lint_variant : VariantDecl → List Finding → List Finding
lint_variant v out = for_each_in lint_field v.fields (check v.name v.span variant out)

unfoldable pub lint_item : Item → List Finding → List Finding
unfolding lint_func
lint_item (data_item d) out = for_each_in lint_field d.fields (check d.name d.span type out)
lint_item (enum e) out = for_each_in lint_variant e.variants (check e.name e.span type out)
lint_item (attr a) out = for_each_in lint_func a.funcs (check a.name a.span type out)
lint_item (has h) out = for_each_in lint_func h.funcs out
lint_item (func f) out = lint_func f out
lint_item (global g) out = check g.name g.span (if g.is_mut then var else const) out
lint_item (constexpr c) out = check c.name c.span const out
lint_item _ out = out

unfoldable pub item_span : Item → Span
item_span (data_item d) = d.span
item_span (enum e) = e.span
item_span (attr a) = a.span
item_span (has h) = h.span
item_span (func f) = f.span
item_span (global g) = g.span
item_span (constexpr c) = c.span
item_span (extern e) = e.span
item_span (c_include _ s) = s
item_span (c_block _ s) = s
item_span (c_link _ s) = s
item_span (rblock _ s) = s
item_span (rdep _ _ s) = s

-- `Span::dummy`.
abbrev pub dummy : Span
dummy = record { start = 0; end = 0; line = 0; col = 0 }

-- `m.items.first().map(item_span).unwrap_or_else(Span::dummy)`.
unfoldable pub module_span : List Item → Span
unfolding item_span
module_span [] = dummy
module_span (it ∷ items) = item_span it

unfoldable pub lint_path : Option (List Bytes) → Span → List Finding → List Finding
lint_path none span out = out
lint_path (some path) span out = for_each_in (λ seg. check seg span module_kind) path out

unfoldable pub lint_module : Module → List Finding → List Finding
unfolding lint_path lint_item module_span
lint_module m out =
    for_each_in lint_item m.items (lint_path m.module_path (module_span m.items) out)

unfoldable pub lint_module_findings : Module → List Finding
unfolding lint_module
lint_module_findings m = lint_module m []
