-- ===== src/Lint/Sites.antt =====
-- crates/lint/src/lib.rs: the names of a module that the linter looks at, in source order.
use maka.Base.{
  Bool, not, ◌&&◌, List, [], ◌∷◌, ◌++◌, map, Option, none, some, Bytes, bytes_eq, codes, filter,
  if◌then◌else◌,
}
use maka.Ast.Exprs.{
  Stmt, let_stmt, let_tuple, if_stmt, while_stmt, block_stmt, unsafe, match_stmt, for_range,
  for_each, inline_for, Stmts, no_stmts, stmts, Block, block, OptBlock, no_block, some_block,
  ArmBody, arm_expr, arm_block, MatchArms, no_arms, arms,
}
use maka.Ast.Items.{
  FuncDecl, FieldDecl, VariantDecl, Item, func, data_item, enum, attr, has, constexpr, global,
  Module,
}
use maka.Ast.Types.{Param}
use maka.Lexer.Token.{Span}
use maka.Lint.Names.{
  Finding, NameKind, type, variant, fn, var, field, module_kind, const, skip, conforms, finding,
}
use maka.Lint.Style.{Site}
use maka.Lint.Walk.{module_span}

abbrev pub site : Bytes → Span → NameKind → Site
site name span kind = record { name = name; span = span; kind = kind }

abbrev pub flat_map {ℓ} : {A : Type ℓ} → (A → List Site) → List A → List Site
flat_map f [] = []
flat_map f (x ∷ xs) = f x ++ flat_map f xs

-- The bindings of a block, in source order: the names of the statements that the source visits.
unfoldable mutual
  pub block_sites : Block → List Site
  block_sites (block ss _) = stmts_sites ss

  pub stmts_sites : Stmts → List Site
  stmts_sites no_stmts = []
  stmts_sites (stmts s ss) = stmt_sites s ++ stmts_sites ss

  pub opt_block_sites : OptBlock → List Site
  opt_block_sites no_block = []
  opt_block_sites (some_block b) = block_sites b

  pub arm_body_sites : ArmBody → List Site
  arm_body_sites (arm_expr _) = []
  arm_body_sites (arm_block b) = block_sites b

  pub arms_sites : MatchArms → List Site
  arms_sites no_arms = []
  arms_sites (arms _ _ body _ rest) = arm_body_sites body ++ arms_sites rest

  pub stmt_sites : Stmt → List Site
  stmt_sites (let_stmt _ _ name _ _ span) = site name span var ∷ []
  stmt_sites (let_tuple names _ span) = map (λ n. site n.1 span var) names
  stmt_sites (if_stmt _ then_block else_block _) =
      block_sites then_block ++ opt_block_sites else_block
  stmt_sites (while_stmt _ body _) = block_sites body
  stmt_sites (for_range _ name _ _ _ body span) = site name span var ∷ block_sites body
  stmt_sites (for_each _ name _ body span) = site name span var ∷ block_sites body
  stmt_sites (inline_for _ _ body _) = block_sites body
  stmt_sites (block_stmt b) = block_sites b
  stmt_sites (unsafe b _) = block_sites b
  stmt_sites (match_stmt _ ms _) = arms_sites ms
  stmt_sites _ = []

unfoldable pub param_sites : Param → List Site
param_sites p = if bytes_eq p.name (codes "self") then [] else site p.name p.span var ∷ []

unfoldable pub func_sites : FuncDecl → List Site
unfolding param_sites block_sites bytes_eq
func_sites f = site f.name f.span fn ∷ (flat_map param_sites f.params ++ block_sites f.body)

abbrev pub field_site : FieldDecl → Site
field_site f = site f.name f.span field

abbrev pub variant_sites : VariantDecl → List Site
variant_sites v = site v.name v.span variant ∷ map field_site v.fields

unfoldable pub item_sites : Item → List Site
unfolding func_sites
item_sites (data_item d) = site d.name d.span type ∷ map field_site d.fields
item_sites (enum e) = site e.name e.span type ∷ flat_map variant_sites e.variants
item_sites (attr a) = site a.name a.span type ∷ flat_map func_sites a.funcs
item_sites (has h) = flat_map func_sites h.funcs
item_sites (func f) = func_sites f
item_sites (global g) = site g.name g.span (if g.is_mut then var else const) ∷ []
item_sites (constexpr c) = site c.name c.span const ∷ []
item_sites _ = []

unfoldable pub path_sites : Option (List Bytes) → Span → List Site
path_sites none span = []
path_sites (some path) span = map (λ seg. site seg span module_kind) path

-- The names that the linter looks at, in source order: the segments of the module's path, types with
-- their fields and variants, attributes, functions with their parameters other than `self`, globals
-- and constants, and in the bodies of functions the variables of declarations and of `for` loops. The
-- variable of an `inline for`, the bindings of match patterns, the parameters of lambdas, type
-- parameters and what an `extern` declares are not among them.
unfoldable pub visited : Module → List Site
unfolding path_sites item_sites
visited m = path_sites m.module_path (module_span m.items) ++ flat_map item_sites m.items

-- A name that breaks the convention of its kind; a leading underscore exempts it.
abbrev pub offends : Site → Bool
offends s = not (skip s.name) && not (conforms s.kind s.name)

abbrev pub report : List Site → List Finding
report ss = map (λ s. finding s.name s.span s.kind) (filter offends ss)
