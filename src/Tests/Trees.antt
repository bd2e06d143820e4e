-- ===== src/Tests/Trees.antt =====
-- The theorems on syntax trees at concrete types and modules.
use maka.Ast.Closed.{
  has_placeholder, has_placeholder-subst_placeholder_ty, subst_placeholder_ty-closed,
  subst_placeholder_lem,
}
use maka.Ast.Exprs.{block, no_stmts, stmts, let_stmt, lit}
use maka.Ast.Items.{FuncDecl, Module, func}
use maka.Ast.Placeholder.{is_placeholder, subst_placeholder, subst_placeholder_ty}
use maka.Ast.Types.{TypeExpr, named, ptr, vec, unit, mut, default, int, type_span}
use maka.Base.{false, ◌&&◌, [], ◌∷◌, none, ◌≡◌, ◌≢◌, refl, Bytes, bytes_eq, codes, length, arith}
use maka.Base.Int.{pos}
use maka.Lexer.Token.{Span}
use maka.Lint.Anchor.{Anchored, locate-Anchored, locate_loop-ends}
use maka.Lint.Locate.{out_of_fuel, locate, locate_loop}
use maka.Lint.Names.{Finding, check}
use maka.Lint.Walk.{lint_module_findings}

abbrev at : Span
at = record { start = 0; end = 0; line = 1; col = 5 }

abbrev pointer : TypeExpr
pointer = ptr mut (named (codes "_") at) at

abbrev self : TypeExpr
self = vec (named (codes "Self") at) at

has_placeholder-subst_placeholder_ty_example :
    has_placeholder (subst_placeholder_ty self pointer)
    ≡ has_placeholder pointer && has_placeholder self
has_placeholder-subst_placeholder_ty_example = has_placeholder-subst_placeholder_ty self pointer

self-closed : has_placeholder self ≡ false
unfolding has_placeholder bytes_eq
self-closed = refl

subst_placeholder_ty-closed_example : subst_placeholder_ty pointer self ≡ self
subst_placeholder_ty-closed_example = subst_placeholder_ty-closed pointer self self-closed

subst_placeholder_example :
    (has_placeholder (subst_placeholder (codes "Point") pointer)
      ≡ has_placeholder pointer && is_placeholder (codes "Point"))
    × (type_span (subst_placeholder (codes "Point") pointer) ≡ type_span pointer)
subst_placeholder_example = subst_placeholder_lem (codes "Point") pointer

-- `unit BadName() { int BadVar = 1; }`.
abbrev bad_function : FuncDecl
bad_function = record {
  name = codes "BadName";
  type_params = [];
  params = [];
  ret = unit at;
  body =
      block
        (stmts
          (let_stmt default (named (codes "int") at) (codes "BadVar") (lit (int (pos 1)) at) false
            at)
          no_stmts)
        at;
  is_inline = false;
  is_gate = false;
  is_pub = false;
  is_export = false;
  where_clauses = [];
  span = at;
}

abbrev bad_module : Module
bad_module = record {
  items = func bad_function ∷ [];
  module_path = none;
  item_modules = [];
  item_imports = [];
  imports = [];
  has_imports = [];
  item_has_imports = [];
}

bad_module-findings : length (lint_module_findings bad_module) ≡ 2
unfolding lint_module_findings check
bad_module-findings = refl

abbrev line : Bytes
line = codes "int BadVar = 1;"

abbrev bad_var : Finding
bad_var = record { line = 1; col = 1; rule = []; msg = []; name = codes "BadVar" }

locate-Anchored_example : Anchored line bad_var (locate line bad_var)
locate-Anchored_example = locate-Anchored line bad_var

locate_loop-ends_example : locate_loop 16 line (codes "BadVar") 0 ≢ out_of_fuel
locate_loop-ends_example = locate_loop-ends 15 line (codes "BadVar") 0 (omega arith) (omega arith)
