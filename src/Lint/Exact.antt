-- ===== src/Lint/Exact.antt =====
-- crates/lint/src/lib.rs: the findings of a module and the names that the linter looks at.
use maka.Base.{
  List, [], ◌∷◌, ◌++◌, map, ◌≡◌, refl, sym, ◌∙◌, Bytes, Bool-cases, inl, inr, append_assoc,
  append-nil,
}
use maka.Ast.Exprs.{
  Stmt, let_stmt, let_tuple, if_stmt, while_stmt, block_stmt, unsafe, match_stmt, for_range,
  for_each, inline_for, Stmts, no_stmts, stmts, Block, block, OptBlock, no_block, some_block,
  ArmBody, arm_expr, arm_block, MatchArms, no_arms, arms,
}
use maka.Lexer.Token.{Span}
use maka.Lint.Names.{Finding, NameKind, var, check, skip, conforms}
use maka.Lint.Walk.{
  for_each_in, lint_block, lint_stmts, lint_opt_block, lint_arm_body, lint_arms, lint_stmt,
}
use maka.Lint.Style.{Site}
use maka.Lint.Sites.{
  site, block_sites, stmts_sites, opt_block_sites, arm_body_sites, arms_sites, stmt_sites, offends,
  report,
}

report-append : (ss ts : List Site) → report (ss ++ ts) ≡ report ss ++ report ts
report-append [] ts = refl
report-append (s ∷ ss) ts = elim (Bool-cases (offends s)) [
  | inl e ↦ rw (e, report-append ss ts)
  | inr e ↦ rw (e, report-append ss ts)
]

-- A part of the walk pushes the findings of its sites.
record Pushes (f : List Finding → List Finding) (ss : List Site) : Type 0 where
  on : (out : List Finding) → f out ≡ out ++ report ss

Pushes-none : Pushes (λ out. out) []
Pushes-none = record { on = λ out. sym (append-nil out) }

Pushes-check :
    (name : Bytes) (span : Span) (kind : NameKind)
    → Pushes (check name span kind) (site name span kind ∷ [])
unfolding check
Pushes-check name span kind = record {
  on = λ out. elim (Bool-cases (skip name)) [
    | inl e ↦ rw e (sym (append-nil out))
    | inr e ↦ rw e (elim (Bool-cases (conforms kind name)) [
      | inl c ↦ rw c (sym (append-nil out))
      | inr c ↦ rw c refl
    ])
  ];
}

Pushes-then :
    {f g : List Finding → List Finding} {ss ts : List Site}
    → Pushes f ss
    → Pushes g ts
    → Pushes (λ out. g (f out)) (ss ++ ts)
Pushes-then {f} {g} {ss} {ts} p q = record {
  on = λ out.
      q.on (f out) ∙ rw (p.on out, report-append ss ts) (append_assoc out (report ss) (report ts));
}

-- A loop over a vector, where each element has its sites, and where each has one.
module _ {ℓ} {A : Type ℓ} where
  Pushes-map :
      (f : A → List Finding → List Finding) (one : A → Site)
      → ((x : A) → Pushes (f x) (one x ∷ []))
      → (xs : List A) → Pushes (for_each_in f xs) (map one xs)
  Pushes-map f one k [] = Pushes-none
  Pushes-map f one k (x ∷ xs) = Pushes-then (k x) (Pushes-map f one k xs)

mutual
  unfolding lint_block block_sites

  block-Pushes : (b : Block) → Pushes (lint_block b) (block_sites b)
  block-Pushes (block ss _) = stmts-Pushes ss

  stmts-Pushes : (ss : Stmts) → Pushes (lint_stmts ss) (stmts_sites ss)
  stmts-Pushes no_stmts = Pushes-none
  stmts-Pushes (stmts s ss) = Pushes-then (stmt-Pushes s) (stmts-Pushes ss)

  opt_block-Pushes : (b : OptBlock) → Pushes (lint_opt_block b) (opt_block_sites b)
  opt_block-Pushes no_block = Pushes-none
  opt_block-Pushes (some_block b) = block-Pushes b

  arm_body-Pushes : (b : ArmBody) → Pushes (lint_arm_body b) (arm_body_sites b)
  arm_body-Pushes (arm_expr _) = Pushes-none
  arm_body-Pushes (arm_block b) = block-Pushes b

  arms-Pushes : (ms : MatchArms) → Pushes (lint_arms ms) (arms_sites ms)
  arms-Pushes no_arms = Pushes-none
  arms-Pushes (arms _ _ body _ rest) = Pushes-then (arm_body-Pushes body) (arms-Pushes rest)

  stmt-Pushes : (s : Stmt) → Pushes (lint_stmt s) (stmt_sites s)
  stmt-Pushes (let_stmt _ _ name _ _ span) = Pushes-check name span var
  stmt-Pushes (let_tuple names _ span) =
      Pushes-map _ (λ n. site n.1 span var) (λ n. Pushes-check n.1 span var) names
  stmt-Pushes (if_stmt _ t e _) = Pushes-then (block-Pushes t) (opt_block-Pushes e)
  stmt-Pushes (while_stmt _ body _) = block-Pushes body
  stmt-Pushes (for_range _ name _ _ _ body span) =
      Pushes-then (Pushes-check name span var) (block-Pushes body)
  stmt-Pushes (for_each _ name _ body span) =
      Pushes-then (Pushes-check name span var) (block-Pushes body)
  stmt-Pushes (inline_for _ _ body _) = block-Pushes body
  stmt-Pushes (block_stmt b) = block-Pushes b
  stmt-Pushes (unsafe b _) = block-Pushes b
  stmt-Pushes (match_stmt _ ms _) = arms-Pushes ms
  stmt-Pushes _ = Pushes-none
