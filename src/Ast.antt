-- ===== src/Ast.antt =====
-- crates/ast/src/lib.rs: the syntax tree.
pub mod Types
pub mod Exprs
pub mod Items
pub mod Placeholder
pub mod Closed
