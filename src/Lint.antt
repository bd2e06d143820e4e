-- ===== src/Lint.antt =====
-- crates/lint/src/lib.rs: the naming conventions, checked on a parsed module.
pub mod Names
pub mod Walk
pub mod Style
pub mod Sites
pub mod Conforms
pub mod Exact
pub mod Locate
pub mod Anchor
