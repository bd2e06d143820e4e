-- ===== src/Hir.antt =====
-- crates/sema/src/hir.rs: resolved types, and the unification of receiver patterns with them.
pub mod Types
pub mod Unify
pub mod Equal
pub mod Instance
pub mod Sound
pub mod Complete
