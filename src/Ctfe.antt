-- ===== src/Ctfe.antt =====
-- crates/parser/src/lib.rs: compile-time evaluation of `constexpr` functions.
pub mod Word
pub mod Outcome
pub mod Steps
pub mod Left
pub mod Grows
pub mod Eval
pub mod Fuel
pub mod Budget
pub mod Division
pub mod Fold
pub mod Sums
pub mod Give
pub mod Costs
pub mod Precedence
pub mod Shrinks
pub mod InBounds
