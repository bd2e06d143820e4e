-- ===== src/Tests.antt =====
-- Runs of the definitions, and the theorems at concrete inputs.
mod Lexing
mod Sources
mod Trees
mod Calls
mod Folds
mod Layouts
mod Receivers
mod Parsing
