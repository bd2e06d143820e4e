-- ===== src/Fmt.antt =====
-- crates/fmt/src/lib.rs: the layout formatter.
pub mod Scan
pub mod Layout
pub mod Kinds
pub mod Decoding
pub mod Checked
pub mod Guard
pub mod Width
pub mod White
pub mod Ink
