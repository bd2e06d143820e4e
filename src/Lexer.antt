-- ===== src/Lexer.antt =====
-- crates/lexer/src/lib.rs: source bytes to tokens.
pub mod Token
pub mod Cursor
pub mod Trivia
pub mod Number
pub mod Literal
pub mod Next
pub mod Position
pub mod Within
pub mod Reads
pub mod Blocks
pub mod Comments
pub mod Numerals
pub mod Reading
pub mod Quoted
pub mod Tiling
pub mod Spans
pub mod Words
pub mod Strings
pub mod Digits
