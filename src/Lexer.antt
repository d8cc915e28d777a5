-- ===== src/Lexer.antt =====
-- crates/lexer: the tokeniser.
pub mod Token
pub mod Table
pub mod Source
pub mod Keywords
pub mod Scan
pub mod Indentation
pub mod Stream
mod Tests
