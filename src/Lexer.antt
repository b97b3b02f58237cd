-- ===== src/Lexer.antt =====
-- src/judo_scan.c: the primitive JSON tokens, up to `peek`.
pub mod Failure
pub mod Number
pub mod Quoted
pub mod Word
pub mod Space
pub mod Peek
