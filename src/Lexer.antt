-- ===== src/Lexer.antt =====
-- The runtime under the generated lexers: include/lexer and src/lexer.
pub mod Utf8
pub mod Input
pub mod Vector
pub mod Matcher
