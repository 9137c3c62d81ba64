-- ===== src/Parser.antt =====
-- hw2/parser.c: the incremental parser of the shell's command lines.
pub mod Token
pub mod Lexer
pub mod Line
pub mod Buffer
pub mod Pop
mod Tests
