-- ===== src/Lexer.antt =====
-- `core/src/processes/lexer.cpp`: the tree of modules for the parts of the lexer.
pub mod Token
pub mod State
pub mod Literals
pub mod Scan
pub mod Reading
pub mod LiteralsRead
pub mod NumberRead
pub mod ScanRead
pub mod Tokenize
pub mod Spelling
pub mod LexemesRead
pub mod LexemeRounds
pub mod RoundTrip
mod Tests
