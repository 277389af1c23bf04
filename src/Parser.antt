-- ===== src/Parser.antt =====
-- `core/src/processes/parser.cpp`: the tree of modules for the parts of the parser.
pub mod State
pub mod TypeInfo
pub mod Types
pub mod Forward
pub mod LoopsForward
pub mod TypesForward
pub mod Start
pub mod TypeSyntax
pub mod Sees
pub mod LoopsRead
pub mod SuffixRead
pub mod Spelled
pub mod TypesRead
mod Tests
