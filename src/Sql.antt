-- ===== src/Sql.antt =====
-- src/sql.rs: the lexer of GoogleSQL text and what the driver computes from it. The modules' own
-- headers say which functions they hold.
pub mod Lexer
pub mod Quote
pub mod Split
pub mod Classify
pub mod Params
