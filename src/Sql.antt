-- ===== src/Sql.antt =====
-- The SQL text tools: the regular expressions that the source writes, the analyzer and the lint.
pub mod Regex
pub mod Patterns
pub mod Split
pub mod Analyzer
pub mod Lint
pub mod Tests
