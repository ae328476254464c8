-- ===== src/Search.antt =====
-- Matching of one line, and of all lines of a column: cmdline_loggrep/SearchAlgorithm.cpp.
pub mod QueryType
pub mod Compare
pub mod Scan
pub mod Fixed
pub mod BoyerMoore
pub mod Kmp
pub mod Pushdown
