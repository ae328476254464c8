-- ===== src/Pattern.antt =====
-- Matching a query against the pattern of a column: the SubPattern part of
-- cmdline_loggrep/SearchAlgorithm.cpp and its result types in cmdline_loggrep/LogStructure.h.
pub mod Lcs
pub mod Matrix
pub mod Chars
pub mod Match
pub mod Query
pub mod Dic
