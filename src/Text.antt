-- ===== src/Text.antt =====
-- Cutting command lines and patterns into tokens: cmdline_loggrep/CmdDefine.cpp.
pub mod Split
