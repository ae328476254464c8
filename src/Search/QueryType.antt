-- ===== src/Search/QueryType.antt =====
-- QTYPE_ALIGN_FULL, _LEFT, _RIGHT and _ANY of cmdline_loggrep/LogStructure.h.

-- `align_dic` stands for every other value of the `int`.
pub data QueryType : Type 0 where
  align_full align_left align_right align_any align_dic : QueryType
