-- ===== src/BitMap/Clone.antt =====
-- BitMap::CloneFrom of cmdline_loggrep/LogStructure.h.
use log_grep.BitMap.{BitMap}
use log_grep.BitMap.Holds.{Holds}
