-- ===== src/Template.antt =====
-- The segments of a log line: SegTag of compression/constant.h and the loop of matchFile in
-- compression/main.cpp, which finds them. The children hold the templates made from them.
pub mod Columns
pub mod File
pub mod Node
pub mod Parser
pub mod Segments
use log_grep.Prelude.{
  ℕ, zero, suc, ◌+◌, ◌-◌, Bool, true, false, ◌||◌, ◌==◌, ltb, if◌then◌else◌, List, [], ◌∷◌, ◌++◌,
  take, drop,
}
use log_grep.Bytes.{Bytes}
use log_grep.Tags.{token, is_in}

pub record SegTag : Type 0 where
  pub start_pos : ℕ
  pub seg_len : ℕ
  pub tag : ℕ

-- the bytes a segment stands for in the buffer
abbrev pub text : Bytes → SegTag → Bytes
text log s = take s.seg_len (drop s.start_pos log)

-- strchr(delim, c), which finds the NUL behind the delimiters too
unfoldable pub is_delim : ℕ → Bool
is_delim c = c == 0 || is_in c token

-- The variables of the loop that belong to the line read: segArray up to segSize, segStart and
-- lineStart.
pub record Scan : Type 0 where
  pub segs : List SegTag
  pub seg_start : ℕ
  pub line_start : ℕ

-- The string in front of a delimiter or of the end of the line, when there is one.
unfoldable pub end_token : ℕ → Scan → List SegTag
end_token i s =
    if ltb s.seg_start i
    then s.segs ++ (record { start_pos = s.seg_start; seg_len = i - s.seg_start; tag = 0 } ∷ [])
    else s.segs

-- One round at a byte that does not end the line.
unfoldable pub scan_byte : ℕ → ℕ → Scan → Scan
unfolding end_token
scan_byte i c s =
    if is_delim c
    then record s {
      segs = end_token i s ++ (record { start_pos = i; seg_len = 1; tag = c } ∷ []);
      seg_start = suc i;
    }
    else s

-- What the loop sets behind the end of a line.
unfoldable pub next_line : ℕ → Scan
next_line i = record { segs = []; seg_start = suc i; line_start = suc i }

-- the bytes from `a` up to `b`
abbrev pub slice : Bytes → ℕ → ℕ → Bytes
slice log a b = take (b - a) (drop a log)
