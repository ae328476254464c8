-- ===== src/Template/File.antt =====
-- The two passes over a log file in compression/main.cpp: the sampling loop of proc, which learns the
-- templates, and matchFile, which sorts every line under one of them.
pub mod Empty
pub mod Ends
pub mod Lines
pub mod Restore
pub mod Room
pub mod Sampled
pub mod Stored
pub mod Whole
use log_grep.Prelude.{
  ℕ, suc, ◌+◌, ◌-◌, ◌*◌, ◌==◌, ltb, leb, Bool, true, false, ◌&&◌, if◌then◌else◌, Option, none, some,
  ◌>>=◌, List, [], ◌∷◌, ◌++◌, length, put,
}
use log_grep.Bytes.{Bytes}
use log_grep.Template.{SegTag, Scan, slice, end_token, scan_byte, next_line}
use log_grep.Template.Node.{Node, c_string}
use log_grep.Template.Columns.{Columns, new_var_array, var_name}
use log_grep.Template.Parser.{Parser, count, new_parser, parse_template, search_template}

pub record Sampling : Type 0 where
  pub parser : Parser
  pub scan : Scan
  pub sampled : Bool
  pub now_line : ℕ

-- the cells of segArray, MAXTOCKEN * 100
abbrev pub seg_capacity : ℕ
seg_capacity = 204800

-- the cells of failed_num and of failed_log, MAXLOG * 2
abbrev pub fail_capacity : ℕ
fail_capacity = 200000

-- What the end of a line leaves in the sampling loop. `draws n` is rand() % sampleRange == 1 at its
-- call `n`.
unfoldable pub end_sample : (ℕ → Bool) → ℕ → Sampling → Parser → Sampling
unfolding next_line
end_sample draws i s parser = record {
  parser = parser;
  scan = next_line i;
  sampled = draws s.now_line;
  now_line = suc s.now_line;
}

-- the end of a line in the sampling loop
unfoldable pub sample_line : (ℕ → ℕ → Bool) → (ℕ → Bool) → Bytes → ℕ → Sampling → Option Sampling
unfolding end_token end_sample
sample_line above draws log i s =
    let segs = end_token i s.scan in
    if s.sampled
    then (if ltb seg_capacity (length segs)
        then none
        else parse_template above s.parser log segs >>= λ (parser, eid).
            some (end_sample draws i s parser))
    else some (end_sample draws i s s.parser)

-- One round of the sampling loop, at the byte `c`. `none` is an access outside of an array.
unfoldable pub sample_byte :
    (ℕ → ℕ → Bool) → (ℕ → Bool) → Bytes → ℕ → ℕ → Sampling → Option Sampling
unfolding sample_line scan_byte
sample_byte above draws log i c s =
    if c == b'\n'
    then sample_line above draws log i s
    else if s.sampled
    then (if ltb seg_capacity (length (scan_byte i c s.scan).segs)
        then none
        else some (record s { scan = scan_byte i c s.scan }))
    else some s

-- the rounds from byte `i` on
unfoldable pub sample_from :
    (ℕ → ℕ → Bool) → (ℕ → Bool) → Bytes → ℕ → Bytes → Sampling → Option Sampling
unfolding sample_byte
sample_from above draws log i [] s = some s
sample_from above draws log i (c ∷ bytes) s =
    sample_byte above draws log i c s >>= sample_from above draws log (suc i) bytes

-- What proc goes on with, from the file's bytes: the parser, and nowLine.
unfoldable pub sample : (ℕ → ℕ → Bool) → (ℕ → Bool) → Bytes → Option Sampling
unfolding sample_from
sample above draws log = sample_from above draws log 0 log (record {
  parser = new_parser;
  scan = record { segs = []; seg_start = 0; line_start = 0 };
  sampled = false;
  now_line = 0;
})

-- The loops of proc that build variable_mapping, with expendTime 400: over the variables of a template,
-- over the templates.
unfoldable pub node_columns : ℕ → ℕ → List ℕ → ℕ → Columns → Columns
unfolding var_name new_var_array
node_columns eid i [] size vars = vars
node_columns eid i (v ∷ var_index) size vars =
    node_columns eid (suc i) var_index size
      (put (var_name eid i) (new_var_array (var_name eid i) size) vars)

unfoldable pub nodes_columns : List (ℕ × ℕ) → List Node → Columns → Columns
unfolding node_columns count
nodes_columns stc [] vars = vars
nodes_columns stc (node ∷ nodes) vars =
    nodes_columns stc nodes (node_columns node.eid 0 node.var_index (count node.eid stc * 400) vars)

unfoldable pub pool_columns : List (ℕ × ℕ) → List (ℕ × List Node) → Columns → Columns
unfolding nodes_columns
pool_columns stc [] vars = vars
pool_columns stc ((k, nodes) ∷ pool) vars = pool_columns stc pool (nodes_columns stc nodes vars)

unfoldable pub variable_mapping : Parser → Columns
unfolding pool_columns
variable_mapping p = pool_columns p.stc p.pool []

-- What matchFile works on. `eids` are the entries of Eid, with `none` for -1; the length of failed_num
-- and failed_log is failLine.
pub record Matched : Type 0 where
  pub parser : Parser
  pub vars : Columns
  pub scan : Scan
  pub eids : List (Option ℕ)
  pub failed_num : List ℕ
  pub failed_log : List Bytes
  pub now_line : ℕ

-- what is kept of a line that no template matches
unfoldable pub fail : Bytes → ℕ → Matched → Matched
fail log i m = record m {
  failed_num = m.failed_num ++ (m.now_line ∷ []);
  failed_log = m.failed_log ++ (c_string (slice log m.scan.line_start i) ∷ []);
}

-- what the end of a line leaves, after the search for it
unfoldable pub end_line : Bytes → ℕ → Matched → Parser → Columns → Option ℕ → Matched
unfolding fail next_line
end_line log i m parser vars eid =
    let m' : Matched = elim eid [ none ↦ fail log i m | some e ↦ m ] in
    record m' {
      parser = parser;
      vars = vars;
      scan = next_line i;
      eids = m.eids ++ (eid ∷ []);
      now_line = suc m.now_line;
    }

-- The writes to Eid, which has `eid_size` cells, to failed_num and to failed_log were inside.
unfoldable pub in_arrays : ℕ → Matched → Bool
in_arrays eid_size m = leb (length m.eids) eid_size && leb (length m.failed_num) fail_capacity

-- the end of a line in matchFile
unfoldable pub match_line : ℕ → Bytes → ℕ → Matched → Option Matched
unfolding end_line in_arrays
match_line eid_size log i m =
    let segs = end_token i m.scan in
    if ltb seg_capacity (length segs)
    then none
    else search_template m.parser log segs m.vars true >>= λ (parser, (vars, eid)).
        let m' = end_line log i m parser vars eid in if in_arrays eid_size m' then some m' else none

-- One round at another byte.
unfoldable pub match_byte : ℕ → ℕ → Matched → Option Matched
unfolding scan_byte
match_byte i c m =
    let scan' = scan_byte i c m.scan in
    if ltb seg_capacity (length scan'.segs) then none else some (record m { scan = scan' })

-- The rounds of matchFile from byte `i` on. `none` is a read or write out of bounds.
unfoldable pub match_from : ℕ → Bytes → ℕ → Bytes → Matched → Option Matched
unfolding match_line match_byte
match_from eid_size log i [] m = some m
match_from eid_size log i (c ∷ bytes) m =
    (if c == b'\n' then match_line eid_size log i m else match_byte i c m)
    >>= match_from eid_size log (suc i) bytes

-- matchFile, with Eid of `eid_size` cells
unfoldable pub match_file : ℕ → Parser → Columns → Bytes → Option Matched
unfolding match_from
match_file eid_size parser vars log = match_from eid_size log 0 log (record {
  parser = parser;
  vars = vars;
  scan = record { segs = []; seg_start = 0; line_start = 0 };
  eids = [];
  failed_num = [];
  failed_log = [];
  now_line = 0;
})
