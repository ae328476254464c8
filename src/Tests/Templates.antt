-- ===== src/Tests/Templates.antt =====
-- The results on templates and on the passes over a file, at an input.
use log_grep.Prelude.{
  ℕ, ◌*◌, ◌≤◌, ◌≡◌, ◌↔◌, refl, inl, inr, ◌<◌, Bool, true, false, Option, ◌&&◌, ltb, none, some,
  List, [], ◌∷◌, ◌++◌, length, arith,
}
use log_grep.Bytes.{Bytes, codes}
use log_grep.Template.{SegTag, is_delim}
use log_grep.Template.Segments.{AreSegments}
use log_grep.Template.Node.{
  Node, new_node, strncmp_same, merged, merge, match_match, parse_match, output,
}
use log_grep.Template.Node.Match.{PrefixFits, match_match_iff}
use log_grep.Template.Node.Merge.{NoNul, NoNuls, AreComparable, AreRoomy, merge-kept, merge-own}
use log_grep.Template.Columns.{VarArray, IsArray, add, add-IsArray, var_name}
use log_grep.Template.Columns.Names.{var_name-distinct}
use log_grep.Template.Parser.{Parser, new_parser, parse_template, search_template}
use log_grep.Template.Parser.Valid.{all_nodes, AllNodes, IsParser}
use log_grep.Template.Parser.Learn.{new_parser-IsParser, parse_template-IsParser}
use log_grep.Template.Parser.Found.{IsFound, search_template-IsFound}
use log_grep.Template.File.{Sampling, Matched, sample, variable_mapping, match_file}
use log_grep.Template.File.Restore.{restore_lines}
use log_grep.Template.File.Whole.{ended_lines}
use log_grep.Template.File.Sampled.{proc-restore_lines}

-- the comparison with a threshold of one half
abbrev above_half : ℕ → ℕ → Bool
above_half sim tot = ltb tot (2 * sim)

-- The first line is no sample, the next three are.
abbrev first_three : ℕ → Bool
first_three n = ltb n 3

abbrev four_lines : Bytes
four_lines =
    codes "a 101" ++ (10 ∷ codes "a 102" ++ (10 ∷ codes "b=c" ++ (10 ∷ codes "a 103" ++ (10 ∷ []))))

all_bytes : Bytes → Bool
all_bytes [] = true
all_bytes (c ∷ s) = ltb 0 c && all_bytes s

all_bytes_sound : (s : Bytes) → all_bytes s ≡ true → NoNul s
unfolding all_bytes
all_bytes_sound [] h = tt
all_bytes_sound (c ∷ s) h = (λ e. absurd (ground arith), all_bytes_sound s (ground arith))

four_lines-NoNul : NoNul four_lines
unfolding all_bytes
four_lines-NoNul = all_bytes_sound four_lines refl

abbrev or_nothing : Option Sampling → Sampling
or_nothing none = record {
  parser = new_parser;
  scan = record { segs = []; seg_start = 0; line_start = 0 };
  sampled = false;
  now_line = 0;
}
or_nothing (some s) = s

abbrev learned : Sampling
learned = or_nothing (sample above_half first_three four_lines)

four_lines_sampled : sample above_half first_three four_lines ≡ some learned
unfolding sample parse_template new_parser is_delim parse_match new_node merge
four_lines_sampled = refl

four_lines_narrow : AllNodes (λ node. length node.var_index ≤ 256) (all_nodes learned.parser.pool)
unfolding sample parse_template new_parser is_delim parse_match new_node merge
four_lines_narrow = (omega arith, (omega arith, tt))

four_lines_few : learned.parser.now_eid ≤ 65536
unfolding sample parse_template new_parser is_delim parse_match new_node merge
four_lines_few = omega arith

lines_back :
    ended_lines [] four_lines ≡ codes "a 101" ∷ codes "a 102" ∷ codes "b=c" ∷ codes "a 103" ∷ []
unfolding ended_lines
lines_back = refl

proc-restore_lines_example :
    (m : Matched) × (match_file learned.now_line learned.parser
        (variable_mapping learned.parser)
        four_lines
      ≡ some m)
    × (restore_lines four_lines (all_nodes learned.parser.pool) m.vars m.failed_log m.eids
        ≡ some (ended_lines [] four_lines))
proc-restore_lines_example =
    proc-restore_lines above_half first_three four_lines learned four_lines_sampled four_lines-NoNul
      (omega arith) (omega arith) four_lines_few four_lines_narrow

-- "a 107" and "a 108" in one buffer, and their segments
abbrev two_lines : Bytes
two_lines = codes "a 107" ++ (10 ∷ codes "a 108")

abbrev segment : ℕ → ℕ → ℕ → SegTag
segment start len tag = record { start_pos = start; seg_len = len; tag = tag }

abbrev line_a7 : List SegTag
line_a7 = segment 0 1 0 ∷ segment 1 1 32 ∷ segment 2 3 0 ∷ []

abbrev line_a8 : List SegTag
line_a8 = segment 6 1 0 ∷ segment 7 1 32 ∷ segment 8 3 0 ∷ []

line_a7-AreSegments : AreSegments two_lines line_a7
line_a7-AreSegments = (
  record { filled = omega arith; inside = omega arith; tagged = inl refl },
  (
    record { filled = omega arith; inside = omega arith; tagged = inr (omega arith, refl) },
    (record { filled = omega arith; inside = omega arith; tagged = inl refl }, tt),
  ),
)

line_a8-AreSegments : AreSegments two_lines line_a8
line_a8-AreSegments = (
  record { filled = omega arith; inside = omega arith; tagged = inl refl },
  (
    record { filled = omega arith; inside = omega arith; tagged = inr (omega arith, refl) },
    (record { filled = omega arith; inside = omega arith; tagged = inl refl }, tt),
  ),
)

line_a8-NoNuls : NoNuls two_lines line_a8
unfolding all_bytes
line_a8-NoNuls = (
  all_bytes_sound (codes "a") refl,
  (all_bytes_sound (codes " ") refl, (all_bytes_sound (codes "108") refl, tt)),
)

abbrev node_a7 : Node
unfolding new_node
node_a7 = new_node 1 two_lines line_a7

a7_not_a8 : match_match node_a7 two_lines line_a8 ≡ some none
unfolding match_match new_node
a7_not_a8 = refl

-- A line with more segments than the template has places.
abbrev node_empty : Node
unfolding new_node
node_empty = new_node 1 two_lines []

match_match_over : match_match node_empty two_lines line_a7 ≡ none
unfolding match_match new_node
match_match_over = refl

match_match_iff_example :
    ((match_match node_a7 two_lines line_a8 ≡ none) ↔ (length node_a7.pieces < length line_a8))
    × ((match_match node_a7 two_lines line_a8 ≡ some (some (length line_a8)))
        ↔ PrefixFits two_lines node_a7.pieces line_a8)
match_match_iff_example = match_match_iff node_a7 two_lines line_a8 line_a8-AreSegments

a7_matches : match_match node_a7 two_lines line_a7 ≡ some (some 3)
unfolding match_match new_node
a7_matches = refl

abbrev merged_a7 : Node
unfolding merged new_node
merged_a7 = merged node_a7 two_lines line_a8

a7_merges : merge node_a7 two_lines line_a8 ≡ some merged_a7
unfolding merge merged new_node
a7_merges = refl

merge-kept_example : match_match merged_a7 two_lines line_a7 ≡ some (some 3)
merge-kept_example =
    merge-kept node_a7 merged_a7 two_lines two_lines line_a8 line_a7 a7_merges line_a7-AreSegments
      a7_matches

a7_comparable : AreComparable node_a7.pieces line_a8
unfolding new_node
a7_comparable =
    (inr (inl refl, omega arith), (inr (inl refl, omega arith), (inr (inl refl, omega arith), tt)))

a7_roomy : AreRoomy two_lines node_a7.pieces line_a8
unfolding new_node strncmp_same
a7_roomy = (inr (inl refl), (inr (inl refl), (inr (inr (omega arith)), tt)))

merge-own_example :
    (node' : Node) × (merge node_a7 two_lines line_a8 ≡ some node')
    × (match_match node' two_lines line_a8 ≡ some (some 3))
merge-own_example =
    merge-own node_a7 two_lines line_a8 line_a8-AreSegments line_a8-NoNuls a7_comparable a7_roomy

-- A token of one byte has no room for "<*>".
merge_overflow :
    merge (new_node 1 (codes "a") (segment 0 1 0 ∷ [])) (codes "b") (segment 0 1 0 ∷ []) ≡ none
unfolding merge new_node
merge_overflow = refl

-- A token of the line that the template's token begins with: the place is not made a variable.
prefix_kept :
    match_match
      (merged (new_node 1 (codes "ab") (segment 0 2 0 ∷ [])) (codes "a") (segment 0 1 0 ∷ []))
      (codes "a")
      (segment 0 1 0 ∷ [])
    ≡ some none
unfolding match_match merged new_node
prefix_kept = refl

merged_output : output merged_a7 ≡ some (codes "a <V0>")
unfolding output merged new_node
merged_output = refl

abbrev full_array : VarArray
full_array = record { tag = 65536; cells = (0, 1) ∷ []; totsize = 1 }

add-IsArray_example :
    (b : VarArray) × (add full_array 4 2 ≡ some b)
    × (b.cells ≡ full_array.cells ++ ((4, 2) ∷ []))
    × IsArray b
add-IsArray_example =
    add-IsArray full_array 4 2 (record { roomy = omega arith; bounded = omega arith })

abbrev eid_three : ℕ
eid_three = 3

abbrev last_variable : ℕ
last_variable = 255

same_name : var_name eid_three last_variable ≡ var_name 3 255
same_name = refl

var_name-distinct_example : (eid_three ≡ 3) × (last_variable ≡ 255)
var_name-distinct_example =
    var_name-distinct eid_three last_variable 3 255 (omega arith) (omega arith) (omega arith)
      (omega arith) same_name

-- The variable past the last name takes the name of the first one.
names_meet : var_name 1 256 ≡ var_name 1 0
unfolding var_name
names_meet = refl

-- The template of 65537 takes the names of that of 1.
names_wrap : var_name 65537 0 ≡ var_name 1 0
unfolding var_name
names_wrap = refl

abbrev learned_a7 : Parser
unfolding new_node
learned_a7 = record { now_eid = 2; pool = (3, node_a7 ∷ []) ∷ []; tc = []; stc = (1, 1) ∷ [] }

a7_parsed : parse_template above_half new_parser two_lines line_a7 ≡ some (learned_a7, 1)
unfolding parse_template new_parser new_node
a7_parsed = refl

parse_template-IsParser_example : IsParser learned_a7
parse_template-IsParser_example =
    parse_template-IsParser above_half new_parser learned_a7 two_lines line_a7 1 line_a7-AreSegments
      new_parser-IsParser a7_parsed

abbrev parser_a7 : Parser
parser_a7 = record { now_eid = 2; pool = (3, node_a7 ∷ []) ∷ []; tc = []; stc = (1, 1) ∷ [] }

abbrev counted_a7 : Parser
counted_a7 = record {
  now_eid = 2;
  pool = (3, node_a7 ∷ []) ∷ [];
  tc = (1, 1) ∷ [];
  stc = (1, 1) ∷ [];
}

a7_found : search_template parser_a7 two_lines line_a7 [] true ≡ some (counted_a7, ([], some 1))
unfolding search_template new_node
a7_found = refl

search_template-IsFound_example : IsFound two_lines line_a7 parser_a7 counted_a7 (some 1)
search_template-IsFound_example =
    search_template-IsFound parser_a7 counted_a7 two_lines line_a7 [] [] true (some 1) a7_found
