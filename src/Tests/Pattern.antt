-- ===== src/Tests/Pattern.antt =====
-- Runs of the pattern matching and of Split.
use log_grep.Prelude.{◌≡◌, refl, false, Option, none, some, List, [], ◌∷◌}
use log_grep.Bytes.{at, codes}
use log_grep.Search.QueryType.{align_full}
use log_grep.Pattern.Lcs.{get_lcs_dp_optc, lcs_match}
use log_grep.Pattern.Matrix.{new_matrix, RegMatrix}
use log_grep.Pattern.Match.{Segment, const, var, match_full, MatchRst}
use log_grep.Pattern.Query.{sub_pattern_match}
use log_grep.Text.Split.{split}

lcs_run : get_lcs_dp_optc (at (codes "xabcy")) (at (codes "zzabc")) 5 5 false ≡ lcs_match 3 1 2
unfolding get_lcs_dp_optc
lcs_run = refl

split_run :
    split (codes "a: b") (codes " :") ≡ some (codes "a" ∷ codes ":" ∷ codes " " ∷ codes "b" ∷ [])
unfolding split
split_run = refl

abbrev outcome : Option (MatchRst × RegMatrix) → Option MatchRst
outcome none = none
outcome (some (r, x)) = some r

-- at most two bytes, then "XY", then "Z"
abbrev varied : List Segment
varied =
    var 100 record { fixed = false; tag = 63; len = 2 }
    ∷ const (codes "XY")
    ∷ const (codes "Z")
    ∷ []

varied_run :
    outcome (sub_pattern_match varied (codes "abXYZ") align_full new_matrix) ≡ some match_full
unfolding sub_pattern_match
varied_run = refl

-- two bytes, then "XY", then "Y"
abbrev repeated : List Segment
repeated =
    var 100 record { fixed = false; tag = 63; len = 2 }
    ∷ const (codes "XY")
    ∷ const (codes "Y")
    ∷ []

-- MatchInSubpatVvarWithTail goes on by the length of the constant from where the variable stopped, also
-- when that is short of the constant: in "abcXY" the variable stops behind "ab", "cX" is passed over in
-- place of "XY", and the match is full, which no value of the pattern is.
passed_over :
    outcome (sub_pattern_match repeated (codes "abcXY") align_full new_matrix) ≡ some match_full
unfolding sub_pattern_match
passed_over = refl
