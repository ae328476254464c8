-- ===== src/Template/Node.antt =====
-- class templateNode (compression/template.cpp): a template, its match with a line, its merge with one.
pub mod Fill
pub mod Match
pub mod Merge
pub mod Valid
use log_grep.Prelude.{
  ℕ, zero, suc, ◌+◌, ◌-◌, ◌/◌, ◌%◌, Bool, true, false, not, ◌&&◌, ◌||◌, ◌==◌, ltb, leb,
  if◌then◌else◌, ◌>>=◌, Option, none, some, List, [], ◌∷◌, ◌++◌, map, length, drop,
}
use log_grep.Bytes.{Bytes, at, codes}
use log_grep.Template.{SegTag, text}

-- What strncpy makes a C string of: the bytes in front of the first NUL.
unfoldable pub c_string : Bytes → Bytes
c_string [] = []
c_string (c ∷ s) = let rest = c_string s in if c == 0 then [] else c ∷ rest

-- One place of the arrays `templates` and `templatesTags`; `size` are the bytes that the constructor
-- allocates for the string.
pub record Piece : Type 0 where
  pub template : Bytes
  pub size : ℕ
  pub tag : ℕ

-- `length` is the length of `pieces`, and `varLength` that of `var_index`: the source counts it up
-- wherever it pushes to varIndex, and sets both to nothing in the constructor.
pub record Node : Type 0 where
  pub eid : ℕ
  pub pieces : List Piece
  pub var_index : List ℕ

unfoldable pub piece_of : Bytes → SegTag → Piece
unfolding c_string
piece_of log s = record { template = c_string (text log s); size = suc s.seg_len; tag = s.tag }

-- the constructor
unfoldable pub new_node : ℕ → Bytes → List SegTag → Node
unfolding piece_of
new_node eid log segs = record { eid = eid; pieces = map (piece_of log) segs; var_index = [] }

-- the loop of matchMatch over the inner bytes, `n` of them from `j` on
unfoldable pub same_inner : Bytes → Bytes → ℕ → ℕ → Bool
same_inner temp template j zero = true
same_inner temp template j (suc n) =
    let rest = same_inner temp template (suc j) n in
    if at temp j == at template j then rest else false

-- The static part of matchMatch. A segment has a byte at least, so lastIndex is not negative.
unfoldable pub same_token : Bytes → Bytes → ℕ → Bool
unfolding same_inner
same_token temp template seg_len =
    let last = seg_len - 1 in
    if not (seg_len == length template)
      || (not (at temp last == at template last) || not (at temp 0 == at template 0))
    then false
    else same_inner temp template 1 (last - 1)

-- one round of matchMatch; false where it returns -1
unfoldable pub piece_matches : Bytes → Piece → SegTag → Bool
unfolding same_token
piece_matches log p s =
    if p.tag == 2
    then true
    else if ltb 9 p.tag || ltb 9 s.tag
    then s.tag == p.tag
    else same_token (drop s.start_pos log) p.template s.seg_len

-- The rounds, from the last segment to the first. Places behind the segments are not looked at.
unfoldable pub pieces_match : Bytes → List Piece → List SegTag → Bool
unfolding piece_matches
pieces_match log [] ss = true
pieces_match log (p ∷ ps) [] = true
pieces_match log (p ∷ ps) (s ∷ ss) = pieces_match log ps ss && piece_matches log p s

-- matchMatch; the inner `none` is -1. The outer one is a read behind `templatesTags`: with more segments
-- than places it is the first thing that the loop does.
unfoldable pub match_match : Node → Bytes → List SegTag → Option (Option ℕ)
unfolding pieces_match
match_match node log segs =
    if ltb (length node.pieces) (length segs)
    then none
    else some (if pieces_match log node.pieces segs then some (length segs) else none)

-- strncmp(a, b, n) == 0, of two strings behind which a NUL is read
unfoldable pub strncmp_same : Bytes → Bytes → ℕ → Bool
strncmp_same a b zero = true
strncmp_same [] [] (suc n) = true
strncmp_same [] (d ∷ b) (suc n) = d == 0
strncmp_same (c ∷ a) [] (suc n) = c == 0
strncmp_same (c ∷ a) (d ∷ b) (suc n) = let rest = strncmp_same a b n in c == d && (c == 0 || rest)

-- The loop of parseMatch, with `sim` and `tot_size`. What is returned is the quotient of the two
-- numbers; the early return of 0 is 0 / 1.
unfoldable pub similar_from : Bytes → List Piece → List SegTag → ℕ → ℕ → ℕ × ℕ
unfolding strncmp_same
similar_from log [] segs sim tot = (sim, tot)
similar_from log (p ∷ ps) [] sim tot = (sim, tot)
similar_from log (p ∷ ps) (s ∷ ss) sim tot =
    let equal =
      p.tag == 2
      || (length p.template == s.seg_len
          && strncmp_same (drop s.start_pos log) p.template s.seg_len) in
    let rest = similar_from log ps ss (if equal then suc sim else sim) (suc tot) in
    if ltb 9 s.tag && not (p.tag == s.tag) then (0, 1) else rest

-- parseMatch
unfoldable pub parse_match : Node → Bytes → List SegTag → ℕ × ℕ
unfolding similar_from
parse_match node log segs =
    if not (length segs == length node.pieces)
    then (0, 1)
    else similar_from log node.pieces segs 0 0

-- one round of merge
unfoldable pub differs : Bytes → Piece → SegTag → Bool
unfolding strncmp_same
differs log p s = not (p.tag == 2) && not (strncmp_same (drop s.start_pos log) p.template s.seg_len)

unfoldable pub variable : Piece → Piece
variable p = record p { template = codes "<*>"; tag = 2 }

-- The loop of merge from place `i` on: the places, and what is pushed to varIndex.
unfoldable pub merge_from : Bytes → ℕ → List Piece → List SegTag → List Piece × List ℕ
unfolding differs variable
merge_from log i [] segs = ([], [])
merge_from log i (p ∷ ps) [] = (p ∷ ps, [])
merge_from log i (p ∷ ps) (s ∷ ss) =
    let (pieces, pushed) = merge_from log (suc i) ps ss in
    if differs log p s then (variable p ∷ pieces, i ∷ pushed) else (p ∷ pieces, pushed)

-- Every strcpy of "<*>" and its NUL stays inside of its buffer, and every segment has a place.
unfoldable pub merge_fits : Bytes → List Piece → List SegTag → Bool
unfolding differs
merge_fits log [] [] = true
merge_fits log [] (s ∷ ss) = false
merge_fits log (p ∷ ps) [] = true
merge_fits log (p ∷ ps) (s ∷ ss) = (not (differs log p s) || leb 4 p.size) && merge_fits log ps ss

-- what merge leaves
unfoldable pub merged : Node → Bytes → List SegTag → Node
unfolding merge_from
merged node log segs =
    let (pieces, pushed) = merge_from log 0 node.pieces segs in
    record node { pieces = pieces; var_index = node.var_index ++ pushed }

-- merge; `none` is an access outside of a buffer.
unfoldable pub merge : Node → Bytes → List SegTag → Option Node
unfolding merge_fits merged
merge node log segs = if merge_fits log node.pieces segs then some (merged node log segs) else none

-- The inner loop of output: the first `t`, counted from `t`, at which varIndex has `i`.
unfoldable pub var_of : ℕ → ℕ → List ℕ → Option ℕ
var_of i t [] = none
var_of i t (j ∷ js) = let rest = var_of i (suc t) js in if i == j then some t else rest

-- The loop of output: the places in a row, with a string of its own for each variable.
unfoldable pub fill_from : (ℕ → Option Bytes) → List ℕ → ℕ → List Piece → Option Bytes
unfolding var_of
fill_from value var_index i [] = some []
fill_from value var_index i (p ∷ ps) =
    elim (var_of i 0 var_index) [ none ↦ some p.template | some t ↦ value t ] >>= λ s.
    fill_from value var_index (suc i) ps >>= λ rest. some (s ++ rest)

unfoldable pub fill : (ℕ → Option Bytes) → Node → Option Bytes
unfolding fill_from
fill value node = fill_from value node.var_index 0 node.pieces

-- std::to_string
unfoldable pub decimal_from : ℕ → ℕ → Bytes → Bytes
decimal_from zero n done = done
decimal_from (suc f) n done =
    let rest = decimal_from f (n / 10) ((n % 10 + b'0') ∷ done) in
    if n / 10 == 0 then (n % 10 + b'0') ∷ done else rest

-- output
unfoldable pub output : Node → Option Bytes
unfolding fill decimal_from
output node = fill (λ t. some (codes "<V" ++ (decimal_from (suc t) t [] ++ codes ">"))) node
