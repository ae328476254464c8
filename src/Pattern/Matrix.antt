-- ===== src/Pattern/Matrix.antt =====
-- RegMatch, RegMatches and RegMatrix of cmdline_loggrep/LogStructure.h: where the variables of a
-- pattern stand in a query. A row is one way to read the query.
use log_grep.Prelude.{
  ℕ, ◌-◌, Bool, true, false, ◌&&◌, ◌==◌, ltb, if◌then◌else◌, Option, none, some, List, [], ◌∷◌,
  ◌++◌, length,
}

pub record RegMatch : Type 0 where
  index : ℕ
  so : ℕ
  eo : ℕ
  vname : ℕ

-- `Match[0 .. Count - 1]`
pub record RegMatches : Type 0 where
  pub matches : List RegMatch
  pub be_valid : Bool

-- `Matches[0 .. Count - 1]`, the last row first. A row that Addy makes is valid: the flags are cleared
-- only when all rows are there.
pub record RegMatrix : Type 0 where
  pub rows : List RegMatches
  pub valid_cnt : ℕ

abbrev pub new_matrix : RegMatrix
new_matrix = record { rows = []; valid_cnt = 0 }

-- MAX_SUBATTR_CNT and MAX_SUBATTR_CLS
abbrev pub max_subattr_cnt : ℕ
max_subattr_cnt = 50

abbrev pub max_subattr_cls : ℕ
max_subattr_cls = 50

-- RegMatches::Add. `none` is a write behind the array.
unfoldable pub add : RegMatch → RegMatches → Option RegMatches
add m r =
    if ltb (length r.matches) max_subattr_cnt
    then some (record r { matches = m ∷ r.matches })
    else none

unfoldable pub on_head : List RegMatches → Option RegMatches → RegMatrix → Option RegMatrix
on_head rest none x = none
on_head rest (some r) x = some (record x { rows = r ∷ rest })

abbrev pub reg_match : ℕ → ℕ → ℕ → ℕ → RegMatch
reg_match index so eo vname = record { index = index; so = so; eo = eo; vname = vname }

-- Addx, to the last row. `none` without a row: `Matches[-1]`.
unfoldable pub addx_rows : RegMatch → List RegMatches → RegMatrix → Option RegMatrix
unfolding add on_head
addx_rows m [] x = none
addx_rows m (r ∷ rs) x = on_head rs (add m r) x

unfoldable pub addx : RegMatrix → ℕ → ℕ → ℕ → ℕ → Option RegMatrix
unfolding addx_rows
addx x index so eo vname = addx_rows (reg_match index so eo vname) x.rows x

-- Addy
unfoldable pub addy : RegMatrix → Option RegMatrix
addy x =
    if ltb (length x.rows) max_subattr_cls
    then some (record x { rows = record { matches = []; be_valid = true } ∷ x.rows })
    else none

abbrev pub tail : List RegMatches → List RegMatches
tail [] = []
tail (r ∷ rs) = rs

-- Suby and Reset
unfoldable pub suby : RegMatrix → RegMatrix
suby x = record x { rows = tail x.rows }

unfoldable pub reset_matrix : RegMatrix → RegMatrix
reset_matrix x = record x { rows = [] }

-- UnionMatchResult, on the matches of the two rows, oldest first: is the first of `obj` in `refobj`?
unfoldable pub same_place : RegMatch → List RegMatch → Bool
same_place m [] = false
same_place m (r ∷ rs) =
    if m.index == r.index && m.so == r.so && m.eo == r.eo then true else same_place m rs

-- the last of a row, which is the oldest, `Match[0]`
unfoldable pub oldest : RegMatch → List RegMatch → RegMatch
oldest m [] = m
oldest m (r ∷ rs) = oldest r rs

unfoldable pub union_match : List RegMatch → List RegMatch → Bool
unfolding same_place oldest
union_match [] ref = true
union_match (m ∷ ms) ref =
    if length (m ∷ ms) == length ref then same_place (oldest m ms) ref else false

unfoldable pub union_match_result : RegMatches → RegMatches → RegMatches × Bool
unfolding union_match
union_match_result obj refobj =
    if union_match obj.matches refobj.matches
    then (record obj { be_valid = false }, true)
    else (obj, false)

-- The loop over `ii`: the rows before `obj`, oldest first. Was `obj` cleared?
unfoldable pub union_before : RegMatches → List RegMatches → RegMatches × Bool
unfolding union_match_result
union_before obj [] = (obj, false)
union_before obj (r ∷ rs) =
    let (obj', ok) = union_match_result obj r in
    let rest = union_before obj rs in if r.be_valid && ok then (obj', true) else rest

-- The loop over `i`: the rows done, oldest first, those left, and ValidCnt.
unfoldable pub union_rows : List RegMatches → List RegMatches → ℕ → List RegMatches × ℕ
unfolding union_before
union_rows done [] valid = ([], valid)
union_rows done (r ∷ rs) valid =
    let (r', ok) = union_before r done in
    let (rest, valid') = union_rows (done ++ (r' ∷ [])) rs (if ok then valid - 1 else valid) in
    (r' ∷ rest, valid')
