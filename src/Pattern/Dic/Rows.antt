-- ===== src/Pattern/Dic/Rows.antt =====
-- The rows that DicPatternMatch of cmdline_loggrep/SearchAlgorithm.cpp makes.
use log_grep.Prelude.{
  ◌+◌, ◌≤◌, ◌<◌, ◌≡◌, refl, Bool, true, false, not, ◌&&◌, ◌==◌, ltb, if◌then◌else◌, Bool-cases, inl,
  inr, some, ◌>>=◌, List, [], ◌∷◌, length, arith,
}
use log_grep.Bytes.{Bytes, at}
use log_grep.Search.QueryType.{QueryType}
use log_grep.Pattern.Matrix.{
  RegMatches, RegMatrix, reg_match, addx, addx_rows, add, on_head, addy, max_subattr_cls,
}
use log_grep.Pattern.Query.{is_match}
use log_grep.Pattern.Dic.{DicVarInfo, dic_match, each_dic, dic_pattern_match}

-- The dictionary can hold the query, and its pattern matches.
abbrev pub answers : Bytes → QueryType → DicVarInfo → Bool
answers s type d = not (ltb d.len (length s)) && is_match (dic_match d (at s) (length s) type)

-- the row of a dictionary: its length, its first line and the number of its lines
abbrev pub dic_row : DicVarInfo → RegMatches
dic_row d = record { matches = reg_match d.len d.line_sno d.line_cnt 0 ∷ []; be_valid = true }

-- the rows of those dictionaries that answer, the last one first, on `rows`
abbrev pub dic_rows : Bytes → QueryType → List DicVarInfo → List RegMatches → List RegMatches
dic_rows s type [] rows = rows
dic_rows s type (d ∷ ds) rows =
    dic_rows s type ds (if answers s type d then dic_row d ∷ rows else rows)

add_row :
    (x : RegMatrix) (d : DicVarInfo)
    → length x.rows < 50
    → (addy x >>= λ x'. addx x' d.len d.line_sno d.line_cnt 0)
      ≡ some (record x { rows = dic_row d ∷ x.rows })
unfolding addy addx addx_rows add on_head
add_row x d lt = let room : ltb (length x.rows) max_subattr_cls ≡ true = ground arith in rw room

each_dic-rows :
    (ds : List DicVarInfo) (s : Bytes) (type : QueryType) (x : RegMatrix)
    → length x.rows + length ds ≤ 50
    → each_dic ds s type x ≡ some (record x { rows = dic_rows s type ds x.rows })
unfolding each_dic
each_dic-rows [] s type x le = refl
each_dic-rows (d ∷ ds) s type x le = elim (Bool-cases (ltb d.len (length s))) [
  | inl long ↦ rw (long, each_dic) (each_dic-rows ds s type x (omega arith))
  | inr fits ↦ elim (Bool-cases (is_match (dic_match d (at s) (length s) type))) [
    | inr apart ↦ rw (fits, apart, each_dic) (each_dic-rows ds s type x (omega arith))
    | inl hits ↦
        rw (fits, hits, add_row x d (omega arith), each_dic)
          (each_dic-rows ds s type (record x { rows = dic_row d ∷ x.rows }) (omega arith))
  ]
]

-- For a nonempty query and as many rows and dictionaries as the matrix has room for: every dictionary
-- that can hold the query and whose pattern matches it adds one row, in their order, no other row comes
-- up, and the number of rows is returned.
pub dic_pattern_match-rows :
    (ds : List DicVarInfo) (s : Bytes) (type : QueryType) (x : RegMatrix)
    → 0 < length s
    → length x.rows + length ds ≤ 50
    → dic_pattern_match ds s type x
      ≡ some
          (some (length (dic_rows s type ds x.rows)), record x { rows = dic_rows s type ds x.rows })
unfolding dic_pattern_match
dic_pattern_match-rows ds s type x pos le =
    let some_bytes : (length s == 0) ≡ false = ground arith in
    rw (some_bytes, each_dic-rows ds s type x le)
