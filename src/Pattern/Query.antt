-- ===== src/Pattern/Query.antt =====
-- SubPatternMatch of cmdline_loggrep/SearchAlgorithm.cpp, with the search inside of a pattern
-- (SubPatMatch_I_J, MatchInSubPatConst_WithVar).
pub mod Stored
use log_grep.Prelude.{
  ℕ, zero, suc, ◌+◌, ◌-◌, Bool, true, false, not, ◌&&◌, ◌||◌, ◌==◌, ltb, leb, if◌then◌else◌, Option,
  none, some, ◌>>=◌, List, [], ◌∷◌, ◌++◌, length, take, drop,
}
use log_grep.Bytes.{Bytes, at}
use log_grep.Search.QueryType.{QueryType, align_full, align_left, align_right, align_any, align_dic}
use log_grep.Pattern.Lcs.{LcsMatch, get_lcs_dp_optc}
use log_grep.Pattern.Chars.{match_in_subpat_var_forward}
use log_grep.Pattern.Matrix.{RegMatches, RegMatrix, addx, addy, suby, reset_matrix, union_rows}
use log_grep.Pattern.Match.{
  Segment, const, var, SubVarInfo, MatchRst, failed, match_miss, match_full, match_part,
  match_onpat, Answer, give, sub_pat_match_0_j, sub_pat_match_n_i,
}

abbrev pub backwards {ℓ} : {A : Type ℓ} → List A → List A
backwards [] = []
backwards (x ∷ xs) = backwards xs ++ (x ∷ [])

-- `rst > 0`
unfoldable pub is_match : MatchRst → Bool
is_match (failed n) = false
is_match match_miss = false
is_match match_full = true
is_match match_part = true
is_match match_onpat = true

-- the values 0 to 4 of MatchInSubPatConst_WithVar
abbrev pub Within : Type 0
Within = Option (ℕ × RegMatrix)

-- `if(rst > 0) return n`, and 0 behind the tests
abbrev pub if_match : ℕ → MatchRst × RegMatrix → Within
if_match n (r, x) = if is_match r then some (n, x) else some (0, x)

-- `count == souLen`
abbrev pub is_count : ℕ → Option ℕ → Bool
is_count n none = false
is_count n (some count) = count == n

module _ (segs : List Segment) (source : ℕ → ℕ) (sou_len : ℕ) where
  -- the segments right of `cur`, and those left of it
  unfoldable pub to_right : ℕ → RegMatrix → ℕ → Answer
  unfolding sub_pat_match_0_j
  to_right cur x from = sub_pat_match_0_j source sou_len (drop (suc cur) segs) (suc cur) x from

  unfoldable pub to_left : ℕ → ℕ → RegMatrix → Answer
  unfolding sub_pat_match_n_i
  to_left cur len x = sub_pat_match_n_i (backwards (take cur segs)) (cur - 1) source len x

  -- MatchInSubPatConst_WithVar, behind the call of GetLCS_DPoptc
  unfoldable pub with_lcs : ℕ → ℕ → LcsMatch → RegMatrix → Within
  unfolding to_right to_left is_match
  with_lcs cur pat_len lcs x =
      if lcs.len == 0
      then some (0, x)
      else if lcs.len == sou_len
      then some (1, x)
      else if lcs.pos1 == 0 && lcs.pos2 + lcs.len == pat_len
      then (if suc cur == length segs then some (0, x) else (to_right cur x lcs.len >>= if_match 2))
      else if lcs.pos1 + lcs.len == sou_len && lcs.pos2 == 0
      then (if cur == 0 then some (0, x) else (to_left cur (sou_len - lcs.len) x >>= if_match 3))
      else if lcs.len == pat_len
          && not (lcs.pos1 == 0)
          && not (lcs.pos1 + lcs.len == sou_len)
          && not (cur == 0)
          && not (suc cur == length segs)
      then (to_left cur lcs.pos1 x >>= λ (r, x').
          if is_match r
          then (to_right cur x' (lcs.pos1 + lcs.len) >>= if_match 4)
          else some (0, x'))
      else some (0, x)

  unfoldable pub match_in_subpat_const_with_var : ℕ → Bytes → RegMatrix → Within
  unfolding with_lcs get_lcs_dp_optc
  match_in_subpat_const_with_var cur pat x =
      with_lcs cur (length pat) (get_lcs_dp_optc source (at pat) sou_len (length pat) false) x

  -- Is the variable long enough for the query, and does every byte fit?
  unfoldable pub var_holds : SubVarInfo → Bool
  unfolding match_in_subpat_var_forward
  var_holds v =
      if ltb v.len sou_len
      then false
      else is_count sou_len (match_in_subpat_var_forward v.tag v.len source sou_len 0).0

  -- The first loop of SubPatMatch_I_J. The flag says that the function returned MATCH_ONPAT.
  unfoldable pub each_segment : List Segment → ℕ → RegMatrix → Option (Bool × RegMatrix)
  unfolding match_in_subpat_const_with_var var_holds addx addy suby reset_matrix
  each_segment [] i x = some (false, x)
  each_segment (const c ∷ rest) i x = addy x >>= λ x1.
      match_in_subpat_const_with_var i c x1 >>= λ (rst, x2).
      if rst == 1
      then some (true, reset_matrix x2)
      else each_segment rest (suc i) (if rst == 0 then suby x2 else x2)
  each_segment (var name v ∷ rest) i x =
      (if var_holds v then (addy x >>= λ x1. addx x1 i 0 sou_len name) else some x)
      >>= each_segment rest (suc i)

  -- the second part: rows that repeat an earlier one are cleared
  unfoldable pub union_all_rows : RegMatrix → RegMatrix
  unfolding union_rows
  union_all_rows x =
      let (rows, valid) = union_rows [] (backwards x.rows) (length x.rows) in
      record { rows = backwards rows; valid_cnt = valid }

  abbrev pub close : Bool × RegMatrix → Answer
  close (true, x) = give match_onpat x
  close (false, x) = give (if length x.rows == 0 then failed 1 else match_part) (union_all_rows x)

  unfoldable pub sub_pat_match_i_j : RegMatrix → Answer
  unfolding each_segment union_all_rows
  sub_pat_match_i_j x = each_segment segs 0 x >>= close

-- `if(matchRst < 0) Suby` else the ValidCnt
abbrev pub settle : ℕ → MatchRst × RegMatrix → Answer
settle valid (failed n, x) = give (failed n) (suby x)
settle valid (r, x) = give r (record x { valid_cnt = valid })

abbrev pub settle_rows : MatchRst × RegMatrix → Answer
settle_rows (r, x) = settle (length x.rows) (r, x)

-- the cases of SubPatternMatch
unfoldable pub by_type : List Segment → Bytes → QueryType → RegMatrix → Answer
unfolding sub_pat_match_0_j sub_pat_match_n_i sub_pat_match_i_j addy suby
by_type segs s align_full x =
    addy x >>= λ x'. sub_pat_match_0_j (at s) (length s) segs 0 x' 0 >>= settle 1
by_type segs s align_left x =
    addy x >>= λ x'. sub_pat_match_0_j (at s) (length s) segs 0 x' 0 >>= settle_rows
by_type segs s align_right x = addy x >>= λ x'.
    sub_pat_match_n_i (backwards segs) (length segs - 1) (at s) (length s) x' >>= settle_rows
by_type segs s align_any x = sub_pat_match_i_j segs (at s) (length s) x
by_type segs s align_dic x = give match_miss x

unfoldable pub sub_pattern_match : List Segment → Bytes → QueryType → RegMatrix → Answer
unfolding by_type
sub_pattern_match segs s type x = if length s == 0 then give (failed 1) x else by_type segs s type x
