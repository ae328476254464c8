-- ===== src/Pattern/Dic.antt =====
-- DicPatternMatch of cmdline_loggrep/SearchAlgorithm.cpp: a query against the patterns of a column's
-- dictionaries, each of which holds values of one pattern and one length.
pub mod Begins
pub mod Rows
use log_grep.Prelude.{
  ℕ, zero, suc, ◌+◌, ◌-◌, Bool, true, false, not, ◌&&◌, ◌||◌, ◌==◌, ltb, leb, if◌then◌else◌, Option,
  none, some, ◌>>=◌, List, [], ◌∷◌, length, take, drop,
}
use log_grep.Bytes.{Bytes, at}
use log_grep.Search.QueryType.{QueryType, align_full, align_left, align_right, align_any, align_dic}
use log_grep.Pattern.Lcs.{LcsMatch, get_lcs_dp_optc}
use log_grep.Pattern.Chars.{
  ConstRst, miss, both_end, only_sou_end, only_pat_end, VvarRst, counted, no_const, no_var,
  match_in_subpat_var_forward, match_in_subpat_var_backward, match_in_subpat_const_forward,
  match_in_subpat_const_backward, match_in_subpat_vvar_with_tail, match_in_subpat_vvar_with_head,
}
use log_grep.Pattern.Matrix.{RegMatrix, addx, addy}
use log_grep.Pattern.Match.{MatchRst, failed, match_miss, match_full, match_part}
use log_grep.Pattern.Query.{is_match, is_count, backwards}

-- segCont and segTag: a constant, or a variable with its stamp, which is above SEG_TYPE_CONST
pub data DicSegment : Type 0 where
  const : Bytes → DicSegment
  var : ℕ → DicSegment

pub record DicVarInfo : Type 0 where
  pub len : ℕ
  pub line_cnt : ℕ
  pub line_sno : ℕ
  pub segs : List DicSegment

-- `pat->len - pat->segSize + 1`. It is not negative: every segment stands for a byte or more.
unfoldable pub var_len : DicVarInfo → ℕ
var_len d = d.len + 1 - length d.segs

-- `if(rst == 0) return -1`, and `if(count < 0) return -n`
abbrev pub past_const : ConstRst → MatchRst → MatchRst
past_const miss go = failed 1
past_const _ go = go

abbrev pub past_var : Option ℕ → ℕ → MatchRst → MatchRst
past_var none n go = failed n
past_var (some count) n go = go

-- What MatchInSubpatVvarWithTail or its kin gave: -2 is a miss, -1 tries the variable alone.
abbrev pub past_both : VvarRst → MatchRst → MatchRst → MatchRst
past_both no_var alone go = failed 2
past_both no_const alone go = alone
past_both (counted count) alone go = go

module _ (source : ℕ → ℕ) (max_len sou_len : ℕ) where
  -- the loop of DicPatMatch_0_J, from the segments at `i` on
  unfoldable pub dic_forward : List DicSegment → ℕ → MatchRst
  unfolding match_in_subpat_var_forward match_in_subpat_const_forward match_in_subpat_vvar_with_tail
  dic_forward [] sou = if leb sou_len sou then match_part else failed 1
  dic_forward (const c ∷ segs) sou =
      let (rst, sou') = match_in_subpat_const_forward c source sou_len sou in
      let go = dic_forward segs sou' in if leb sou_len sou then match_part else past_const rst go
  dic_forward (var tag ∷ const c ∷ segs) sou =
      let (count, sou') = match_in_subpat_var_forward tag max_len source sou_len sou in
      let (both, sou_both) = match_in_subpat_vvar_with_tail tag max_len c source sou_len sou in
      let behind = dic_forward (const c ∷ segs) sou' in
      let behind_both = dic_forward segs sou_both in
      if leb sou_len sou
      then match_part
      else past_both both
          (if ltb max_len (sou_len - sou) then failed 5 else past_var count 3 behind) behind_both
  dic_forward (var tag ∷ segs) sou =
      let (count, sou') = match_in_subpat_var_forward tag max_len source sou_len sou in
      let go = dic_forward segs sou' in
      if leb sou_len sou
      then match_part
      else if ltb max_len (sou_len - sou)
      then failed 5
      else past_var count 3 go

-- the loop of DicPatMatch_N_I, last segment first; `e` is souIndex + 1
unfoldable pub dic_backward : (ℕ → ℕ) → ℕ → List DicSegment → ℕ → MatchRst
unfolding match_in_subpat_var_backward match_in_subpat_const_backward match_in_subpat_vvar_with_head
dic_backward source max_len [] e = if e == 0 then match_part else failed 1
dic_backward source max_len (const c ∷ segs) e =
    let (rst, e') = match_in_subpat_const_backward c source e in
    let go = dic_backward source max_len segs e' in if e == 0 then match_part else past_const rst go
dic_backward source max_len (var tag ∷ const c ∷ segs) e =
    let (count, e') = match_in_subpat_var_backward tag max_len source e in
    let (both, e_both) = match_in_subpat_vvar_with_head tag max_len c source e in
    let before = dic_backward source max_len (const c ∷ segs) e' in
    let before_both = dic_backward source max_len segs e_both in
    if e == 0
    then match_part
    else past_both both (if ltb max_len (e - 1) then failed 5 else past_var count 4 before)
        before_both
dic_backward source max_len (var tag ∷ segs) e =
    let (count, e') = match_in_subpat_var_backward tag max_len source e in
    let go = dic_backward source max_len segs e' in
    if e == 0 then match_part else if ltb max_len (e - 1) then failed 5 else past_var count 3 go

module _ (d : DicVarInfo) (source : ℕ → ℕ) (sou_len : ℕ) where
  unfoldable pub dic_pat_match_0_j : List DicSegment → ℕ → MatchRst
  unfolding dic_forward var_len
  dic_pat_match_0_j segs deft = dic_forward source (var_len d) sou_len segs deft

  unfoldable pub dic_pat_match_n_i : List DicSegment → ℕ → MatchRst
  unfolding dic_backward var_len
  dic_pat_match_n_i segs len = dic_backward source (var_len d) segs len

  -- MatchInDicPatConst_WithVar on the constant at `cur`, behind the call of GetLCS_DPoptc
  unfoldable pub dic_with_lcs : ℕ → ℕ → LcsMatch → ℕ
  unfolding dic_pat_match_0_j dic_pat_match_n_i is_match
  dic_with_lcs cur pat_len lcs =
      let right = is_match (dic_pat_match_0_j (drop (suc cur) d.segs) (lcs.pos1 + lcs.len)) in
      let left = is_match (dic_pat_match_n_i (backwards (take cur d.segs)) lcs.pos1) in
      let first = cur == 0 in
      let last = suc cur == length d.segs in
      if lcs.len == 0
      then 0
      else if lcs.len == sou_len
      then 1
      else if lcs.pos1 == 0 && lcs.pos2 + lcs.len == pat_len
      then (if not last && right then 2 else 0)
      else if lcs.pos1 + lcs.len == sou_len && lcs.pos2 == 0
      then (if not first && left then 3 else 0)
      else if lcs.len == pat_len
          && not (lcs.pos1 == 0)
          && not (lcs.pos1 + lcs.len == sou_len)
          && not first
          && not last
          && left
          && right
      then 4
      else 0

  unfoldable pub match_in_dic_pat_const_with_var : ℕ → Bytes → ℕ
  unfolding dic_with_lcs get_lcs_dp_optc
  match_in_dic_pat_const_with_var cur pat =
      dic_with_lcs cur (length pat) (get_lcs_dp_optc source (at pat) sou_len (length pat) false)

  -- the loop of DicPatMatch_I_J
  unfoldable pub dic_within : List DicSegment → ℕ → MatchRst
  unfolding match_in_dic_pat_const_with_var match_in_subpat_var_forward var_len
  dic_within [] i = failed 1
  dic_within (const c ∷ segs) i =
      let rest = dic_within segs (suc i) in
      if ltb 1 (match_in_dic_pat_const_with_var i c) then match_part else rest
  dic_within (var tag ∷ segs) i =
      let rest = dic_within segs (suc i) in
      if ltb (var_len d) sou_len
      then rest
      else if is_count sou_len (match_in_subpat_var_forward tag (var_len d) source sou_len 0).0
      then match_full
      else rest

  -- the switch of DicPatternMatch
  unfoldable pub dic_match : QueryType → MatchRst
  unfolding dic_pat_match_0_j dic_pat_match_n_i dic_within
  dic_match align_full = dic_pat_match_0_j d.segs 0
  dic_match align_left = dic_pat_match_0_j d.segs 0
  dic_match align_right = dic_pat_match_n_i (backwards d.segs) sou_len
  dic_match align_any = dic_within d.segs 0
  dic_match align_dic = match_miss

-- The loop over the dictionaries: a row for each one that matches.
unfoldable pub each_dic : List DicVarInfo → Bytes → QueryType → RegMatrix → Option RegMatrix
unfolding dic_match is_match addx addy
each_dic [] s type x = some x
each_dic (d ∷ ds) s type x =
    (if ltb d.len (length s) || not (is_match (dic_match d (at s) (length s) type))
      then some x
      else addy x >>= λ x'. addx x' d.len d.line_sno d.line_cnt 0)
    >>= each_dic ds s type

-- DicPatternMatch: -1 for the empty query, or the number of rows
unfoldable pub dic_pattern_match :
    List DicVarInfo → Bytes → QueryType → RegMatrix → Option (Option ℕ × RegMatrix)
unfolding each_dic
dic_pattern_match ds s type x =
    if length s == 0
    then some (none, x)
    else each_dic ds s type x >>= λ x'. some (some (length x'.rows), x')
