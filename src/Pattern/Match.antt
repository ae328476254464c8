-- ===== src/Pattern/Match.antt =====
-- SubPatMatch_0_J and SubPatMatch_N_I of cmdline_loggrep/SearchAlgorithm.cpp: a query against the
-- segments of a pattern, from the left end and from the right end.
pub mod Instance
use log_grep.Prelude.{
  ℕ, zero, suc, ◌+◌, ◌-◌, Bool, true, false, not, ◌&&◌, ◌||◌, ◌==◌, ltb, leb, if◌then◌else◌, Option,
  none, some, ◌>>=◌, List, [], ◌∷◌, length,
}
use log_grep.Bytes.{Bytes}
use log_grep.Pattern.Chars.{
  VvarRst, counted, no_const, no_var, ConstRst, miss, both_end, only_sou_end, only_pat_end,
  match_in_subpat_var_forward, match_in_subpat_var_backward, match_in_subpat_const_forward,
  match_in_subpat_const_backward, match_in_subpat_vvar_with_tail, match_in_subpat_vvar_with_head,
}
use log_grep.Pattern.Matrix.{RegMatrix, addx}

-- SubVarInfo; `fixed` is mark == FIXED_LEN_FLAG.
pub record SubVarInfo : Type 0 where
  pub fixed : Bool
  pub tag : ℕ
  pub len : ℕ

-- SubSegment, SubSegAttr and SubVars: a constant, or a variable with its name, which is above
-- SEG_TYPE_SUBVAR.
pub data Segment : Type 0 where
  const : Bytes → Segment
  var : ℕ → SubVarInfo → Segment

-- The results: `failed n` is the value -n.
pub data MatchRst : Type 0 where
  failed : ℕ → MatchRst
  match_miss match_full match_part match_onpat : MatchRst

-- what comes out, with the rows; `none` is a write outside of the arrays of `regResult`
abbrev pub Answer : Type 0
Answer = Option (MatchRst × RegMatrix)

abbrev pub give : MatchRst → RegMatrix → Answer
give r x = some (r, x)

-- the lines behind the loop, when it stopped at the end of the query, before the last segment
unfoldable pub stopped : RegMatrix → MatchRst
stopped x = if length x.rows == 0 then match_onpat else match_part

-- ... and when all segments were gone through
unfoldable pub went_through : Bool → Bool → MatchRst
went_through at_end be_end =
    if at_end then (if be_end then match_full else match_part) else failed 1

-- `if(rst == 0) return -1; if(rst == 2) beEnd= false`
abbrev pub if_const : ConstRst → RegMatrix → (Bool → Answer) → Answer
if_const miss x k = give (failed 1) x
if_const only_sou_end x k = k false
if_const both_end x k = k true
if_const only_pat_end x k = k true

-- `if(count < 0) return -n`
abbrev pub if_count : Option ℕ → ℕ → RegMatrix → (ℕ → Answer) → Answer
if_count none n x k = give (failed n) x
if_count (some count) n x k = k count

-- A count of MatchInSubpatVvarWithTail: with one, Addx and on behind the constant; without one, the
-- variable alone if the rest is short enough for it.
abbrev pub if_tail : VvarRst → Bool → Answer → (ℕ → Answer) → RegMatrix → Answer
if_tail (counted count) short alone k x = k count
if_tail _ short alone k x = if short then alone else give (failed 3) x

module _ (source : ℕ → ℕ) (sou_len : ℕ) where
  -- The loop over `i`: the segments from there on, souIndex and beEnd.
  unfoldable pub segments_forward : List Segment → ℕ → ℕ → Bool → RegMatrix → Answer
  unfolding stopped went_through addx match_in_subpat_var_forward match_in_subpat_const_forward
      match_in_subpat_vvar_with_tail
  segments_forward [] i sou be_end x = give (went_through (leb sou_len sou) be_end) x
  segments_forward (const c ∷ segs) i sou be_end x =
      let (rst, sou') = match_in_subpat_const_forward c source sou_len sou in
      if leb sou_len sou
      then give (stopped x) x
      else if_const rst x (λ b. segments_forward segs (suc i) sou' (be_end && b) x)
  segments_forward (var name v ∷ const c ∷ segs) i sou be_end x =
      let (count, sou') = match_in_subpat_var_forward v.tag v.len source sou_len sou in
      let (both, sou_both) = match_in_subpat_vvar_with_tail v.tag v.len c source sou_len sou in
      let alone : (ℕ → Bool) → ℕ → Answer = λ b code. if_count count code x (λ n.
        addx x i (sou' - n) n name >>= λ x'.
        segments_forward (const c ∷ segs) (suc i) sou' (be_end && b n) x') in
      if leb sou_len sou
      then give (stopped x) x
      else if v.fixed
      then alone (λ n. leb v.len n) 2
      else if_tail both (leb (sou_len - sou) v.len) (alone (λ n. true) 4)
          (λ n. addx x i (sou_both - n - length c) n name >>= λ x'.
            segments_forward segs (suc (suc i)) sou_both be_end x')
          x
  segments_forward (var name v ∷ segs) i sou be_end x =
      let (count, sou') = match_in_subpat_var_forward v.tag v.len source sou_len sou in
      if leb sou_len sou
      then give (stopped x) x
      else if_count count 2 x (λ n. addx x i (sou' - n) n name >>= λ x'.
          segments_forward segs (suc i) sou' (be_end && (not v.fixed || leb v.len n)) x')

  -- SubPatMatch_0_J, with the segments from sPos on. All calls end with the last segment.
  unfoldable pub sub_pat_match_0_j : List Segment → ℕ → RegMatrix → ℕ → Answer
  unfolding segments_forward
  sub_pat_match_0_j segs s_pos x deft = segments_forward segs s_pos deft true x

-- The loop of SubPatMatch_N_I: the segments from `i` down, last one first, and souIndex + 1.
unfoldable pub segments_backward : (ℕ → ℕ) → List Segment → ℕ → ℕ → Bool → RegMatrix → Answer
unfolding stopped went_through addx match_in_subpat_var_backward match_in_subpat_const_backward
    match_in_subpat_vvar_with_head
segments_backward source [] i e be_end x = give (went_through (e == 0) be_end) x
segments_backward source (const c ∷ segs) i e be_end x =
    let (rst, e') = match_in_subpat_const_backward c source e in
    if e == 0
    then give (stopped x) x
    else if_const rst x (λ b. segments_backward source segs (i - 1) e' (be_end && b) x)
segments_backward source (var name v ∷ const c ∷ segs) i e be_end x =
    let (count, e') = match_in_subpat_var_backward v.tag v.len source e in
    let (both, e_both) = match_in_subpat_vvar_with_head v.tag v.len c source e in
    let alone : (ℕ → Bool) → ℕ → Answer = λ b code. if_count count code x (λ n.
      addx x i e' n name >>= λ x'.
      segments_backward source (const c ∷ segs) (i - 1) e' (be_end && b n) x') in
    if e == 0
    then give (stopped x) x
    else if v.fixed
    then alone (λ n. leb v.len n) 2
    else if_tail both (ltb (e - 1) v.len) (alone (λ n. true) 4)
        (λ n. addx x i (e_both + length c) n name >>= λ x'.
          segments_backward source segs (i - 2) e_both be_end x')
        x
segments_backward source (var name v ∷ segs) i e be_end x =
    let (count, e') = match_in_subpat_var_backward v.tag v.len source e in
    if e == 0
    then give (stopped x) x
    else if_count count 2 x (λ n. addx x i e' n name >>= λ x'.
        segments_backward source segs (i - 1) e' (be_end && (not v.fixed || leb v.len n)) x')

unfoldable pub sub_pat_match_n_i : List Segment → ℕ → (ℕ → ℕ) → ℕ → RegMatrix → Answer
unfolding segments_backward
sub_pat_match_n_i segs s_pos source sou_len x = segments_backward source segs s_pos sou_len true x
