-- ===== src/Search/Fixed.antt =====
-- The searches over a column of lines of one length: BM_Fixed_Align and its cases, BM_Fixed_MutiFul,
-- BM_Fixed_Anypos and BMwildcard_AxB of cmdline_loggrep/SearchAlgorithm.cpp. A search returns the
-- `int` of the source, as an extent, and the bitmap; `none` is a write outside `Index`, or the end of
-- the model's fuel. Patterns are nonempty.
pub mod Exact
pub mod Inside
use log_grep.Prelude.{
  ℕ, zero, suc, ◌+◌, ◌-◌, ◌*◌, ◌/◌, ◌%◌, Bool, true, false, not, ◌&&◌, ◌||◌, ◌==◌, ltb, leb,
  if◌then◌else◌, Option, none, some, ◌>>=◌, List, length,
}
use log_grep.BitMap.{BitMap, Extent, full, entries, get_value, be_size_ful, union_at}
use log_grep.Bytes.{Bytes, at}
use log_grep.Search.Compare.{match_back, matched, hit, max_dicenty_len}
use log_grep.Search.BoyerMoore.{
  build_bad_c, build_good_s, shift, bm_once, Found, found, not_found, no_fuel, fault, bm_search,
}
use log_grep.Search.Scan.{each_line}
use log_grep.Search.QueryType.{QueryType, align_full, align_left, align_right, align_any, align_dic}

-- the outcome of a search
abbrev pub Outcome : Type 0
Outcome = Option (Extent × BitMap)

abbrev pub sized : Option BitMap → Outcome
sized r = r >>= λ b. some (b.size, b)

-- A comparison with DEF_BITMAP_FULL, -99, on the left: the full mark is above no number.
abbrev pub above : Extent → ℕ → Bool
above full n = false
above (entries m) n = ltb n m

abbrev pub at_least : Extent → ℕ → Bool
at_least full n = false
at_least (entries m) n = leb n m

-- `enable`: whether the line has to be looked at
abbrev pub enabled : Bool → BitMap → ℕ → Bool
enabled skip b line = if skip then not (b.bitmap line) else true

module _ (text : ℕ → ℕ) (s_idx t_len : ℕ) where
  unfoldable pub bm_fixed_align_r : Bytes → BitMap → ℕ → Bool → Outcome
  unfolding each_line hit be_size_ful
  bm_fixed_align_r p b line_len skip =
      if be_size_ful b
      then some (full, b)
      else if ltb line_len (length p)
      then some (b.size, b)
      else sized (
          each_line (λ k line b. some (enabled skip b line && hit (at p) text (length p - 1) k))
            t_len line_len (suc t_len) (line_len - 1) s_idx b)

  -- `while(j < tLen && text[j - pLen_1] == ' ') j += ...`, over the blanks before a value
  unfoldable pub skip_blanks : ℕ → List ℕ → List ℕ → ℕ → ℕ → Option ℕ
  unfolding shift
  skip_blanks p_len_1 badc goods zero j = none
  skip_blanks p_len_1 badc goods (suc f) j = elim (ltb j t_len && text (j - p_len_1) == b' ') [
    | true ↦ elim (shift badc goods p_len_1 (text j)) [
      | none ↦ none
      | some w ↦ skip_blanks p_len_1 badc goods f (j + w)
    ]
    | false ↦ some j
  ]

  -- the test of BM_Fixed_AlignL on the line whose search begins at `k`
  unfoldable pub left_test : Bytes → ℕ → ℕ → Option Bool
  unfolding skip_blanks hit build_bad_c build_good_s
  left_test p line_len k =
      let p_len_1 = length p - 1 in
      build_bad_c p >>= λ badc. skip_blanks p_len_1 badc (build_good_s p) (suc t_len) k >>= λ j.
      some (
        ((j - p_len_1) % line_len == 0 || (ltb j t_len && text (j - p_len_1 - 1) == b' '))
        && hit (at p) text p_len_1 j)

  unfoldable pub bm_fixed_align_l : Bytes → BitMap → ℕ → Bool → Outcome
  unfolding each_line left_test be_size_ful
  bm_fixed_align_l p b line_len skip =
      if be_size_ful b
      then some (full, b)
      else if ltb line_len (length p)
      then some (b.size, b)
      else sized (
          each_line (λ k line b. if enabled skip b line then left_test p line_len k else some false)
            t_len line_len (suc t_len) (length p - 1) s_idx b)

  -- The query " " finds the lines that end in a blank. `enableUnionSkip` is not used there.
  unfoldable pub fixed_align_l_for_empty : BitMap → ℕ → Outcome
  unfolding each_line be_size_ful
  fixed_align_l_for_empty b line_len =
      if be_size_ful b
      then some (full, b)
      else sized (
          each_line (λ j line b. some (b' ' == text (j + (line_len - 1)))) t_len line_len
            (suc t_len) 0 s_idx b)

  -- BM_Fixed_Align
  unfoldable pub bm_fixed_align : Bytes → BitMap → ℕ → QueryType → Outcome
  unfolding bm_fixed_align_r bm_fixed_align_l fixed_align_l_for_empty
  bm_fixed_align p b line_len flag =
      let skip = ltb 100 line_len && above b.size 50 in
      let right = bm_fixed_align_r p b line_len skip in
      let left =
        if length p == 1 && at p 0 == b' '
        then fixed_align_l_for_empty b line_len
        else bm_fixed_align_l p b line_len skip in
      elim flag [
        | align_full ↦ right
        | align_right ↦ right
        | align_left ↦ left
        | align_any ↦ left
        | align_dic ↦ left
      ]

  -- `while(1)` of BM_Fixed_Anypos on the line that begins at `k`
  unfoldable pub any_rounds : Bytes → List ℕ → List ℕ → ℕ → ℕ → ℕ → ℕ → Option Bool
  unfolding match_back matched shift
  any_rounds p badc goods line_len k zero j = none
  any_rounds p badc goods line_len k (suc f) j =
      let (i', j') = match_back (at p) text (length p - 1) j in
      elim (matched (at p) text (i', j')) [
        | true ↦ some true
        | false ↦ elim (shift badc goods i' (text j')) [
          | none ↦ none
          | some w ↦ elim (ltb (j' + w) (k + line_len)) [
            | true ↦ any_rounds p badc goods line_len k f (j' + w)
            | false ↦ some false
          ]
        ]
      ]

  unfoldable pub bm_fixed_anypos : Bytes → BitMap → ℕ → Outcome
  unfolding each_line any_rounds be_size_ful build_bad_c build_good_s
  bm_fixed_anypos p b line_len =
      let skip = ltb 100 line_len && at_least b.size 50 in
      if be_size_ful b
      then some (full, b)
      else if ltb line_len (length p)
      then some (b.size, b)
      else build_bad_c p >>= λ badc. sized (
          each_line
            (λ j line b.
              if enabled skip b line
              then any_rounds p badc (build_good_s p) line_len (j - (length p - 1)) (suc line_len) j
              else some false)
            t_len line_len (suc t_len) (length p - 1) s_idx b)

-- the patterns of BM_Fixed_MutiFul, at a stride of MAX_DICENTY_LEN, against the line that ends at `k`
unfoldable pub muti_hit : (ℕ → ℕ) → Bytes → ℕ → ℕ → ℕ → ℕ → Bool
unfolding hit
muti_hit text patterns p_len_1 k zero pat_num = false
muti_hit text patterns p_len_1 k (suc r) pat_num =
    if hit (λ i. at patterns (pat_num * max_dicenty_len + i)) text p_len_1 k
    then true
    else muti_hit text patterns p_len_1 k r (suc pat_num)

-- BM_Fixed_MutiFul. `k / lineLen` is the number of the line.
unfoldable pub bm_fixed_muti_ful : (ℕ → ℕ) → ℕ → Bytes → ℕ → BitMap → ℕ → Outcome
unfolding each_line muti_hit be_size_ful
bm_fixed_muti_ful text s_len patterns pat_cnt b line_len =
    if be_size_ful b
    then some (full, b)
    else sized (
        each_line (λ k line b. some (muti_hit text patterns (line_len - 1) k pat_cnt 0)) s_len
          line_len (suc s_len) (line_len - 1) 0 b)

abbrev is_found : Found → Bool
is_found (found j) = true
is_found not_found = false
is_found no_fuel = false
is_found fault = false

-- A line of BMwildcard_AxB: B is looked for behind the first A, in as many bytes as a line has.
unfoldable pub axb_test : (ℕ → ℕ) → ℕ → Bytes → Bytes → ℕ → Bool
unfolding bm_search
axb_test text line_len a b start = elim (bm_search (λ k. text (start + k)) a line_len) [
  | found j ↦ is_found (bm_search (λ k. text (start + j + length a + k)) b line_len)
  | not_found ↦ false
  | no_fuel ↦ false
  | fault ↦ false
]

-- `for(i = 0; i < lineCnt; i++)`
unfoldable pub axb_lines : (ℕ → ℕ) → ℕ → Bytes → Bytes → ℕ → ℕ → BitMap → Option BitMap
unfolding axb_test union_at
axb_lines text line_len a b zero i m = some m
axb_lines text line_len a b (suc r) i m =
    (if axb_test text line_len a b (i * line_len) then union_at i m else some m)
    >>= axb_lines text line_len a b r (suc i)

unfoldable pub bm_wildcard_axb : (ℕ → ℕ) → ℕ → ℕ → Bytes → Bytes → BitMap → Outcome
unfolding axb_lines be_size_ful
bm_wildcard_axb text line_cnt line_len a b m =
    if be_size_ful m then some (full, m) else sized (axb_lines text line_len a b line_cnt 0 m)
