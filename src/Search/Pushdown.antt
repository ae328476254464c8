-- ===== src/Search/Pushdown.antt =====
-- The pruning searches of cmdline_loggrep/SearchAlgorithm.cpp, which look only at lines found before:
-- BM_Fixed_Pushdown, BM_Fixed_Pushdown_MutiFul and BM_Diff_Pushdown, which cut a bitmap down, and
-- their _RefMap versions, which read the lines off a second bitmap. Patterns are nonempty.
pub mod Exact
pub mod Inside
use log_grep.Prelude.{
  ℕ, zero, suc, ◌+◌, ◌-◌, ◌*◌, ◌%◌, Bool, true, false, ◌&&◌, ◌||◌, ◌==◌, ltb, if◌then◌else◌, Option,
  none, some, ◌>>=◌, List, [], ◌∷◌, length, take, get_or,
}
use log_grep.BitMap.{
  BitMap, Extent, full, entries, size_is, is_full, rounds, be_size_ful, reset, reset_size, reset_at,
  inset_at, union_at, compact,
}
use log_grep.Bytes.{Bytes, at}
use log_grep.Search.QueryType.{QueryType, align_full, align_left, align_right, align_any, align_dic}
use log_grep.Search.Compare.{hit, seq_matching_align_right, seq_matching_multi_ful}
use log_grep.Search.BoyerMoore.{
  build_bad_c, build_good_s, bm_once, shift, Found, found, not_found, no_fuel, fault, bm_search,
}
use log_grep.Search.Kmp.{init_kmp_next, kmp, kmp_column, is_position, split_line}
use log_grep.Search.Fixed.{Outcome, sized, bm_fixed_align, bm_fixed_anypos, bm_fixed_muti_ful}

-- `while(S[j-tLen+1] == ' ') j += ...` of SeqMatching_AlignLeft. Nothing stops it at the line's end.
unfoldable pub skip_left : (ℕ → ℕ) → ℕ → List ℕ → List ℕ → ℕ → ℕ → Option ℕ
unfolding shift
skip_left s p_len_1 badc goods zero j = some j
skip_left s p_len_1 badc goods (suc f) j = elim (s (j - p_len_1) == b' ') [
  | true ↦ elim (shift badc goods p_len_1 (s j)) [
    | none ↦ none
    | some w ↦ skip_left s p_len_1 badc goods f (j + w)
  ]
  | false ↦ some j
]

-- SeqMatching_AlignLeft with tables. `f` bounds the blanks from the line on, which end with the text. An
-- access outside of `badc` is no match here.
unfoldable pub seq_matching_skip_left : (ℕ → ℕ) → ℕ → Bytes → ℕ → Bool
unfolding skip_left hit build_bad_c build_good_s
seq_matching_skip_left s s_len t f =
    if ltb s_len (length t)
    then false
    else elim (build_bad_c t >>= λ badc.
        skip_left s (length t - 1) badc (build_good_s t) f (length t - 1)) [
          | none ↦ false
          | some j ↦
              (j - (length t - 1) == 0 || s (j - length t) == b' ') && hit (at t) s (length t - 1) j
        ]

abbrev pub is_found : Found → Bool
is_found (found j) = true
is_found not_found = false
is_found no_fuel = false
is_found fault = false

module _ (text : ℕ → ℕ) (s_len : ℕ) (p : Bytes) (line_len : ℕ) where
  -- the match of one line in each of the query types
  unfoldable pub line_right : ℕ → Bool
  unfolding seq_matching_align_right
  line_right e = seq_matching_align_right (λ k. text (e * line_len + k)) line_len p

  unfoldable pub line_any : ℕ → Bool
  unfolding bm_search
  line_any e = is_found (bm_search (λ k. text (e * line_len + k)) p line_len)

  unfoldable pub line_left : ℕ → Bool
  unfolding seq_matching_skip_left
  line_left e = seq_matching_skip_left (λ k. text (e * line_len + k)) line_len p (suc s_len)

  -- For the query " ": the byte before the line `GetIndex(i+1)`, the next entry of the bitmap.
  unfoldable pub before_next : ℕ → ℕ → Bool
  before_next e next = text (next * line_len - 1) == b' '

  -- which lines BM_Fixed_Pushdown keeps, by entry and next entry
  unfoldable pub line_test : QueryType → ℕ → ℕ → Bool
  unfolding line_right line_any line_left before_next
  line_test align_right e next = line_right e
  line_test align_full e next = line_right e
  line_test align_any e next = line_any e
  line_test _ e next = if at p 0 == b' ' && length p == 1 then before_next e next else line_left e

  -- the search that a full bitmap falls back to
  unfoldable pub whole_column : QueryType → BitMap → Outcome
  unfolding bm_fixed_align bm_fixed_anypos
  whole_column align_any b = bm_fixed_anypos text 0 s_len p b line_len
  whole_column type b = bm_fixed_align text 0 s_len p b line_len type

  unfoldable pub bm_fixed_pushdown : BitMap → QueryType → Outcome
  unfolding whole_column line_test be_size_ful reset reset_size compact
  bm_fixed_pushdown b type =
      if size_is b.size 0
      then some (entries 0, b)
      else if be_size_ful b
      then whole_column type (reset b)
      else if ltb line_len (length p)
      then some (b.size, b)
      else sized (compact (line_test type) (rounds b.size) 0 (reset_size b))

  -- which lines BM_Fixed_Pushdown_RefMap adds; it has no case for the query " "
  unfoldable pub ref_test : QueryType → ℕ → Bool
  unfolding line_right line_any line_left
  ref_test align_right e = line_right e
  ref_test align_full e = line_right e
  ref_test align_any e = line_any e
  ref_test _ e = line_left e

-- the loop over the entries of the second bitmap: Union of those that pass
unfoldable pub union_if : (ℕ → Bool) → List ℕ → BitMap → Option BitMap
unfolding union_at
union_if keep [] b = some b
union_if keep (e ∷ es) b = (if keep e then union_at e b else some b) >>= union_if keep es

abbrev pub listed : BitMap → List ℕ
listed b = take (rounds b.size) b.index

unfoldable pub bm_fixed_pushdown_ref_map :
    (ℕ → ℕ) → ℕ → Bytes → BitMap → BitMap → ℕ → QueryType → Outcome
unfolding whole_column ref_test be_size_ful union_if
bm_fixed_pushdown_ref_map text s_len p b ref line_len type =
    if size_is ref.size 0
    then some (entries 0, b)
    else if be_size_ful ref
    then whole_column text s_len p line_len type b
    else if ltb line_len (length p)
    then some (entries 0, b)
    else sized (union_if (ref_test text s_len p line_len type) (listed ref) b)

unfoldable pub line_multi : (ℕ → ℕ) → ℕ → Bytes → ℕ → ℕ → Bool
unfolding seq_matching_multi_ful
line_multi text line_len patterns pat_cnt e =
    seq_matching_multi_ful (λ k. text (e * line_len + k)) line_len patterns pat_cnt

unfoldable pub bm_fixed_pushdown_muti_ful : (ℕ → ℕ) → ℕ → Bytes → ℕ → BitMap → ℕ → Outcome
unfolding bm_fixed_muti_ful line_multi be_size_ful reset reset_size compact
bm_fixed_pushdown_muti_ful text s_len patterns pat_cnt b line_len =
    if size_is b.size 0
    then some (entries 0, b)
    else if be_size_ful b
    then bm_fixed_muti_ful text s_len patterns pat_cnt (reset b) line_len
    else sized (
        compact (λ e next. line_multi text line_len patterns pat_cnt e) (rounds b.size) 0
          (reset_size b))

unfoldable pub bm_fixed_pushdown_muti_ful_ref_map :
    (ℕ → ℕ) → ℕ → Bytes → ℕ → BitMap → BitMap → ℕ → Outcome
unfolding bm_fixed_muti_ful line_multi be_size_ful union_if
bm_fixed_pushdown_muti_ful_ref_map text s_len patterns pat_cnt b ref line_len =
    if size_is ref.size 0
    then some (entries 0, b)
    else if be_size_ful ref
    then bm_fixed_muti_ful text s_len patterns pat_cnt b line_len
    else sized (union_if (line_multi text line_len patterns pat_cnt) (listed ref) b)

-- The loop of BM_Diff_Pushdown over the lines of the text. The fuel bounds their number. The source
-- relies on lines that end with '\n' and are shorter than MAX_VALUE_LEN, the size of its buffer.
unfoldable pub diff_lines : Bytes → List ℕ → QueryType → ℕ → ℕ → Bytes → BitMap → Option BitMap
unfolding kmp split_line inset_at reset_at
diff_lines t next type f line_idx [] b = some b
diff_lines t next type zero line_idx (c ∷ s) b = none
diff_lines t next type (suc f) line_idx (c ∷ s) b =
    let (line, rest) = split_line (c ∷ s) in
    (if b.bitmap line_idx
      then (kmp (at line) (length line) t next type >>= λ r.
          if is_position r then inset_at line_idx b else some (reset_at line_idx b))
      else some b)
    >>= diff_lines t next type f (suc line_idx) rest

unfoldable pub bm_diff_pushdown : Bytes → Bytes → BitMap → QueryType → Outcome
unfolding diff_lines init_kmp_next kmp_column be_size_ful reset reset_size
bm_diff_pushdown s t b type =
    if size_is b.size 0
    then some (entries 0, b)
    else if be_size_ful b
    then sized (kmp_column s t (reset b) type)
    else sized (init_kmp_next t >>= λ next. diff_lines t next type (length s) 0 s (reset_size b))

-- The loop of BM_Diff_Pushdown_RefMap: a line is looked at when it is the next entry of the second
-- bitmap, at `index`.
unfoldable pub diff_ref_lines :
    Bytes → List ℕ → QueryType → BitMap → ℕ → ℕ → ℕ → Bytes → BitMap → Option BitMap
unfolding kmp split_line union_at
diff_ref_lines t next type ref f index line_idx [] b = some b
diff_ref_lines t next type ref zero index line_idx (c ∷ s) b = none
diff_ref_lines t next type ref (suc f) index line_idx (c ∷ s) b =
    let (line, rest) = split_line (c ∷ s) in
    let here = get_or ref.index index 0 == line_idx in
    (if here
      then (kmp (at line) (length line) t next type >>= λ r.
          if is_position r then union_at line_idx b else some b)
      else some b)
    >>= diff_ref_lines t next type ref f (if here then suc index else index) (suc line_idx) rest

unfoldable pub bm_diff_pushdown_ref_map : Bytes → Bytes → BitMap → BitMap → QueryType → Outcome
unfolding diff_ref_lines init_kmp_next kmp_column be_size_ful
bm_diff_pushdown_ref_map s t b ref type =
    if size_is ref.size 0
    then some (entries 0, b)
    else if be_size_ful ref
    then sized (kmp_column s t b type)
    else sized (init_kmp_next t >>= λ next. diff_ref_lines t next type ref (length s) 0 0 s b)
