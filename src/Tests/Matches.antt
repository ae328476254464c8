-- ===== src/Tests/Matches.antt =====
-- Each result on stamps, patterns, values and tokens, at an input.
use log_grep.Prelude.{
  ℕ, length, zero, suc, ◌+◌, ◌<◌, ◌≤◌, ◌≡◌, refl, true, false, some, List, [], ◌∷◌, ◌++◌, arith,
}
use log_grep.Bytes.{Bytes, at, codes}
use log_grep.Search.QueryType.{align_full}
use log_grep.Tags.{get_str_tag, get_type}
use log_grep.Tags.Bits.{within}
use log_grep.Tags.Filter.{get_str_tag-within}
use log_grep.Pattern.Lcs.{get_lcs_dp_optc}
use log_grep.Pattern.Lcs.Common.{IsCommon, get_lcs_dp_optc-IsCommon}
use log_grep.Pattern.Lcs.Longest.{get_lcs_dp_optc-longest}
use log_grep.Pattern.Matrix.{RegMatches, new_matrix, reg_match, union_rows}
use log_grep.Pattern.Match.{Segment, const, var, SubVarInfo, match_full}
use log_grep.Pattern.Match.Instance.{Instance, Fits, done, constant, value}
use log_grep.Pattern.Chars.{char_fits}
use log_grep.Pattern.Query.{sub_pattern_match}
use log_grep.Pattern.Query.Stored.{
  sub_pattern_match-Instance, one_row, count_valid, union_rows-counts,
}
use log_grep.Values.{padding, remove_padding, int_padding, atoi}
use log_grep.Values.Padding.{remove_padding-padding, atoi-int_padding}
use log_grep.Pattern.Dic
use log_grep.Pattern.Dic.{DicVarInfo, dic_pattern_match}
use log_grep.Pattern.Dic.Rows.{dic_row}
use log_grep.Text.Split.{split}
use log_grep.Text.Split.Join.{concat, all_tokens, split-Tokens}

get_str_tag-within_example :
    within (get_str_tag (codes "4F")) (get_type (codes "x" ++ (codes "4F" ++ codes "_"))) ≡ true
get_str_tag-within_example = get_str_tag-within (codes "x") (codes "4F") (codes "_")

get_lcs_dp_optc-IsCommon_example :
    IsCommon
      (at (codes "xabc"))
      (at (codes "abcx"))
      4
      4
      (get_lcs_dp_optc (at (codes "xabc")) (at (codes "abcx")) 4 4 false)
get_lcs_dp_optc-IsCommon_example =
    get_lcs_dp_optc-IsCommon (at (codes "xabc")) (at (codes "abcx")) 4 4 false

-- "abc" stands in both from 1 and from 0 on.
abc_in_both : (k : ℕ) → k < 3 → at (codes "xabc") (1 + k) ≡ at (codes "abcx") (0 + k)
abc_in_both zero lt = refl
abc_in_both (suc zero) lt = refl
abc_in_both (suc (suc zero)) lt = refl
abc_in_both (suc (suc (suc k))) lt = absurd (omega arith)

get_lcs_dp_optc-longest_example :
    3 ≤ (get_lcs_dp_optc (at (codes "xabc")) (at (codes "abcx")) 4 4 false).len
get_lcs_dp_optc-longest_example =
    get_lcs_dp_optc-longest (at (codes "xabc")) (at (codes "abcx")) 4 4 false 1 0 3 (omega arith)
      (omega arith) abc_in_both

-- one digit and one capital, then a dot
abbrev digits : SubVarInfo
digits = record { fixed = true; tag = 3; len = 2 }

abbrev stored_pattern : List Segment
stored_pattern = var 100 digits ∷ const (codes ".") ∷ []

Fits-4f : Fits 3 (codes "4F")
unfolding char_fits
Fits-4f zero lt = refl
Fits-4f (suc zero) lt = refl
Fits-4f (suc (suc k)) lt = absurd (omega arith)

stored_value : Instance stored_pattern (codes "4F" ++ (codes "." ++ []))
stored_value = value 100 digits (codes "4F") refl (omega arith) refl Fits-4f (constant b'.' [] done)

sub_pattern_match-Instance_example :
    sub_pattern_match stored_pattern (codes "4F.") align_full new_matrix
    ≡ some (match_full, one_row stored_pattern)
sub_pattern_match-Instance_example =
    sub_pattern_match-Instance stored_value (omega arith) (omega arith)

abbrev row : RegMatches
row = record { matches = reg_match 0 0 2 100 ∷ []; be_valid = true }

union_rows-counts_example :
    (union_rows [] (row ∷ row ∷ []) 2).1 + 2 ≡ 2 + count_valid (union_rows [] (row ∷ row ∷ []) 2).0
union_rows-counts_example = union_rows-counts [] (row ∷ row ∷ []) 2 (refl, (refl, tt)) (omega arith)

split-Tokens_example :
    (ps : List Bytes) × (split (codes "a: b") (codes " :") ≡ some ps)
    × (concat ps ≡ codes "a: b")
    × (all_tokens (codes " :") ps ≡ true)
split-Tokens_example = split-Tokens (codes "a: b") (codes " :") refl (omega arith)

remove_padding-padding_example :
    (length (padding true (codes "ab") 5) ≡ 5)
    × (remove_padding (padding true (codes "ab") 5) 5 ≡ (2, codes "ab"))
remove_padding-padding_example = remove_padding-padding (codes "ab") 5 refl (omega arith)

atoi-int_padding_example :
    (s : Bytes) × (int_padding 407 5 ≡ some s) × (length s ≡ 5) × (atoi s 5 ≡ 407)
atoi-int_padding_example =
    atoi-int_padding 407 5 (omega arith) (omega arith) (omega arith) (omega arith)

-- values of three bytes that begin with "e", ten of them from line 20 on
abbrev words : DicVarInfo
words = record {
  len = 3;
  line_cnt = 10;
  line_sno = 20;
  segs = Dic.const (codes "e") ∷ Dic.var 4 ∷ [];
}

words_taken :
    dic_pattern_match (words ∷ []) (codes "ea") align_full new_matrix
    ≡ some (some 1, record new_matrix { rows = dic_row words ∷ [] })
unfolding dic_pattern_match
words_taken = refl

words_not_taken :
    dic_pattern_match (words ∷ []) (codes "fa") align_full new_matrix ≡ some (some 0, new_matrix)
unfolding dic_pattern_match
words_not_taken = refl
