-- ===== src/Search/Compare.antt =====
-- Comparing a pattern with one place of a text: the backward loop that the searches of
-- cmdline_loggrep/SearchAlgorithm.cpp share, and the SeqMatching functions.
pub mod Laws
use log_grep.Prelude.{
  ℕ, zero, suc, ◌+◌, ◌-◌, ◌*◌, Bool, true, false, ◌&&◌, ◌||◌, ◌==◌, ltb, if◌then◌else◌, List, [],
  ◌∷◌, length,
}
use log_grep.Bytes.{Bytes, at}

-- `while((i != 0) && (pattern[i] == text[j])) { --i; --j; }`, over the two reads
unfoldable pub match_back : (ℕ → ℕ) → (ℕ → ℕ) → ℕ → ℕ → ℕ × ℕ
match_back p t zero j = (zero, j)
match_back p t (suc i) j = if p (suc i) == t j then match_back p t i (j - 1) else (suc i, j)

-- the test behind it, `i == 0 && pattern[i] == text[j]`
unfoldable pub matched : (ℕ → ℕ) → (ℕ → ℕ) → ℕ × ℕ → Bool
matched p t (i, j) = i == 0 && p i == t j

unfoldable pub hit : (ℕ → ℕ) → (ℕ → ℕ) → ℕ → ℕ → Bool
unfolding match_back matched
hit p t i j = matched p t (match_back p t i j)

-- the loop of SeqMatching_AlignLeft, from `i` down to 0
unfoldable pub left_from : (ℕ → ℕ) → (ℕ → ℕ) → ℕ → Bool
left_from s t zero = true
left_from s t (suc i) = if s i == t i then left_from s t i else false

-- SeqMatching_AlignLeft(S, sLen, T, tLen); `s` reads from the line's start on.
unfoldable pub seq_matching_align_left : (ℕ → ℕ) → ℕ → Bytes → Bool
unfolding left_from
seq_matching_align_left s s_len t =
    if ltb s_len (length t) then false else left_from s (at t) (length t)

-- the loop of SeqMatching_AlignRight: the rounds left, and `i`
unfoldable pub right_from : (ℕ → ℕ) → ℕ → Bytes → ℕ → ℕ → Bool
right_from s s_len t zero i = true
right_from s s_len t (suc r) i =
    if s (s_len - i) == at t (length t - i) then right_from s s_len t r (suc i) else false

unfoldable pub seq_matching_align_right : (ℕ → ℕ) → ℕ → Bytes → Bool
unfolding right_from
seq_matching_align_right s s_len t =
    if ltb s_len (length t) then false else right_from s s_len t (length t) 1

unfoldable pub seq_matching_both_side : (ℕ → ℕ) → ℕ → Bytes → Bool
unfolding seq_matching_align_left seq_matching_align_right
seq_matching_both_side s s_len t =
    if seq_matching_align_left s s_len t then true else seq_matching_align_right s s_len t

-- MAX_DICENTY_LEN
abbrev pub max_dicenty_len : ℕ
max_dicenty_len = 10

-- SeqMatching_MultiFul: the patterns stand in `t` at a stride of MAX_DICENTY_LEN.
unfoldable pub multi_from : (ℕ → ℕ) → ℕ → Bytes → ℕ → ℕ → Bool
unfolding left_from
multi_from s s_len t zero pat_num = false
multi_from s s_len t (suc r) pat_num =
    if left_from s (λ i. at t (pat_num * max_dicenty_len + i)) s_len
    then true
    else multi_from s s_len t r (suc pat_num)

unfoldable pub seq_matching_multi_ful : (ℕ → ℕ) → ℕ → Bytes → ℕ → Bool
unfolding multi_from
seq_matching_multi_ful s s_len t t_cnt = multi_from s s_len t t_cnt 0
