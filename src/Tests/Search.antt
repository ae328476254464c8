-- ===== src/Tests/Search.antt =====
-- Runs of the searches.
use log_grep.Prelude.{ℕ, ◌≡◌, refl, true, false, List, [], ◌∷◌, some, none, take}
use log_grep.BitMap.{new, rounds, union_at}
use log_grep.Search.Fixed.{
  Outcome, bm_fixed_align_r, bm_fixed_align_l, bm_fixed_anypos, bm_wildcard_axb,
}
use log_grep.Bytes.{at, codes}
use log_grep.Search.QueryType.{align_any, align_right, align_full}
use log_grep.Search.Kmp.{kmp_search, position, minus_one}
use log_grep.Search.BoyerMoore.{bm_search, found, not_found}

bm_hit : bm_search (at (codes "here is a simple example")) (codes "example") 24 ≡ found 17
unfolding bm_search
bm_hit = refl

-- BuildGoodS looks at the longest border only, so BM_Once jumps over this match.
bm_misses : bm_search (at (codes "xxxxababa")) (codes "ababa") 9 ≡ not_found
unfolding bm_search
bm_misses = refl

-- the members of an outcome's bitmap, in order
abbrev listed : Outcome → List ℕ
listed none = 99 ∷ []
listed (some (e, b)) = take (rounds b.size) b.index

abbrev column : ℕ → ℕ
column = at (codes "  abc abcd  ab")

align_right_run : listed (bm_fixed_align_r column 0 14 (codes "ab") (new 2) 7 true) ≡ 1 ∷ []
unfolding bm_fixed_align_r new union_at
align_right_run = refl

align_left_run : listed (bm_fixed_align_l column 0 14 (codes "abc") (new 2) 7 true) ≡ 0 ∷ []
unfolding bm_fixed_align_l new union_at
align_left_run = refl

anypos_run : listed (bm_fixed_anypos column 0 14 (codes "cd") (new 2) 7) ≡ 1 ∷ []
unfolding bm_fixed_anypos new union_at
anypos_run = refl

-- An empty value: the blanks before the next line's value are skipped as well, and the empty line 0
-- is reported because line 1 begins with the query.
align_left_crosses :
    listed (bm_fixed_align_l (at (codes "   abc")) 0 6 (codes "ab") (new 2) 3 false) ≡ 0 ∷ 1 ∷ []
unfolding bm_fixed_align_l new union_at
align_left_crosses = refl

-- A*B: the second part is looked for past the end of the line, and found in the next one.
axb_crosses :
    listed (bm_wildcard_axb (at (codes "xxaxbx")) 2 3 (codes "a") (codes "b") (new 2)) ≡ 0 ∷ []
unfolding bm_wildcard_axb new
axb_crosses = refl

kmp_run : kmp_search (at (codes "abacababc")) 9 (codes "ababc") align_any ≡ some (position 4)
unfolding kmp_search
kmp_run = refl

-- Aligned to the right, only the first occurrence is looked at: "aba" ends in "a", and -1 comes back.
kmp_right_misses : kmp_search (at (codes "aba")) 3 (codes "a") align_right ≡ some minus_one
unfolding kmp_search
kmp_right_misses = refl

-- A full alignment is not checked: "b" is no full match of "abc", and its position comes back.
kmp_full_part : kmp_search (at (codes "abc")) 3 (codes "b") align_full ≡ some (position 1)
unfolding kmp_search
kmp_full_part = refl
