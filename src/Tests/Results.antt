-- ===== src/Tests/Results.antt =====
-- Each result on line sets and searches, at an input.
use log_grep.Prelude.{
  ℕ, ◌+◌, ◌-◌, ◌*◌, ◌<◌, ◌≡◌, ◌↔◌, ◌≤◌, refl, inl, inr, true, false, not, ◌&&◌, ◌||◌, ◌==◌, none,
  some, List, [], ◌∷◌, arith, length,
}
use log_grep.Bytes.{at, codes}
use log_grep.BitMap.{BitMap, full, entries, union, inset, complement, reverse, be_size_ful}
use log_grep.BitMap.Sets.{has}
use log_grep.BitMap.Holds.{Holds, member}
use log_grep.BitMap.Algebra.{
  some_of, Yields, union_refines, inset_refines, complement_refines, reverse_refines, union-full,
}
use log_grep.Search.QueryType.{align_any, align_right, align_full}
use log_grep.Search.Kmp.{kmp_search}
use log_grep.Search.Kmp.First.{accept, first_occurrence, kmp_search-first_occurrence}
use log_grep.Search.BoyerMoore.{bm_search, build_good_s}
use log_grep.Search.BoyerMoore.Once.{all_ascii-IsAscii, at-IsAscii, Reports, bm_search-Reports}
use log_grep.Search.BoyerMoore.Tables.{build_good_s-Advances}
use log_grep.Search.Compare.{seq_matching_align_left, seq_matching_align_right}
use log_grep.Search.Compare.Laws.{
  stands, some_pattern, seq_matching_align_left-agrees, seq_matching_align_right-stands,
}
use log_grep.Search.Fixed.{bm_fixed_align_r, bm_fixed_muti_ful, fixed_align_l_for_empty}
use log_grep.Search.Fixed.Exact.{
  Adds, ends_with, is_pattern, bm_fixed_align_r-Adds, bm_fixed_muti_ful-Adds,
  fixed_align_l_for_empty-Adds,
}
use log_grep.Search.Scan.{scanned}
use log_grep.Search.Fixed.{bm_fixed_anypos}
use log_grep.Search.Fixed.Inside.{contains_pattern, bm_fixed_anypos-Finds}
use log_grep.Search.Pushdown.{
  bm_fixed_pushdown, bm_fixed_pushdown_muti_ful, bm_fixed_pushdown_ref_map,
}
use log_grep.Search.Pushdown.Inside.{bm_fixed_pushdown-Inside}
use log_grep.Search.Pushdown.Exact.{
  Keeps, ends, bm_fixed_pushdown-Keeps, bm_fixed_pushdown_muti_ful-Keeps,
  bm_fixed_pushdown_ref_map-Adds,
}

-- three lines, of which 2 and 0 are in
abbrev two_lines : BitMap
two_lines = record {
  bitmap = has (2 ∷ 0 ∷ []);
  index = 2 ∷ 0 ∷ 7 ∷ [];
  size = entries 2;
  total_size = 3;
}

two_lines-Holds : Holds two_lines (2 ∷ 0 ∷ [])
two_lines-Holds = record {
  size = refl;
  cells = refl;
  prefix = refl;
  bits = λ p. refl;
  distinct = (refl, (refl, tt));
  bounded = (omega arith, (omega arith, tt));
}

-- ... and one in which 1 and 2 are
abbrev other_lines : BitMap
other_lines = record {
  bitmap = has (1 ∷ 2 ∷ []);
  index = 1 ∷ 2 ∷ 0 ∷ [];
  size = entries 2;
  total_size = 3;
}

other_lines-Holds : Holds other_lines (1 ∷ 2 ∷ [])
other_lines-Holds = record {
  size = refl;
  cells = refl;
  prefix = refl;
  bits = λ p. refl;
  distinct = (refl, (refl, tt));
  bounded = (omega arith, (omega arith, tt));
}

abbrev full_lines : BitMap
full_lines = record { bitmap = λ p. false; index = 0 ∷ 0 ∷ 0 ∷ []; size = full; total_size = 3 }

union_refines_example :
    Yields 3 (λ p. member two_lines p || member other_lines p) (union (some other_lines) two_lines)
union_refines_example = union_refines two_lines-Holds other_lines-Holds refl

union-full_example : union (some two_lines) full_lines ≡ none
union-full_example = union-full full_lines 2 refl two_lines-Holds refl

inset_refines_example :
    Yields 3 (λ p. member two_lines p && member other_lines p) (inset other_lines two_lines)
inset_refines_example = inset_refines two_lines-Holds (some_of other_lines-Holds)

complement_refines_example :
    Yields 3
      (λ p. member two_lines p && not (member other_lines p))
      (complement other_lines two_lines)
complement_refines_example = complement_refines two_lines-Holds (some_of other_lines-Holds) refl

reverse_refines_example : Yields 3 (λ p. not (member two_lines p)) (reverse two_lines)
reverse_refines_example = reverse_refines (some_of two_lines-Holds)

kmp_search-first_occurrence_example :
    kmp_search (at (codes "abacababc")) 9 (codes "ababc") align_any
    ≡ some (accept align_any 9 5 (first_occurrence (at (codes "abacababc")) 9 (codes "ababc")))
kmp_search-first_occurrence_example =
    kmp_search-first_occurrence (at (codes "abacababc")) 9 (codes "ababc") align_any (omega arith)

bm_search-Reports_example :
    Reports
      (codes "exam")
      (at (codes "an example"))
      10
      (bm_search (at (codes "an example")) (codes "exam") 10)
bm_search-Reports_example =
    bm_search-Reports (codes "exam") (at (codes "an example")) 10 (omega arith) (omega arith)
      (all_ascii-IsAscii (codes "exam") refl) (λ k lt. at-IsAscii (codes "an example") refl k)

build_good_s-Advances_example : 3 - 1 < at (build_good_s (codes "abab")) 1
build_good_s-Advances_example =
    build_good_s-Advances (codes "abab") (omega arith) (omega arith) 1 (omega arith)

seq_matching_align_left-agrees_example :
    (seq_matching_align_left (at (codes "abc")) 3 (codes "ab") ≡ true) ↔ (
      (length (codes "ab") ≤ 3)
      × ((k : ℕ) → k < length (codes "ab") → at (codes "abc") k ≡ at (codes "ab") k))
seq_matching_align_left-agrees_example =
    seq_matching_align_left-agrees (at (codes "abc")) 3 (codes "ab")

seq_matching_align_right-stands_example :
    seq_matching_align_right (at (codes "abc")) 3 (codes "bc")
    ≡ (not false && stands (at (codes "bc")) (at (codes "abc")) 1 2)
seq_matching_align_right-stands_example =
    seq_matching_align_right-stands (at (codes "abc")) 3 (codes "bc")

abbrev column : ℕ → ℕ
column = at (codes " ab xy cb")

bm_fixed_align_r-Adds_example :
    Adds
      (λ q. ends_with (codes "b") column 3 ((q - 0) * 3))
      0
      3
      (2 ∷ 0 ∷ [])
      (bm_fixed_align_r column 0 9 (codes "b") two_lines 3 true)
unfolding be_size_ful
bm_fixed_align_r-Adds_example =
    bm_fixed_align_r-Adds column (codes "b") 0 3 3 9 true two_lines-Holds refl (omega arith)
      (omega arith) refl (omega arith)

bm_fixed_anypos-Finds_example :
    (b' : BitMap) × (ys : List ℕ) × (bm_fixed_anypos column 0 9 (codes "xy") two_lines 3
      ≡ some (b'.size, b'))
    × Holds b' ys
    × ((q : ℕ) → (has (2 ∷ 0 ∷ []) q && not (has ys q)) ≡ false)
    × ((q : ℕ)
        → (has ys q
            && not (
                has (2 ∷ 0 ∷ []) q
                || scanned (λ q. contains_pattern (codes "xy") column 3 ((q - 0) * 3)) 0 3 q))
          ≡ false)
unfolding be_size_ful
bm_fixed_anypos-Finds_example =
    bm_fixed_anypos-Finds column (codes "xy") 0 3 3 9 two_lines-Holds refl (omega arith)
      (omega arith) (omega arith) refl (omega arith) (all_ascii-IsAscii (codes "xy") refl)
      (at-IsAscii (codes " ab xy cb") refl)

fixed_align_l_for_empty-Adds_example :
    Adds
      (λ q. column ((q - 0) * 3 + 2) == b' ')
      0
      3
      (2 ∷ 0 ∷ [])
      (fixed_align_l_for_empty column 0 9 two_lines 3)
unfolding be_size_ful
fixed_align_l_for_empty-Adds_example =
    fixed_align_l_for_empty-Adds column 0 3 3 9 two_lines-Holds refl (omega arith) refl
      (omega arith)

bm_fixed_muti_ful-Adds_example :
    Adds
      (λ q. is_pattern column (codes " xy") 3 (q * 3) 1 0)
      0
      3
      (2 ∷ 0 ∷ [])
      (bm_fixed_muti_ful column 9 (codes " xy") 1 two_lines 3)
unfolding be_size_ful
bm_fixed_muti_ful-Adds_example =
    bm_fixed_muti_ful-Adds column (codes " xy") 1 3 3 9 two_lines-Holds refl (omega arith) refl
      (omega arith)

bm_fixed_pushdown-Keeps_example :
    Keeps
      (ends column (codes "b") 3)
      (2 ∷ 0 ∷ [])
      (bm_fixed_pushdown column 9 (codes "b") 3 two_lines align_right)
unfolding be_size_ful
bm_fixed_pushdown-Keeps_example =
    bm_fixed_pushdown-Keeps column 9 (codes "b") 3 align_right two_lines-Holds refl refl
      (omega arith) (inl refl)

bm_fixed_pushdown-Inside_example :
    (b' : BitMap) × (ys : List ℕ) × (bm_fixed_pushdown column 9 (codes "ab") 3 two_lines align_any
      ≡ some (b'.size, b'))
    × Holds b' ys
    × ((e : ℕ)
        → Reports
            (codes "ab")
            (λ k. column (e * 3 + k))
            3
            (bm_search (λ k. column (e * 3 + k)) (codes "ab") 3))
    × ((e : ℕ)
        → (has ys e
            && not
                (has (2 ∷ 0 ∷ []) e && contains_pattern (codes "ab") (λ k. column (e * 3 + k)) 3 0))
          ≡ false)
unfolding be_size_ful
bm_fixed_pushdown-Inside_example =
    bm_fixed_pushdown-Inside column 9 (codes "ab") 3 two_lines-Holds refl refl (omega arith)
      (omega arith) (omega arith) (all_ascii-IsAscii (codes "ab") refl)
      (at-IsAscii (codes " ab xy cb") refl)

bm_fixed_pushdown_muti_ful-Keeps_example :
    Keeps
      (λ e. some_pattern (λ k. column (e * 3 + k)) 3 (codes " ab") 1 0)
      (2 ∷ 0 ∷ [])
      (bm_fixed_pushdown_muti_ful column 9 (codes " ab") 1 two_lines 3)
unfolding be_size_ful
bm_fixed_pushdown_muti_ful-Keeps_example =
    bm_fixed_pushdown_muti_ful-Keeps column 9 (codes " ab") 1 3 two_lines-Holds refl refl

bm_fixed_pushdown_ref_map-Adds_example :
    (b' : BitMap) × (ys : List ℕ) × (bm_fixed_pushdown_ref_map column 9
        (codes "b")
        two_lines
        other_lines
        3
        align_full
      ≡ some (b'.size, b'))
    × Holds b' ys
    × ((q : ℕ)
        → has ys q ≡ (has (2 ∷ 0 ∷ []) q || (ends column (codes "b") 3 q && has (1 ∷ 2 ∷ []) q)))
unfolding be_size_ful
bm_fixed_pushdown_ref_map-Adds_example =
    bm_fixed_pushdown_ref_map-Adds column 9 (codes "b") 3 align_full two_lines-Holds
      other_lines-Holds refl refl refl (omega arith) (inr refl)
