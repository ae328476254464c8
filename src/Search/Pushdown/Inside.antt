-- ===== src/Search/Pushdown/Inside.antt =====
-- BM_Fixed_Pushdown of cmdline_loggrep/SearchAlgorithm.cpp for a query anywhere in a line.
use log_grep.Prelude.{
  ℕ, suc, ◌+◌, ◌-◌, ◌*◌, ◌≤◌, ◌<◌, ◌≡◌, refl, false, not, ◌&&◌, ltb, some, List, length, arith,
}
use log_grep.BitMap.{BitMap, size_is, be_size_ful}
use log_grep.BitMap.Sets.{kept, has, has-kept}
use log_grep.BitMap.Holds.{Holds}
use log_grep.BitMap.Filter.{compact-Holds}
use log_grep.Bytes.{Bytes}
use log_grep.Search.QueryType.{align_any}
use log_grep.Search.BoyerMoore.{
  Found, found, not_found, no_fuel, fault, bm_search, max_pattern_size,
}
use log_grep.Search.BoyerMoore.Once.{IsAscii, Reports, bm_search-Reports}
use log_grep.Search.Fixed.Inside.{some_place-at, contains_pattern}
use log_grep.Search.Pushdown.{bm_fixed_pushdown, line_test, line_any, is_found}

found-contains :
    (p : Bytes) (text : ℕ → ℕ) (line_len : ℕ) (r : Found)
    → Reports p text line_len r
    → (is_found r && not (contains_pattern p text line_len 0)) ≡ false
found-contains p text line_len (found j) (in_line, here) =
    let inside =
      some_place-at p text (suc line_len - length p) 0 j (omega arith) (omega arith) here in
    rw inside
found-contains p text line_len not_found r = refl
found-contains p text line_len no_fuel r = absurd r
found-contains p text line_len fault r = absurd r

line_any-contains :
    (text : ℕ → ℕ) (s_len : ℕ) (p : Bytes) (line_len e : ℕ)
    → 0 < length p
    → length p ≤ max_pattern_size
    → IsAscii p
    → ((k : ℕ) → text k < 128)
    → (line_any text s_len p line_len e
        && not (contains_pattern p (λ k. text (e * line_len + k)) line_len 0))
      ≡ false
unfolding line_any
line_any-contains text s_len p line_len e pos table pattern ascii =
    found-contains p (λ k. text (e * line_len + k)) line_len
      (bm_search (λ k. text (e * line_len + k)) p line_len)
      (bm_search-Reports p (λ k. text (e * line_len + k)) line_len pos table pattern
        (λ k lt. ascii (e * line_len + k)))

-- BM_Fixed_Pushdown for a query anywhere in a line, with a nonempty pattern that fits the tables and the
-- lines, pattern and text ASCII, and a bitmap that is neither empty nor full: it succeeds, the search of
-- every line ends inside of badc, every line that it keeps was in the bitmap before, and the pattern
-- stands in that line.
pub bm_fixed_pushdown-Inside :
    (text : ℕ → ℕ) (s_len : ℕ) (p : Bytes) (line_len : ℕ) {b : BitMap} {xs : List ℕ}
    → Holds b xs
    → size_is b.size 0 ≡ false
    → be_size_ful b ≡ false
    → 0 < length p
    → length p ≤ max_pattern_size
    → length p ≤ line_len
    → IsAscii p
    → ((k : ℕ) → text k < 128)
    → (b' : BitMap) × (ys : List ℕ) × (bm_fixed_pushdown text s_len p line_len b align_any
        ≡ some (b'.size, b'))
      × Holds b' ys
      × ((e : ℕ)
          → Reports p
              (λ k. text (e * line_len + k))
              line_len
              (bm_search (λ k. text (e * line_len + k)) p line_len))
      × ((e : ℕ)
          → (has ys e
              && not (has xs e && contains_pattern p (λ k. text (e * line_len + k)) line_len 0))
            ≡ false)
unfolding bm_fixed_pushdown line_test
bm_fixed_pushdown-Inside text s_len p line_len {b} {xs} v z u pos table h pattern ascii =
    let (b', q, w, _) = compact-Holds (line_any text s_len p line_len) v in
    let short : ltb line_len (length p) ≡ false = ground arith in
    (
      b',
      kept (line_any text s_len p line_len) xs,
      rw (z, u, short, q) refl,
      w,
      (λ e.
          bm_search-Reports p (λ k. text (e * line_len + k)) line_len pos table pattern
            (λ k lt. ascii (e * line_len + k))),
      λ e. ground (
        arith,
        has-kept (line_any text s_len p line_len) xs e,
        line_any-contains text s_len p line_len e pos table pattern ascii,
      ),
    )
