-- ===== src/Search/Fixed/Exact.antt =====
-- The searches over a column, BM_Fixed_AlignR, Fixed_AlignL_For_Empty and BM_Fixed_MutiFul of
-- cmdline_loggrep/SearchAlgorithm.cpp, as sets of lines.
use log_grep.Prelude.{
  ℕ, zero, suc, ◌+◌, ◌-◌, ◌*◌, ◌≤◌, ◌<◌, ◌≡◌, refl, Bool, false, ◌&&◌, ◌||◌, ◌==◌, ltb, some, List,
  length, arith,
}
use log_grep.BitMap.{BitMap, be_size_ful}
use log_grep.BitMap.Sets.{has}
use log_grep.BitMap.Holds.{Holds}
use log_grep.Bytes.{Bytes, at}
use log_grep.Search.Compare.{hit, max_dicenty_len}
use log_grep.Search.Compare.Laws.{stands, hit-stands_length}
use log_grep.Search.Scan.{Test, Decides, each_line, each_line-Holds, scanned}
use log_grep.Search.Fixed.{
  Outcome, sized, enabled, bm_fixed_align_r, fixed_align_l_for_empty, muti_hit, bm_fixed_muti_ful,
}

-- The search succeeds, returns the size of its bitmap, and has added to the lines `xs` exactly those of
-- the `n` lines from `line` on that `S` picks.
abbrev pub Adds : (ℕ → Bool) → ℕ → ℕ → List ℕ → Outcome → Type 0
Adds S line n xs r =
    (b : BitMap) × (ys : List ℕ) × (r ≡ some (b.size, b))
    × Holds b ys
    × ((q : ℕ) → has ys q ≡ (has xs q || scanned S line n q))

in_column : (n line_len k : ℕ) → k < line_len → (m : ℕ) → m < n → k + m * line_len < n * line_len
in_column n line_len k h m l = grind arith

lines-le : (n line_len : ℕ) → 0 < line_len → n ≤ n * line_len
lines-le n line_len h = grind arith

-- A loop over the `n` lines of a column, whatever the cursor's offset in the line.
pub scan_column :
    (test : Test) (S : ℕ → Bool) (t_len line_len n k line : ℕ) {b : BitMap} {xs : List ℕ}
    → Holds b xs
    → Decides test S line_len n k line
    → k < line_len
    → t_len ≡ n * line_len
    → line + n ≤ b.total_size
    → Adds S line n xs (sized (each_line test t_len line_len (suc t_len) k line b))
scan_column test S t_len line_len n k line v d h e fits =
    let (b', ys, q, w, m) =
      each_line-Holds test S t_len line_len n (suc t_len) k line v d
        (λ m l. rw e (in_column n line_len k h m l)) (omega arith)
        (omega (arith, lines-le n line_len (omega arith))) fits in
    (b', ys, rw q refl, w, m)

-- the line that begins at `start` ends with the pattern
abbrev pub ends_with : Bytes → (ℕ → ℕ) → ℕ → ℕ → Bool
ends_with p text line_len start = stands (at p) text (start + (line_len - length p)) (length p)

align_r-Decides :
    (text : ℕ → ℕ) (p : Bytes) (line line_len n : ℕ) (skip : Bool)
    → 0 < length p
    → length p ≤ line_len
    → Decides
        (λ k line b. some (enabled skip b line && hit (at p) text (length p - 1) k))
        (λ q. ends_with p text line_len ((q - line) * line_len))
        line_len
        n
        (line_len - 1)
        line
align_r-Decides text p line line_len n skip h s m b l =
    let e : line + m - line ≡ m = omega arith in
    let start = m * line_len + (line_len - length p) in
    let j : line_len - 1 + m * line_len ≡ start + (length p - 1) = omega arith in
    (
      enabled skip b (line + m) && hit (at p) text (length p - 1) (line_len - 1 + m * line_len),
      refl,
      rw (e, hit-stands_length (at p) text (length p) start (line_len - 1 + m * line_len) h j)
          (ground arith),
    )

-- BM_Fixed_AlignR, with or without the skip of lines found before, on a column of `n` lines: a bitmap
-- that is not full gains exactly the lines that end with the pattern.
pub bm_fixed_align_r-Adds :
    (text : ℕ → ℕ) (p : Bytes) (line line_len n t_len : ℕ) (skip : Bool) {b : BitMap} {xs : List ℕ}
    → Holds b xs
    → be_size_ful b ≡ false
    → 0 < length p
    → length p ≤ line_len
    → t_len ≡ n * line_len
    → line + n ≤ b.total_size
    → Adds
        (λ q. ends_with p text line_len ((q - line) * line_len))
        line
        n
        xs
        (bm_fixed_align_r text line t_len p b line_len skip)
unfolding bm_fixed_align_r
bm_fixed_align_r-Adds text p line line_len n t_len skip {b} v u h s e fits =
    let c : ltb line_len (length p) ≡ false = ground arith in
    rw (u, c)
      (scan_column (λ k line b. some (enabled skip b line && hit (at p) text (length p - 1) k))
        (λ q. ends_with p text line_len ((q - line) * line_len)) t_len line_len n (line_len - 1)
        line v (align_r-Decides text p line line_len n skip h s) (omega arith) e fits)

-- Fixed_AlignL_For_Empty on a column of `n` lines: a bitmap that is not full gains exactly the lines
-- whose last byte is a blank.
pub fixed_align_l_for_empty-Adds :
    (text : ℕ → ℕ) (line line_len n t_len : ℕ) {b : BitMap} {xs : List ℕ}
    → Holds b xs
    → be_size_ful b ≡ false
    → 0 < line_len
    → t_len ≡ n * line_len
    → line + n ≤ b.total_size
    → Adds
        (λ q. text ((q - line) * line_len + (line_len - 1)) == b' ')
        line
        n
        xs
        (fixed_align_l_for_empty text line t_len b line_len)
unfolding fixed_align_l_for_empty
fixed_align_l_for_empty-Adds text line line_len n t_len {b} v u h e fits = rw u (
    scan_column (λ j line b. some (b' ' == text (j + (line_len - 1))))
      (λ q. text ((q - line) * line_len + (line_len - 1)) == b' ') t_len line_len n 0 line v
      (λ m b l.
        let e₁ : line + m - line ≡ m = omega arith in
        let e₂ : 0 + m * line_len ≡ m * line_len = omega arith in
        (b' ' == text (0 + m * line_len + (line_len - 1)), refl, rw (e₁, e₂) (ground arith)))
      h e fits)

-- one of the `r` patterns from number `i` on is the whole line that begins at `start`
abbrev pub is_pattern : (ℕ → ℕ) → Bytes → ℕ → ℕ → ℕ → ℕ → Bool
is_pattern text patterns line_len start zero i = false
is_pattern text patterns line_len start (suc r) i =
    stands (λ k. at patterns (i * max_dicenty_len + k)) text start line_len
    || is_pattern text patterns line_len start r (suc i)

muti_hit-is_pattern :
    (text : ℕ → ℕ) (patterns : Bytes) (line_len start k r i : ℕ)
    → 0 < line_len
    → k ≡ start + (line_len - 1)
    → muti_hit text patterns (line_len - 1) k r i ≡ is_pattern text patterns line_len start r i
unfolding muti_hit
muti_hit-is_pattern text patterns line_len start k zero i h e = refl
muti_hit-is_pattern text patterns line_len start k (suc r) i h e = ground (
  arith,
  hit-stands_length (λ j. at patterns (i * max_dicenty_len + j)) text line_len start k h e,
  muti_hit-is_pattern text patterns line_len start k r (suc i) h e,
)

-- BM_Fixed_MutiFul on a column of `n` lines: a bitmap that is not full gains exactly the lines that
-- are one of the patterns as a whole.
pub bm_fixed_muti_ful-Adds :
    (text : ℕ → ℕ) (patterns : Bytes) (pat_cnt line_len n s_len : ℕ) {b : BitMap} {xs : List ℕ}
    → Holds b xs
    → be_size_ful b ≡ false
    → 0 < line_len
    → s_len ≡ n * line_len
    → n ≤ b.total_size
    → Adds
        (λ q. is_pattern text patterns line_len (q * line_len) pat_cnt 0)
        0
        n
        xs
        (bm_fixed_muti_ful text s_len patterns pat_cnt b line_len)
unfolding bm_fixed_muti_ful
bm_fixed_muti_ful-Adds text patterns pat_cnt line_len n s_len {b} v u h e fits = rw u (
    scan_column (λ k line b. some (muti_hit text patterns (line_len - 1) k pat_cnt 0))
      (λ q. is_pattern text patterns line_len (q * line_len) pat_cnt 0) s_len line_len n
      (line_len - 1) 0 v
      (λ m b l.
        let e₁ : 0 + m ≡ m = omega arith in
        (
          muti_hit text patterns (line_len - 1) (line_len - 1 + m * line_len) pat_cnt 0,
          refl,
          rw (
            e₁,
            muti_hit-is_pattern text patterns line_len (m * line_len) (line_len - 1 + m * line_len)
                pat_cnt 0 h (omega arith),
          ),
        ))
      (omega arith) e (omega arith))
