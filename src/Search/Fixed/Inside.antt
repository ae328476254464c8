-- ===== src/Search/Fixed/Inside.antt =====
-- BM_Fixed_Anypos of cmdline_loggrep/SearchAlgorithm.cpp: its rounds on a line, and the lines that it adds.
use log_grep.Prelude.{
  ℕ, zero, suc, ◌+◌, ◌-◌, ◌*◌, ◌≤◌, ◌<◌, ◌≡◌, refl, sym, ◌∙◌, Bool, true, false, not, ◌&&◌, ◌||◌,
  ◌==◌, ltb, if◌then◌else◌, Bool-cases, inl, inr, ◌>>=◌, Option, none, some, List, length, arith,
}
use log_grep.BitMap.{BitMap, be_size_ful}
use log_grep.BitMap.Sets.{has}
use log_grep.BitMap.Holds.{Holds}
use log_grep.Bytes.{Bytes, at}
use log_grep.Search.Compare.{match_back, matched, hit}
use log_grep.Search.Compare.Laws.{stands, hit-stands_length}
use log_grep.Search.BoyerMoore.{shift, build_bad_c, build_good_s, max_pattern_size}
use log_grep.Search.BoyerMoore.Tables.{Advances, build_good_s-Advances}
use log_grep.Search.BoyerMoore.Once.{match_back-diagonal, IsAscii, build_bad_c-table, shift-goods}
use log_grep.Search.Scan.{scanned, Decides}
use log_grep.Search.Fixed.{enabled, at_least, any_rounds, bm_fixed_anypos}
use log_grep.Search.Fixed.Exact.{scan_column}

-- the pattern stands at one of the `r` positions from `d` on
abbrev pub some_place : Bytes → (ℕ → ℕ) → ℕ → ℕ → Bool
some_place p text d zero = false
some_place p text d (suc r) = stands (at p) text d (length p) || some_place p text (suc d) r

-- the line that begins at `start` contains the pattern
abbrev pub contains_pattern : Bytes → (ℕ → ℕ) → ℕ → ℕ → Bool
contains_pattern p text line_len start = some_place p text start (suc line_len - length p)

pub some_place-at :
    (p : Bytes) (text : ℕ → ℕ) (r d s : ℕ)
    → d ≤ s
    → s < d + r
    → stands (at p) text s (length p) ≡ true
    → some_place p text d r ≡ true
some_place-at p text zero d s le lt h = absurd (omega arith)
some_place-at p text (suc r) d s le lt h = elim (Bool-cases (d == s)) [
  | inl e ↦ let d_is : d ≡ s = ground arith in rw (d_is, h)
  | inr e ↦ ground (arith, some_place-at p text r (suc d) s (ground arith) (omega arith) h)
]

module _ (text : ℕ → ℕ) (s_idx t_len : ℕ) (p : Bytes) (badc goods : List ℕ) (line_len : ℕ) where
  -- An answer within the fuel, which is `true` only if the line contains the pattern.
  any_rounds_sound :
      (f k s j : ℕ)
      → Advances p goods
      → 0 < length p
      → j ≡ s + (length p - 1)
      → k ≤ s
      → s + length p ≤ k + line_len
      → k + line_len < f + s
      → ((q : ℕ) → text q < 128)
      → (h : Bool) × (any_rounds text s_idx t_len p badc goods line_len k f j ≡ some h)
        × ((h && not (contains_pattern p text line_len k)) ≡ false)
  unfolding any_rounds shift hit
  any_rounds_sound zero k s j a pos e le in_line fuel ascii = absurd (omega arith)
  any_rounds_sound (suc f) k s j a pos e le in_line fuel ascii =
      elim (Bool-cases (matched (at p) text (match_back (at p) text (length p - 1) j))) [
        | inl m ↦
            let here : stands (at p) text s (length p) ≡ true =
              sym (hit-stands_length (at p) text (length p) s j pos e) ∙ m in
            let found = some_place-at p text (suc line_len - length p) k s le (omega arith) here in
            (true, rw (m, any_rounds), rw found)
        | inr m ↦
            let d = match_back-diagonal (at p) text (length p - 1) s j e in
            let i' = (match_back (at p) text (length p - 1) j).0 in
            let j' = (match_back (at p) text (length p - 1) j).1 in
            let (w, moved, far) = shift-goods badc goods i' (text j') (ascii j') in
            let g : length p - 1 - i' < w = omega (arith, a i' (omega arith), far) in
            elim (Bool-cases (ltb (j' + w) (k + line_len))) [
              | inr over ↦ (false, rw (m, moved, over, any_rounds), refl)
              | inl more ↦
                  let (h, q, r) =
                    any_rounds_sound f k (j' + w - (length p - 1)) (j' + w) a pos (omega arith)
                      (omega arith) (ground arith) (omega arith) ascii in
                  (h, rw (m, moved, more, any_rounds) q, r)
            ]
      ]

abbrev says : Option Bool → Bool
says none = false
says (some h) = h

-- the answer of the search on the line that begins at `start`
finds : (ℕ → ℕ) → ℕ → ℕ → Bytes → ℕ → ℕ → Bool
unfolding any_rounds build_bad_c build_good_s
finds text s_idx t_len p line_len start = says (
    build_bad_c p >>= λ badc.
    any_rounds text s_idx t_len p badc (build_good_s p) line_len start (suc line_len)
      (start + (length p - 1)))

module _ (text : ℕ → ℕ) (line t_len : ℕ) (p : Bytes) (line_len : ℕ) (pos : 0 < length p)
    (table : length p ≤ max_pattern_size) (short : length p ≤ line_len)
    (ascii : (k : ℕ) → text k < 128) (badc : List ℕ) (built : build_bad_c p ≡ some badc) where
  search-line :
      (start : ℕ)
      → (h : Bool) × (any_rounds text line t_len p badc
            (build_good_s p)
            line_len
            start
            (suc line_len)
            (start + (length p - 1))
          ≡ some h)
        × ((h && not (contains_pattern p text line_len start)) ≡ false)
  search-line start =
      any_rounds_sound text line t_len p badc (build_good_s p) line_len (suc line_len) start start
        (start + (length p - 1)) (build_good_s-Advances p pos table) pos refl (omega arith)
        (omega arith) (omega arith) ascii

  finds-contains :
      (start : ℕ)
      → (finds text line t_len p line_len start && not (contains_pattern p text line_len start))
        ≡ false
  unfolding finds
  finds-contains start = let (h, q, r) = search-line start in rw (built, q) r

  anypos-Decides :
      (n : ℕ) (skip : Bool)
      → Decides
          (λ j line' b.
            if enabled skip b line'
            then any_rounds text line t_len p badc
                (build_good_s p)
                line_len
                (j - (length p - 1))
                (suc line_len)
                j
            else some false)
          (λ q. finds text line t_len p line_len ((q - line) * line_len))
          line_len
          n
          (length p - 1)
          line
  unfolding finds
  anypos-Decides n skip m b lt =
      let start = m * line_len in
      let e1 : line + m - line ≡ m = omega arith in
      let e2 : length p - 1 + m * line_len - (length p - 1) ≡ m * line_len = omega arith in
      let e3 : length p - 1 + m * line_len ≡ m * line_len + (length p - 1) = omega arith in
      let e4 : m * line_len + (length p - 1) - (length p - 1) ≡ m * line_len = omega arith in
      let (h, q, r) = search-line start in
      elim (Bool-cases (enabled skip b (line + m))) [
        | inl look ↦ (h, rw (look, e3, e4) q, rw (e1, built, q) refl)
        | inr found ↦
            let was : b.bitmap (line + m) ≡ true = ground arith in
            (false, rw found refl, rw was refl)
      ]

  added_contain :
      (xs ys : List ℕ) (n : ℕ)
      → ((q : ℕ)
          → has ys q ≡ (
              has xs q
              || scanned (λ q. finds text line t_len p line_len ((q - line) * line_len)) line n q))
      → (q : ℕ)
      → (has ys q
          && not (
              has xs q
              || scanned (λ q. contains_pattern p text line_len ((q - line) * line_len)) line n q))
        ≡ false
  added_contain xs ys n m q = ground (arith, m q, finds-contains ((q - line) * line_len))

  kept_all :
      (xs ys : List ℕ) (S : ℕ → Bool)
      → ((q : ℕ) → has ys q ≡ (has xs q || S q))
      → (q : ℕ) → (has xs q && not (has ys q)) ≡ false
  kept_all xs ys S m q = ground (arith, m q)

-- BM_Fixed_Anypos on a column of `n` lines, with a nonempty pattern that fits the tables and the lines,
-- pattern and text ASCII, and a bitmap that is not full: it ends, no access leaves badc and no write the
-- bitmap's array, it keeps the lines found before, and every line that it adds is one of the `n` and contains the pattern.
pub bm_fixed_anypos-Finds :
    (text : ℕ → ℕ) (p : Bytes) (line line_len n t_len : ℕ) {b : BitMap} {xs : List ℕ}
    → Holds b xs
    → be_size_ful b ≡ false
    → 0 < length p
    → length p ≤ max_pattern_size
    → length p ≤ line_len
    → t_len ≡ n * line_len
    → line + n ≤ b.total_size
    → IsAscii p
    → ((k : ℕ) → text k < 128)
    → (b' : BitMap) × (ys : List ℕ) × (bm_fixed_anypos text line t_len p b line_len
        ≡ some (b'.size, b'))
      × Holds b' ys
      × ((q : ℕ) → (has xs q && not (has ys q)) ≡ false)
      × ((q : ℕ)
          → (has ys q
              && not (
                  has xs q
                  || scanned
                      (λ q. contains_pattern p text line_len ((q - line) * line_len))
                      line
                      n
                      q))
            ≡ false)
unfolding bm_fixed_anypos
bm_fixed_anypos-Finds text p line line_len n t_len {b} {xs} v u pos table short e fits pattern
      ascii =
    let (badc, built) = build_bad_c-table p pattern in
    let c : ltb line_len (length p) ≡ false = ground arith in
    let skip = ltb 100 line_len && at_least b.size 50 in
    let (b', ys, q, w, m) =
      scan_column
        (λ j line' b.
          if enabled skip b line'
          then any_rounds text line t_len p badc (build_good_s p) line_len (j - (length p - 1))
              (suc line_len) j
          else some false)
        (λ q. finds text line t_len p line_len ((q - line) * line_len)) t_len line_len n
        (length p - 1) line v
        (anypos-Decides text line t_len p line_len pos table short ascii badc built n skip)
        (omega arith) e fits in
    (
      b',
      ys,
      rw (u, c, built) q,
      w,
      kept_all text line t_len p line_len pos table short ascii badc built xs ys
          (scanned (λ q. finds text line t_len p line_len ((q - line) * line_len)) line n) m,
      added_contain text line t_len p line_len pos table short ascii badc built xs ys n m,
    )
