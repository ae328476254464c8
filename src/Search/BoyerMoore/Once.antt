-- ===== src/Search/BoyerMoore/Once.antt =====
-- BM_Once of cmdline_loggrep/SearchAlgorithm.cpp: its rounds, and the position that it returns.
use log_grep.Prelude.{
  ℕ, zero, suc, ◌+◌, ◌-◌, ◌≤◌, ◌<◌, ◌≡◌, Bool, true, ◌&&◌, ltb, Bool-cases, inl, inr, refl,
  if◌then◌else◌, some, set, List, [], ◌∷◌, length, arith, ltb→lt,
}
use log_grep.Bytes.{Bytes, at}
use log_grep.Search.Compare.{match_back, matched, hit}
use log_grep.Search.Compare.Laws.{stands, hit-stands}
use log_grep.Search.BoyerMoore.{
  Found, found, not_found, no_fuel, fault, bad_from, bm_once, shift, once_loop, build_bad_c,
  build_good_s, bm_search, max_pattern_size,
}
use log_grep.Search.BoyerMoore.Tables.{Advances, build_good_s-Advances}

-- Where the backward loop stops: it goes left by as much in the text as in the pattern.
pub match_back-diagonal :
    (p t : ℕ → ℕ) (i s j : ℕ)
    → j ≡ s + i
    → ((match_back p t i j).0 ≤ i) × ((match_back p t i j).1 ≡ s + (match_back p t i j).0)
unfolding match_back
match_back-diagonal p t zero s j e = omega arith
match_back-diagonal p t (suc i) s j e =
    ground (arith, match_back-diagonal p t i s (j - 1) (omega arith))

-- A reported position is one where the whole pattern stands, inside the line.
abbrev pub Reports : Bytes → (ℕ → ℕ) → ℕ → Found → Type 0
Reports p text text_len (found j) =
    (j + length p ≤ text_len) × (stands (at p) text j (length p) ≡ true)
Reports p text text_len not_found = Unit
Reports p text text_len no_fuel = ⊥
Reports p text text_len fault = ⊥

-- no byte above 127
abbrev pub IsAscii : Bytes → Type 0
IsAscii [] = Unit
IsAscii (c ∷ s) = (c < 128) × IsAscii s

abbrev pub all_ascii : Bytes → Bool
all_ascii [] = true
all_ascii (c ∷ s) = ltb c 128 && all_ascii s

pub all_ascii-IsAscii : (s : Bytes) → all_ascii s ≡ true → IsAscii s
all_ascii-IsAscii [] h = tt
all_ascii-IsAscii (c ∷ s) h = (ground arith, all_ascii-IsAscii s (ground arith))

pub at-IsAscii : (s : Bytes) → all_ascii s ≡ true → (k : ℕ) → at s k < 128
at-IsAscii [] h k = omega arith
at-IsAscii (c ∷ s) h zero = ground arith
at-IsAscii (c ∷ s) h (suc k) = at-IsAscii s (ground arith) k

bad_from-table :
    (p_len i : ℕ) (p : Bytes) (badc : List ℕ)
    → IsAscii p
    → (t : List ℕ) × (bad_from p_len i p badc ≡ some t)
unfolding bad_from
bad_from-table p_len i [] badc h = (badc, refl)
bad_from-table p_len i (c ∷ p) badc h =
    let (t, e) = bad_from-table p_len (suc i) p (set badc c (p_len - 1 - i)) h.1 in
    let low : ltb c 128 ≡ true = let lt = h.0 in ground arith in (t, rw (low, e) refl)

pub build_bad_c-table : (p : Bytes) → IsAscii p → (t : List ℕ) × (build_bad_c p ≡ some t)
unfolding build_bad_c
build_bad_c-table p h = bad_from-table (length p) 0 p _ h

-- A read inside of `badc`, and a shift of what `goods` has at least.
pub shift-goods :
    (badc goods : List ℕ) (i ch : ℕ)
    → ch < 128
    → (w : ℕ) × (shift badc goods i ch ≡ some w) × (at goods i ≤ w)
unfolding shift
shift-goods badc goods i ch lt =
    let low : ltb ch 128 ≡ true = ground arith in
    (if ltb (at badc ch) (at goods i) then at goods i else at badc ch, rw low refl, ground arith)

module _ (p : Bytes) (text : ℕ → ℕ) (text_len : ℕ) (badc goods : List ℕ) (h : 0 < length p) where
  stop_found :
      (s j : ℕ)
      → j ≡ s + (length p - 1)
      → j < text_len
      → matched (at p) text (match_back (at p) text (length p - 1) j) ≡ true
      → Reports p text text_len (found (match_back (at p) text (length p - 1) j).1)
  unfolding hit
  stop_found s j e l m =
      let d = match_back-diagonal (at p) text (length p - 1) s j e in
      let z : (match_back (at p) text (length p - 1) j).0 ≡ 0 =
        matched_zero (at p) text (match_back (at p) text (length p - 1) j) m in
      let q : (match_back (at p) text (length p - 1) j).1 ≡ s = omega arith in
      let n : suc (length p - 1) ≡ length p = omega arith in
      rw q (omega arith, rw (← n) (rw (← (hit-stands (at p) text (length p - 1) s j e)) m))
    where
      matched_zero : (f g : ℕ → ℕ) (st : ℕ × ℕ) → matched f g st ≡ true → st.0 ≡ 0
      matched_zero f g (i, k) m = ground arith

  once_loop-Reports :
      (f s j : ℕ)
      → Advances p goods
      → j ≡ s + (length p - 1)
      → 0 < f
      → text_len < f + s
      → ((k : ℕ) → k < text_len → text k < 128)
      → Reports p text text_len (once_loop p text text_len badc goods f j)
  unfolding once_loop
  once_loop-Reports zero s j a e pos fuel ascii = absurd (omega arith)
  once_loop-Reports (suc f) s j a e pos fuel ascii = elim (Bool-cases (ltb j text_len)) [
    | inr past ↦ rw (past, once_loop) tt
    | inl l ↦ elim (Bool-cases (matched (at p) text (match_back (at p) text (length p - 1) j))) [
      | inl m ↦ rw (l, m, once_loop) (stop_found s j e (ltb→lt j text_len l) m)
      | inr m ↦
          let d = match_back-diagonal (at p) text (length p - 1) s j e in
          let i' = (match_back (at p) text (length p - 1) j).0 in
          let j' = (match_back (at p) text (length p - 1) j).1 in
          let k : j < text_len = ltb→lt j text_len l in
          let (w, moved, far) = shift-goods badc goods i' (text j') (ascii j' (omega arith)) in
          let g : length p - 1 - i' < w = omega (arith, a i' (omega arith), far) in
          let r : s + length p ≤ j' + w = omega arith in
          rw (l, m, moved, once_loop)
            (once_loop-Reports f (j' + w - (length p - 1)) (j' + w) a (omega arith) (omega arith)
              (omega arith) ascii)
    ]
  ]

-- BM_Once with the tables of InitBM ends on every line of ASCII bytes, for every nonempty ASCII pattern
-- that fits the tables, and stays inside of badc; a position that it returns lies in the line, and the
-- whole pattern stands there.
pub bm_search-Reports :
    (p : Bytes) (text : ℕ → ℕ) (text_len : ℕ)
    → 0 < length p
    → length p ≤ max_pattern_size
    → IsAscii p
    → ((k : ℕ) → k < text_len → text k < 128)
    → Reports p text text_len (bm_search text p text_len)
unfolding bm_search bm_once
bm_search-Reports p text text_len h s pattern ascii =
    let (badc, built) = build_bad_c-table p pattern in
    let run : bm_search text p text_len ≡ bm_once text p text_len badc (build_good_s p) =
      rw (bm_search, built) refl in
    rw run (
      once_loop-Reports p text text_len badc (build_good_s p) h (suc text_len) 0 (length p - 1)
        (build_good_s-Advances p h s) (omega arith) (omega arith) (omega arith) ascii)
