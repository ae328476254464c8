-- ===== src/Search/BoyerMoore.antt =====
-- Boyer-Moore: BuildBadC, BuildGoodS and BM_Once of cmdline_loggrep/SearchAlgorithm.cpp. The tables
-- are arrays of MAX_PATTERN_SIZE cells; patterns are nonempty and shorter than that. A `char` is signed: a byte above 127 is
-- a negative index, at which a read or a write leaves the table.
-- The maps that keep the tables of earlier patterns return what the functions would build again.
pub mod Tables
pub mod Once
use log_grep.Prelude.{
  ℕ, zero, suc, ◌+◌, ◌-◌, Bool, true, false, not, ◌&&◌, ◌==◌, ltb, leb, if◌then◌else◌, max, Option,
  none, some, List, [], ◌∷◌, length, get_or, set, replicate,
}
use log_grep.Bytes.{Bytes, at}
use log_grep.Search.Compare.{left_from, match_back, matched}

-- MAX_PATTERN_SIZE
abbrev pub max_pattern_size : ℕ
max_pattern_size = 300

-- `badc[pattern[i]] = pLen - 1 - i`, for the bytes from `i` on; `none` is a write outside of the table.
unfoldable pub bad_from : ℕ → ℕ → Bytes → List ℕ → Option (List ℕ)
bad_from p_len i [] badc = some badc
bad_from p_len i (c ∷ p) badc =
    let rest = bad_from p_len (suc i) p (set badc c (p_len - 1 - i)) in
    if ltb c 128 then rest else none

unfoldable pub build_bad_c : Bytes → Option (List ℕ)
unfolding bad_from
build_bad_c p = bad_from (length p) 0 p (replicate max_pattern_size (length p))

-- `memcmp(pattern + i, pattern + j, n) == 0`
unfoldable pub mem_eq : Bytes → ℕ → ℕ → ℕ → Bool
unfolding left_from
mem_eq p i j n = left_from (λ k. at p (i + k)) (λ k. at p (j + k)) n

-- The body of the inner loop at `j`: the table, and `c`.
unfoldable pub good_step : Bytes → ℕ → ℕ → List ℕ × ℕ → List ℕ × ℕ
unfolding mem_eq
good_step p i j (goods, c) =
    if mem_eq p i j (length p - i)
    then if j == 0
      then (goods, length p - i)
      else if at p (i - 1) == at p (j - 1)
      then (goods, c)
      else (set goods (i - 1) (j - 1), c)
    else (goods, c)

-- `for(j = 0; j < i; ++j)`: the rounds left, and `j`
unfoldable pub good_inner : Bytes → ℕ → ℕ → ℕ → List ℕ × ℕ → List ℕ × ℕ
unfolding good_step
good_inner p i zero j st = st
good_inner p i (suc r) j st = good_inner p i r (suc j) (good_step p i j st)

-- `for(i = pLen - 1; i != 0; --i)`
unfoldable pub good_outer : Bytes → ℕ → List ℕ × ℕ → List ℕ × ℕ
unfolding good_inner
good_outer p zero st = st
good_outer p (suc i) st = good_outer p i (good_inner p (suc i) (suc i) 0 st)

-- The last loop turns a position into a shift. `g` is the entry at `i`.
unfoldable pub good_shift : ℕ → ℕ → ℕ → ℕ → ℕ
good_shift p_len c i g =
    if g == p_len
    then if not (c == 0) && leb c (p_len - 1 - i) then p_len - 1 - i + g - c else p_len - 1 - i + g
    else p_len - 1 - g

unfoldable pub good_final : ℕ → ℕ → ℕ → ℕ → List ℕ → List ℕ
unfolding good_shift
good_final p_len c zero i goods = goods
good_final p_len c (suc r) i goods =
    good_final p_len c r (suc i) (set goods i (good_shift p_len c i (at goods i)))

unfoldable pub build_good_s : Bytes → List ℕ
unfolding good_outer good_final
build_good_s p =
    let p_len = length p in
    let (goods, c) =
      good_outer p (p_len - 1) (set (replicate max_pattern_size p_len) (p_len - 1) 1, 0) in
    good_final p_len c (p_len - 1) 0 goods

-- `goods[i] > badc[text[j]] ? goods[i] : badc[text[j]]`; `none` is a read outside of `badc`.
unfoldable pub shift : List ℕ → List ℕ → ℕ → ℕ → Option ℕ
shift badc goods i ch =
    if ltb ch 128
    then some (if ltb (at badc ch) (at goods i) then at goods i else at badc ch)
    else none

-- What BM_Once returns: the position of a match, -1, no answer within the fuel, or an access outside
-- of `badc`.
pub data Found : Type 0 where
  found : ℕ → Found
  not_found : Found
  no_fuel : Found
  fault : Found

-- `text` reads from the start of the line on.
unfoldable pub once_loop : Bytes → (ℕ → ℕ) → ℕ → List ℕ → List ℕ → ℕ → ℕ → Found
unfolding match_back matched shift
once_loop p text text_len badc goods zero j = no_fuel
once_loop p text text_len badc goods (suc f) j = elim (ltb j text_len) [
  | true ↦
      let (i', j') = match_back (at p) text (length p - 1) j in
      elim (matched (at p) text (i', j')) [
        | true ↦ found j'
        | false ↦ elim (shift badc goods i' (text j')) [
          | none ↦ fault
          | some w ↦ once_loop p text text_len badc goods f (j' + w)
        ]
      ]
  | false ↦ not_found
]

-- BM_Once. Each round moves the window by one at least, so `textLen` rounds and one are enough.
unfoldable pub bm_once : (ℕ → ℕ) → Bytes → ℕ → List ℕ → List ℕ → Found
unfolding once_loop
bm_once text p text_len badc goods =
    once_loop p text text_len badc goods (suc text_len) (length p - 1)

-- BM_Once with the tables that InitBM builds
unfoldable pub bm_search : (ℕ → ℕ) → Bytes → ℕ → Found
unfolding bm_once build_bad_c build_good_s
bm_search text p text_len = elim (build_bad_c p) [
  | none ↦ fault
  | some badc ↦ bm_once text p text_len badc (build_good_s p)
]
