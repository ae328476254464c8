-- ===== src/Stored.antt =====
-- class SubPattern (compression/SubPattern.cpp), and the loop of proc in compression/main.cpp that cuts
-- each value of a variable by the patterns found for it.
pub mod Cut
pub mod Rows
pub mod Values
pub mod Restore
pub mod Stamps
pub mod Marks
use Prim.Native.Nat.{bit_or}
use log_grep.Prelude.{
  ℕ, zero, suc, ◌+◌, Bool, true, false, not, ◌&&◌, ◌||◌, ◌==◌, ltb, leb, if◌then◌else◌, Option,
  none, some, max, List, [], ◌∷◌, ◌++◌, map, length, take, drop,
}
use log_grep.Bytes.{Bytes, at}
use log_grep.Tags.{get_type}

-- Type 0 with const_pattern and length, type 1 with length, type 2 with nextConstant.
pub data Kind : Type 0 where
  constant : Bytes → ℕ → Kind
  fixed : ℕ → Kind
  variable : Bytes → Kind

-- `max_len` is one higher than maxLen, which begins at -1. `rows` is the array data up to
-- data_count.
pub record SubPattern : Type 0 where
  pub kind : Kind
  pub data_type : ℕ
  pub max_len : ℕ
  pub ready_add : Bytes
  pub rows : List Bytes

-- the constructor, for a type that Union has found
unfoldable pub new_sub_pattern : Kind → SubPattern
new_sub_pattern kind = record { kind = kind; data_type = 0; max_len = 0; ready_add = []; rows = [] }

-- the check of a constant, `n` bytes from its byte `w` on
unfoldable pub const_check : Bytes → ℕ → Bytes → ℕ → ℕ → Bool
const_check log str_idx const_pattern w zero = true
const_check log str_idx const_pattern w (suc n) =
    let rest = const_check log str_idx const_pattern (suc w) n in
    if leb (length log) (str_idx + w) || not (at const_pattern w == at log (str_idx + w))
    then false
    else rest

-- nextConstant at a place: `n` bytes from its byte `i` on
unfoldable pub next_matches : Bytes → ℕ → Bytes → ℕ → ℕ → Bool
next_matches log place next i zero = true
next_matches log place next i (suc n) =
    let rest = next_matches log place next (suc i) n in
    if at log (place + i) == at next i then rest else false

-- The loop for the length of a variable part, from `l` on. A round raises `l`, which stays below the
-- length of the value.
unfoldable pub variable_length : Bytes → ℕ → Bytes → ℕ → ℕ → ℕ
unfolding next_matches
variable_length log str_idx next zero l = l
variable_length log str_idx next (suc fuel) l =
    let rest = variable_length log str_idx next fuel (suc l) in
    if ltb (str_idx + l + length next) (length log)
    then (if ltb 0 (length next) && next_matches log (str_idx + l) next 0 (length next)
        then l
        else rest)
    else l

-- What a part that was read leaves.
unfoldable pub read_part : SubPattern → Bytes → SubPattern
read_part p temp = record p { data_type = bit_or p.data_type (get_type temp); ready_add = temp }

-- extract by the type, with the new strIdx, or `none` for false
unfoldable pub extract_as : Kind → SubPattern → Bytes → ℕ → SubPattern × Option ℕ
unfolding const_check variable_length read_part
extract_as (constant c n) p log str_idx =
    (p, if const_check log str_idx c 0 n then some (str_idx + n) else none)
extract_as (fixed n) p log str_idx =
    if leb (length log) str_idx || ltb (length log) (str_idx + n)
    then (p, none)
    else (read_part p (take n (drop str_idx log)), some (str_idx + n))
extract_as (variable next) p log str_idx =
    let l = variable_length log str_idx next (suc (length log)) 0 in
    if leb (length log) str_idx || ltb (length log) (str_idx + l) then (p, none) else (
      record (read_part p (take l (drop str_idx log))) { max_len = max p.max_len (suc l) },
      some (str_idx + l),
    )

-- extract
unfoldable pub extract : SubPattern → Bytes → ℕ → SubPattern × Option ℕ
unfolding extract_as
extract p log str_idx = extract_as p.kind p log str_idx

unfoldable pub add_as : Kind → Bool → SubPattern → SubPattern
add_as (constant c n) success p = p
add_as (fixed n) success p = record p {
  rows = p.rows ++ ((if success then p.ready_add else []) ∷ []);
}
add_as (variable next) success p = record p {
  rows = p.rows ++ ((if success then p.ready_add else []) ∷ []);
}

-- add
unfoldable pub add : Bool → SubPattern → SubPattern
unfolding add_as
add success p = add_as p.kind success p

-- The first loop of proc over subPatternPool for one value, up to a part that is not there.
unfoldable pub extract_all : List SubPattern → Bytes → ℕ → List SubPattern × Option ℕ
unfolding extract
extract_all [] log str_idx = ([], some str_idx)
extract_all (p ∷ ps) log str_idx =
    let (p', read) = extract p log str_idx in
    elim read [
      | none ↦ (p' ∷ ps, none)
      | some next ↦ let (ps', end) = extract_all ps log next in (p' ∷ ps', end)
    ]

-- Both loops for one value: the patterns, and whether the value is no outlier.
unfoldable pub split_value : List SubPattern → Bytes → List SubPattern × Bool
unfolding extract_all add
split_value pool log =
    let (pool', end) = extract_all pool log 0 in
    let success : Bool = elim end [ none ↦ false | some j ↦ true ] in
    (map (add success) pool', success)

-- The loop of proc over the values, from value `i` on, with the outliers and their places.
unfoldable pub split_values :
    List SubPattern → ℕ → List (ℕ × Bytes) → List Bytes → List SubPattern × List (ℕ × Bytes)
unfolding split_value
split_values pool i outlier [] = (pool, outlier)
split_values pool i outlier (v ∷ vs) =
    let (pool', success) = split_value pool v in
    split_values pool' (suc i) (if success then outlier else outlier ++ ((i, v) ∷ [])) vs
