-- ===== src/Values.antt =====
-- Padded values: the strings of compression/Encoder.cpp that fill a column's line, and what
-- cmdline_loggrep/SearchAlgorithm.cpp makes of them (RemovePadding, IntPadding, atoi).
pub mod Padding
use log_grep.Prelude.{
  ℕ, zero, suc, ◌+◌, ◌-◌, ◌*◌, ◌/◌, ◌%◌, ◌^◌, Bool, true, false, ◌&&◌, ◌==◌, ltb, leb,
  if◌then◌else◌, Option, none, some, List, [], ◌∷◌, ◌++◌, length, take, replicate,
}
use log_grep.Bytes.{Bytes}

-- Encoder::padding(filename, target, maxLen, typ); `padded` is the field `_padding`.
unfoldable pub padding : Bool → Bytes → ℕ → Bytes
padding padded target max_len =
    if padded
    then (if ltb max_len (length target)
        then target
        else replicate (max_len - length target) b' ' ++ target)
    else target ++ (10 ∷ [])

-- the loop of RemovePadding over the `len` bytes
unfoldable pub skip_padding : Bytes → Bytes
skip_padding [] = []
skip_padding (c ∷ s) = let rest = skip_padding s in if c == b' ' then rest else c ∷ s

-- RemovePadding: the length and the bytes that are copied
unfoldable pub remove_padding : Bytes → ℕ → ℕ × Bytes
unfolding skip_padding
remove_padding padded len = let s = skip_padding (take len padded) in (length s, s)

-- The loop of IntPadding, from the last of `i` cells on; `done` is what stands behind them.
unfoldable pub digits_back : ℕ → ℕ → Bytes → Bytes
digits_back zero target done = done
digits_back (suc i) target done =
    let rest = digits_back i (target / 10) ((target % 10 + b'0') ∷ done) in
    if target / 10 == 0 then replicate i b' ' ++ ((target % 10 + b'0') ∷ done) else rest

-- The same loop on a number below 0, which is `distance` away from it: `/` and `%` of C round to 0, so
-- that the cells are digits below '0'.
unfoldable pub negative_back : ℕ → ℕ → Bytes → Bytes
negative_back zero distance done = done
negative_back (suc i) distance done =
    let rest = negative_back i (distance / 10) ((b'0' - distance % 10) ∷ done) in
    if distance / 10 == 0 then replicate i b' ' ++ ((b'0' - distance % 10) ∷ done) else rest

-- IntPadding; `none` for the return value 0. MAX_DICENTY_LEN is 10. `target` is the bit pattern of an
-- `int`, which is negative from 2 ^ 31 on.
unfoldable pub int_padding : ℕ → ℕ → Option Bytes
unfolding digits_back negative_back
int_padding target max_len =
    if ltb 10 max_len
    then none
    else if ltb target (2 ^ 31)
    then some (digits_back max_len target [])
    else some (negative_back max_len (2 ^ 32 - target) [])

-- The loop of atoi; an `int` is held as its bit pattern.
unfoldable pub atoi_from : ℕ → Bytes → ℕ
atoi_from ret [] = ret
atoi_from ret (c ∷ s) =
    atoi_from (if leb b'0' c && leb c b'9' then (ret * 10 + (c - b'0')) % 2 ^ 32 else ret) s

unfoldable pub atoi : Bytes → ℕ → ℕ
unfolding atoi_from
atoi buf len = atoi_from 0 (take len buf)
