-- ===== src/Stored/Stamps.antt =====
-- What a pattern of compression/SubPattern.cpp says of its rows, by dataType, length and maxLen.
use Prim.Native.Nat.{bit_or}
use log_grep.Prelude.{
  ℕ, suc, ◌+◌, ◌-◌, ◌≤◌, ◌<◌, Bool, true, false, ltb, leb, ◌||◌, Bool-cases, inl, inr,
  if◌then◌else◌, max, List, [], ◌∷◌, ◌++◌, length, length-take, take, drop, arith,
}
use log_grep.Bytes.{Bytes}
use log_grep.Tags.{get_type}
use log_grep.Tags.Bits.{bit_or-lt, Covers, Covers-zero, Covers-or_left, Covers-or_right}
use log_grep.Tags.Filter.{get_type-lt}
use log_grep.Stored.{
  Kind, constant, fixed, variable, SubPattern, variable_length, read_part, extract_as, add_as,
}

-- No longer than the pattern says. `m` is one higher than maxLen.
abbrev pub IsShort : Kind → ℕ → Bytes → Type 0
IsShort (constant c n) m r = Unit
IsShort (fixed n) m r = length r ≤ n
IsShort (variable next) m r = length r ≤ m - 1

abbrev pub IsRow : Kind → ℕ → ℕ → Bytes → Type 0
IsRow k d m r = Covers (get_type r) d × IsShort k m r

abbrev pub AreRowsOf : Kind → ℕ → ℕ → List Bytes → Type 0
AreRowsOf k d m [] = Unit
AreRowsOf k d m (r ∷ rs) = IsRow k d m r × AreRowsOf k d m rs

-- The invariant of a pattern.
abbrev pub IsMarked : Kind → SubPattern → Type 0
IsMarked k p =
    (p.data_type < 64)
    × IsRow k p.data_type p.max_len p.ready_add
    × AreRowsOf k p.data_type p.max_len p.rows

-- Rows stay rows when a pattern takes more classes and longer parts.
IsRow-grow :
    (k : Kind) (d t m m' : ℕ) (r : Bytes)
    → d < 64
    → t < 64
    → m ≤ m'
    → IsRow k d m r
    → IsRow k (bit_or d t) m' r
IsRow-grow (constant c n) d t m m' r lt lt' le (tags, short) =
    (Covers-or_left (get_type r) d t lt lt' tags, tt)
IsRow-grow (fixed n) d t m m' r lt lt' le (tags, short) =
    (Covers-or_left (get_type r) d t lt lt' tags, short)
IsRow-grow (variable next) d t m m' r lt lt' le (tags, short) =
    (Covers-or_left (get_type r) d t lt lt' tags, omega arith)

AreRowsOf-grow :
    (k : Kind) (d t m m' : ℕ) (rs : List Bytes)
    → d < 64
    → t < 64
    → m ≤ m'
    → AreRowsOf k d m rs
    → AreRowsOf k (bit_or d t) m' rs
AreRowsOf-grow k d t m m' [] lt lt' le rows = tt
AreRowsOf-grow k d t m m' (r ∷ rs) lt lt' le (row, rows) =
    (IsRow-grow k d t m m' r lt lt' le row, AreRowsOf-grow k d t m m' rs lt lt' le rows)

-- A part that is read has its classes joined to dataType.
IsMarked-read :
    (k : Kind) (p : SubPattern) (m : ℕ) (temp : Bytes)
    → p.max_len ≤ m
    → IsShort k m temp
    → IsMarked k p
    → IsMarked k (record (read_part p temp) { max_len = m })
unfolding read_part
IsMarked-read k p m temp le short (lt, ready, rows) =
    let lt' = get_type-lt temp in
    (
      bit_or-lt p.data_type (get_type temp) lt lt',
      (Covers-or_right p.data_type (get_type temp) lt lt', short),
      AreRowsOf-grow k p.data_type (get_type temp) p.max_len m p.rows lt lt' le rows,
    )

pub extract_as-IsMarked :
    (k : Kind) (p : SubPattern) (log : Bytes) (idx : ℕ)
    → IsMarked k p
    → IsMarked k (extract_as k p log idx).0
unfolding extract_as
extract_as-IsMarked (constant c n) p log idx h = h
extract_as-IsMarked (fixed n) p log idx h =
    elim (Bool-cases (leb (length log) idx || ltb (length log) (idx + n))) [
      | inl e ↦ rw e h
      | inr e ↦ rw e (
          IsMarked-read (fixed n) p p.max_len (take n (drop idx log)) (omega arith)
            (omega (arith, length-take n (drop idx log))) h)
    ]
extract_as-IsMarked (variable next) p log idx h =
    let l = variable_length log idx next (suc (length log)) 0 in
    elim (Bool-cases (leb (length log) idx || ltb (length log) (idx + l))) [
      | inl e ↦ rw e h
      | inr e ↦ rw e (
          IsMarked-read (variable next) p (max p.max_len (suc l)) (take l (drop idx log))
            (ground arith) (ground (arith, length-take l (drop idx log))) h)
    ]

pub IsRow-none : (k : Kind) (d m : ℕ) → d < 64 → IsRow k d m []
unfolding get_type
IsRow-none (constant c n) d m lt = (Covers-zero d lt, tt)
IsRow-none (fixed n) d m lt = (Covers-zero d lt, omega arith)
IsRow-none (variable next) d m lt = (Covers-zero d lt, omega arith)

AreRowsOf-behind :
    (k : Kind) (d m : ℕ) (rs : List Bytes) (r : Bytes)
    → AreRowsOf k d m rs
    → IsRow k d m r
    → AreRowsOf k d m (rs ++ (r ∷ []))
AreRowsOf-behind k d m [] r rows row = (row, tt)
AreRowsOf-behind k d m (u ∷ rs) r (here, rows) row = (here, AreRowsOf-behind k d m rs r rows row)

added-IsRow :
    (k : Kind) (success : Bool) (p : SubPattern)
    → IsMarked k p
    → IsRow k p.data_type p.max_len (if success then p.ready_add else [])
added-IsRow k true p h = h.1
added-IsRow k false p h = IsRow-none k p.data_type p.max_len h.0

pub add_as-IsMarked :
    (k : Kind) (success : Bool) (p : SubPattern) → IsMarked k p → IsMarked k (add_as k success p)
unfolding add_as
add_as-IsMarked (constant c n) success p h = h
add_as-IsMarked (fixed n) success p h =
    let row = added-IsRow (fixed n) success p h in
    (
      h.0,
      h.1,
      AreRowsOf-behind (fixed n) p.data_type p.max_len p.rows (if success then p.ready_add else [])
          h.2 row,
    )
add_as-IsMarked (variable next) success p h =
    let row = added-IsRow (variable next) success p h in
    (
      h.0,
      h.1,
      AreRowsOf-behind (variable next) p.data_type p.max_len p.rows
          (if success then p.ready_add else []) h.2 row,
    )
