-- ===== src/Template/Columns.antt =====
-- struct VarArray (compression/constant.h): where the values of one variable stand in the buffer. The
-- columns are the map `variable_mapping` of compression/main.cpp.
pub mod Names
pub mod Store
use Prim.Native.Nat.{bit_or}
use log_grep.Prelude.{
  ℕ, suc, ◌+◌, ◌*◌, ◌%◌, ◌^◌, ◌≤◌, ◌<◌, ◌≡◌, refl, true, ◌==◌, ltb, if◌then◌else◌, Option, none,
  some, ◌>>=◌, List, [], ◌∷◌, ◌++◌, length, length-append, get_elem?, find, put, arith,
}
use log_grep.Template.{SegTag}

-- The first nowPos cells of `startPos` and `len`, in pairs; nowPos is their number.
pub record VarArray : Type 0 where
  pub tag : ℕ
  pub cells : List (ℕ × ℕ)
  pub totsize : ℕ

unfoldable pub new_var_array : ℕ → ℕ → VarArray
new_var_array tag init_size = record { tag = tag; cells = []; totsize = init_size }

-- Add. The doubled arrays take over the cells; `none` is a write behind the arrays.
unfoldable pub add : VarArray → ℕ → ℕ → Option VarArray
add a startpos len =
    let room = if length a.cells == a.totsize then a.totsize * 2 else a.totsize in
    if ltb (length a.cells) room
    then some (record a { cells = a.cells ++ ((startpos, len) ∷ []); totsize = room })
    else none

pub record IsArray (a : VarArray) : Type 0 where
  pub roomy : 0 < a.totsize
  pub bounded : length a.cells ≤ a.totsize

-- An array that was made with a cell at least, and holds no more than its size: Add writes inside the
-- arrays, behind the cells that are there, and leaves such an array.
pub add-IsArray :
    (a : VarArray) (startpos len : ℕ)
    → IsArray a
    → (b : VarArray) × (add a startpos len ≡ some b)
      × (b.cells ≡ a.cells ++ ((startpos, len) ∷ []))
      × IsArray b
unfolding add
add-IsArray a startpos len h =
    let roomy = h.roomy in
    let bounded = h.bounded in
    let room = if length a.cells == a.totsize then a.totsize * 2 else a.totsize in
    let fits : ltb (length a.cells) room ≡ true = ground arith in
    let more = length-append a.cells ((startpos, len) ∷ []) in
    let pos : 0 < room = ground arith in
    let bound : length (a.cells ++ ((startpos, len) ∷ [])) ≤ room = ground (arith, more) in
    (
      record a { cells = a.cells ++ ((startpos, len) ∷ []); totsize = room },
      rw fits refl,
      refl,
      record { roomy = pos; bounded = bound },
    )

abbrev pub Columns : Type 0
Columns = List (ℕ × VarArray)

-- eid << POS_TEMPLATE | i << POS_VAR, as the bit pattern of an `int`
unfoldable pub var_name : ℕ → ℕ → ℕ
var_name eid i = bit_or (eid * 2 ^ 16 % 2 ^ 32) (i * 2 ^ 8 % 2 ^ 32)

-- The loop of SearchTemplate that stores the variables from `t` on. `none` is a place past the
-- segments, a column that is not there, or a write behind its arrays.
unfoldable pub store_from : ℕ → List SegTag → ℕ → List ℕ → Columns → Option Columns
unfolding add var_name
store_from eid segs t [] vars = some vars
store_from eid segs t (i ∷ places) vars = get_elem? segs i >>= λ s.
    find (var_name eid t) vars >>= λ a. add a s.start_pos s.seg_len >>= λ b.
    store_from eid segs (suc t) places (put (var_name eid t) b vars)
