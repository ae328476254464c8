-- ===== src/BitMap.antt =====
-- cmdline_loggrep/LogStructure.h, class BitMap: a set of line numbers, held as a bitset and as the
-- array `Index` of its members. The overloads get names of their own: Reset() is `reset`, Reset(pos)
-- `reset_at`, Inset(pos) `inset_at`, Union(pos) `union_at`. A write outside `Index` is `none`.
pub mod Sets
pub mod Holds
pub mod Update
pub mod Filter
pub mod Reverse
pub mod Algebra
pub mod Clone
pub mod Total
use log_grep.Prelude.{
  ℕ, zero, suc, Bool, true, false, not, ◌||◌, ◌==◌, ltb, if◌then◌else◌, Option, none, some, ◌>>=◌,
  List, [], ◌∷◌, length, get_or, set, take, replicate,
}

-- The field `Size`: DEF_BITMAP_FULL (all lines), or the number of entries.
pub data Extent : Type 0 where
  full : Extent
  entries : ℕ → Extent

pub record BitMap : Type 0 where
  pub bitmap : ℕ → Bool
  pub index : List ℕ
  pub size : Extent
  pub total_size : ℕ

abbrev pub update : (ℕ → Bool) → ℕ → Bool → ℕ → Bool
update f pos v p = if pos == p then v else f p

-- How often a loop `for(i=0; i< Size; i++)` runs: never at the full mark, which is negative.
abbrev pub rounds : Extent → ℕ
rounds full = 0
rounds (entries n) = n

abbrev pub size_is : Extent → ℕ → Bool
size_is full m = false
size_is (entries n) m = n == m

abbrev pub is_full : Extent → Bool
is_full full = true
is_full (entries n) = false

unfoldable pub new : ℕ → BitMap
new tolsize = record {
  bitmap = λ p. false;
  index = replicate tolsize 0;
  size = entries 0;
  total_size = tolsize;
}

unfoldable pub reset : BitMap → BitMap
reset b = record b { bitmap = λ p. false; size = entries 0 }

unfoldable pub reset_size : BitMap → BitMap
reset_size b = record b { size = entries 0 }

unfoldable pub set_size : BitMap → BitMap
set_size b = record b { size = full }

unfoldable pub reset_at : ℕ → BitMap → BitMap
reset_at pos b = record b { bitmap = update b.bitmap pos false }

-- `Index[Size++] = pos`
append_at : Extent → ℕ → BitMap → Option BitMap
append_at full pos b = none
append_at (entries n) pos b =
    if ltb n (length b.index)
    then some (record b { index = set b.index n pos; size = entries (suc n) })
    else none

unfoldable pub inset_at : ℕ → BitMap → Option BitMap
unfolding append_at
inset_at pos b = append_at b.size pos b

unfoldable pub union_at : ℕ → BitMap → Option BitMap
unfolding inset_at
union_at pos b =
    if b.bitmap pos then some b else inset_at pos (record b { bitmap = update b.bitmap pos true })

-- The loop of Inset, Complement and the pruning searches: entry `i` is written back at the front
-- or its bit is cleared. `keep` sees the entry and the one behind it.
unfoldable pub compact : (ℕ → ℕ → Bool) → ℕ → ℕ → BitMap → Option BitMap
unfolding inset_at reset_at
compact keep zero i b = some b
compact keep (suc r) i b =
    let e = get_or b.index i 0 in
    (if keep e (get_or b.index (suc i) 0) then inset_at e b else some (reset_at e b))
    >>= compact keep r (suc i)

unfoldable pub inset : BitMap → BitMap → Option BitMap
unfolding compact reset reset_size
inset t b =
    if is_full t.size
    then some b
    else if size_is t.size 0
    then some (reset b)
    else compact (λ e next. t.bitmap e) (rounds b.size) 0 (reset_size b)

unfoldable pub complement : BitMap → BitMap → Option BitMap
unfolding compact reset reset_size
complement t b =
    if is_full t.size || size_is t.size b.total_size
    then some (reset b)
    else if size_is t.size 0
    then some b
    else compact (λ e next. not (t.bitmap e)) (rounds b.size) 0 (reset_size b)

-- the loop of Reverse over the lines `i`, `i + 1`, ...
reverse_from : ℕ → ℕ → BitMap → Option BitMap
unfolding inset_at reset_at
reverse_from zero i b = some b
reverse_from (suc r) i b =
    (if b.bitmap i
      then some (reset_at i b)
      else inset_at i (record b { bitmap = update b.bitmap i true }))
    >>= reverse_from r (suc i)

unfoldable pub reverse : BitMap → Option BitMap
unfolding reverse_from reset reset_size set_size
reverse b =
    if is_full b.size
    then some (reset b)
    else if size_is b.size 0
    then some (set_size b)
    else reverse_from b.total_size 0 (reset_size b)

unfoldable pub union_all : List ℕ → BitMap → Option BitMap
unfolding union_at
union_all [] b = some b
union_all (p ∷ ps) b = union_at p b >>= union_all ps

-- Union(BitMap*); `none` is the NULL target.
unfoldable pub union : Option BitMap → BitMap → Option BitMap
unfolding union_all set_size
union none b = some b
union (some t) b =
    if is_full t.size then some (set_size b) else union_all (take (rounds t.size) t.index) b

unfoldable pub get_value : BitMap → ℕ → Bool
get_value b pos = b.bitmap pos

unfoldable pub be_size_ful : BitMap → Bool
be_size_ful b = is_full b.size || size_is b.size b.total_size

unfoldable pub copy_cells : List ℕ → ℕ → List ℕ → Option (List ℕ)
copy_cells [] i cells = some cells
copy_cells (v ∷ vs) i cells =
    if ltb i (length cells) then copy_cells vs (suc i) (set cells i v) else none

unfoldable pub clone_from : BitMap → BitMap → Option BitMap
unfolding copy_cells
clone_from t b = copy_cells (take (rounds t.size) t.index) 0 b.index >>= λ cells. some (record {
  bitmap = λ p. b.bitmap p || t.bitmap p;
  index = cells;
  size = t.size;
  total_size = t.total_size;
})
