-- ===== src/Logic.antt =====
-- The logic of queries in cmdline_loggrep/LogStore_API.cpp: SearchByLogic_norm and SearchByLogic_not,
-- which go through the patterns with the lines that are left of each. The searches in a pattern are an
-- interface.
pub mod Entries
pub mod Passes
pub mod Run
pub mod Steps
use log_grep.Prelude.{
  ℕ, Bool, true, false, not, ◌&&◌, ◌||◌, if◌then◌else◌, Option, none, some, ◌>>=◌, List, [], ◌∷◌,
  find, put,
}
use log_grep.Bytes.{Bytes}
use log_grep.BitMap.{
  BitMap, new, reset, set_size, size_is, is_full, be_size_ful, complement, reverse,
}

pub record LogPattern : Type 0 where
  pub count : ℕ
  pub content : Bytes

-- What mCount tells apart: one token (1), several tokens with delimiters (0), a token with a star in
-- its middle (2).
pub data Query : Type 0 where
  single : Bytes → Query
  multi : List Bytes → Query
  axb : Bytes → Bytes → Query

-- The searches that the logic calls, each with the bitmap that it writes to: in a whole pattern, and
-- (the _RefMap functions) among the lines of a second bitmap. The last two read the outliers; `true`
-- asks for the lines without the token. `none` is a fault.
pub record Searches : Type 0 where
  pub single_in_pattern : Bytes → LogPattern → BitMap → Option BitMap
  pub multi_in_pattern : List Bytes → LogPattern → BitMap → Option BitMap
  pub axb_in_pattern : Bytes → Bytes → LogPattern → BitMap → Option BitMap
  pub single_ref_map : Bytes → LogPattern → BitMap → BitMap → Option BitMap
  pub multi_ref_map : List Bytes → LogPattern → BitMap → BitMap → Option BitMap
  pub outliers_single : Bytes → Bool → BitMap → Option BitMap
  pub outliers_multi : List Bytes → Bool → BitMap → Option BitMap

unfoldable pub in_pattern : Searches → Query → LogPattern → BitMap → Option BitMap
in_pattern s (single w) pat b = s.single_in_pattern w pat b
in_pattern s (multi args) pat b = s.multi_in_pattern args pat b
in_pattern s (axb w v) pat b = s.axb_in_pattern w v pat b

-- The call for A*B is commented out.
unfoldable pub ref_map : Searches → Query → LogPattern → BitMap → BitMap → Option BitMap
ref_map s (single w) pat b ref = s.single_ref_map w pat b ref
ref_map s (multi args) pat b ref = s.multi_ref_map args pat b ref
ref_map s (axb w v) pat b ref = some b

unfoldable pub outliers : Searches → Query → Bool → BitMap → Option BitMap
outliers s (single w) inverse b = s.outliers_single w inverse b
outliers s (multi args) inverse b = s.outliers_multi args inverse b
outliers s (axb w v) inverse b = some b

-- An entry of LISTBITMAPS: `some none` is a NULL, `none` a key that is not there.
abbrev pub Entry : Type 0
Entry = Option (Option BitMap)

-- An empty bitmap is deleted, and NULL takes its place.
unfoldable pub unless_empty : BitMap → Option BitMap
unless_empty b = if size_is b.size 0 then none else some b

-- SearchByLogic_norm for one pattern
unfoldable pub norm_entry : Searches → Query → LogPattern → Entry → Option (Option BitMap)
unfolding in_pattern ref_map unless_empty new reset
norm_entry s q pat none = in_pattern s q pat (new pat.count) >>= λ b. some (unless_empty b)
norm_entry s q pat (some none) = some none
norm_entry s q pat (some (some b)) =
    if be_size_ful b
    then (in_pattern s q pat (reset b) >>= λ b'. some (unless_empty b'))
    else if size_is b.size 0
    then some none
    else ref_map s q pat (new pat.count) b >>= λ b'. some (unless_empty b')

-- SearchByLogic_not for one pattern; `exchange` is m_glbExchgLogicmap. A key that is not there is made
-- with NULL by the look-up.
unfoldable pub not_entry : Searches → BitMap → Query → LogPattern → Entry → Option (Option BitMap)
unfolding in_pattern ref_map unless_empty reset complement reverse be_size_ful
not_entry s exchange q pat none = some none
not_entry s exchange q pat (some none) = some none
not_entry s exchange q pat (some (some b)) =
    if be_size_ful b
    then (in_pattern s q pat (reset b) >>= λ b'.
        if be_size_ful b' then some none else reverse b' >>= λ b''. some (some b''))
    else if size_is b.size 0
    then some (some b)
    else ref_map s q pat (reset exchange) b >>= λ found.
        complement found b >>= λ b'. some (unless_empty b')

-- The loop over m_patterns.
unfoldable pub each_pattern :
    (LogPattern → Entry → Option (Option BitMap))
    → List (ℕ × LogPattern)
    → List (ℕ × Option BitMap)
    → Option (List (ℕ × Option BitMap))
each_pattern step [] bitmaps = some bitmaps
each_pattern step ((k, pat) ∷ pats) bitmaps =
    step pat (find k bitmaps) >>= λ e. each_pattern step pats (put k e bitmaps)

-- the part of SearchByLogic_norm for the outliers; `lines` is their number
unfoldable pub norm_outliers : Searches → Query → ℕ → Entry → Option (Option BitMap)
unfolding outliers unless_empty new set_size
norm_outliers s q lines none =
    outliers s q false (set_size (new lines)) >>= λ b. some (unless_empty b)
norm_outliers s q lines (some none) = some none
norm_outliers s q lines (some (some b)) =
    if is_full b.size || size_is b.size 0
    then some (some b)
    else outliers s q false b >>= λ b'. some (unless_empty b')

unfoldable pub not_outliers : Searches → Query → Entry → Option (Option BitMap)
unfolding outliers unless_empty
not_outliers s q none = some none
not_outliers s q (some none) = some none
not_outliers s q (some (some b)) =
    if is_full b.size || size_is b.size 0
    then some (some b)
    else outliers s q true b >>= λ b'. some (unless_empty b')

-- SearchByLogic_norm; `outl` is OUTL_PAT_NAME
unfoldable pub search_by_logic_norm :
    Searches
    → ℕ
    → ℕ
    → List (ℕ × LogPattern)
    → Query
    → List (ℕ × Option BitMap)
    → Option (List (ℕ × Option BitMap))
unfolding norm_entry each_pattern norm_outliers
search_by_logic_norm s outl lines pats q bitmaps =
    each_pattern (norm_entry s q) pats bitmaps >>= λ bitmaps'.
    norm_outliers s q lines (find outl bitmaps') >>= λ e. some (put outl e bitmaps')

-- SearchByLogic_not
unfoldable pub search_by_logic_not :
    Searches
    → BitMap
    → ℕ
    → List (ℕ × LogPattern)
    → Query
    → List (ℕ × Option BitMap)
    → Option (List (ℕ × Option BitMap))
unfolding not_entry each_pattern not_outliers
search_by_logic_not s exchange outl pats q bitmaps =
    each_pattern (not_entry s exchange q) pats bitmaps >>= λ bitmaps'.
    not_outliers s q (find outl bitmaps') >>= λ e. some (put outl e bitmaps')
