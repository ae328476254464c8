-- ===== src/Pattern/Dic/Begins.antt =====
-- The dictionaries that DicPatternMatch of cmdline_loggrep/SearchAlgorithm.cpp takes for a query that is
-- aligned at its beginning.
use log_grep.Prelude.{ℕ, ◌+◌, ◌≤◌, ◌<◌, ◌≡◌, ◌⊎◌, Bool, true, false, List, [], ◌∷◌, length}
use log_grep.Bytes.{Bytes, at}
use log_grep.Search.QueryType.{QueryType, align_full, align_left, align_right, align_any, align_dic}
use log_grep.Pattern.Matrix.{RegMatches}
use log_grep.Pattern.Dic.{DicSegment, const, var, DicVarInfo}
use log_grep.Pattern.Dic.Rows.{dic_row}

-- The constant and the source, read from `i` on, are the same as far as both go.
abbrev pub Agrees : Bytes → (ℕ → ℕ) → ℕ → ℕ → Type 0
Agrees c source sou_len i = (k : ℕ) → k < length c → i + k < sou_len → at c k ≡ source (i + k)

-- The query begins as the values of the dictionary do.
abbrev pub Begins : List DicSegment → Bytes → Type 0
Begins [] s = Unit
Begins (const c ∷ segs) s = Agrees c (at s) (length s) 0
Begins (var tag ∷ segs) s = Unit

-- the query types for which the pattern is read from its first segment on
abbrev pub reads_forward : QueryType → Bool
reads_forward align_full = true
reads_forward align_left = true
reads_forward align_right = false
reads_forward align_any = false
reads_forward align_dic = false

-- `rows'` are `rows` and, in front of them, the rows of some of the dictionaries, the last one first, each
-- of which can hold the query and begins like it.
abbrev pub AreTaken : List DicVarInfo → Bytes → List RegMatches → List RegMatches → Type 0
AreTaken [] s rows rows' = rows' ≡ rows
AreTaken (d ∷ ds) s rows rows' =
    AreTaken ds s rows rows'
    ⊎ ((length s ≤ d.len) × Begins d.segs s × AreTaken ds s (dic_row d ∷ rows) rows')
