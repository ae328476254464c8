-- ===== src/Pattern/Query/Stored.antt =====
-- A stored value as a full query against its own pattern: SubPatternMatch of
-- cmdline_loggrep/SearchAlgorithm.cpp; and the count of the rows that SubPatMatch_I_J leaves valid.
use log_grep.Prelude.{
  ℕ, ◌+◌, ◌-◌, ◌≤◌, ◌<◌, ◌≡◌, true, false, ◌==◌, if◌then◌else◌, Bool-cases, inl, inr, some, List,
  [], ◌∷◌, ◌++◌, length, arith,
}
use log_grep.Bytes.{Bytes, at}
use log_grep.Search.QueryType.{align_full}
use log_grep.Pattern.Matrix.{
  RegMatches, RegMatrix, new_matrix, addy, union_before, union_match_result, union_rows,
}
use log_grep.Pattern.Match.{Segment, match_full, sub_pat_match_0_j}
use log_grep.Pattern.Match.Instance.{Instance, places, forward-Instance}
use log_grep.Pattern.Query.{sub_pattern_match, by_type}

-- a matrix with the one row `ms`
abbrev pub one_row : List Segment → RegMatrix
one_row segs = record {
  rows = record { matches = places segs 0 0 []; be_valid = true } ∷ [];
  valid_cnt = 1;
}

-- For a pattern of at most 50 segments whose variables are of a fixed length, and a nonempty value of
-- it: the value, as a fully aligned query, is a full match, with one valid row that holds the place of
-- every variable, and no write leaves the arrays.
pub sub_pattern_match-Instance :
    {segs : List Segment} {s : Bytes}
    → Instance segs s
    → 0 < length s
    → length segs ≤ 50
    → sub_pattern_match segs s align_full new_matrix ≡ some (match_full, one_row segs)
unfolding sub_pattern_match by_type sub_pat_match_0_j addy
sub_pattern_match-Instance {segs} {s} p pos room =
    let some_bytes : (length s == 0) ≡ false = ground arith in
    let row : RegMatches = record { matches = []; be_valid = true } in
    let match =
      forward-Instance (at s) (length s) p 0 0 row [] new_matrix [] (omega arith)
        (λ k lt. let e : 0 + k ≡ k = omega arith in rw e) (omega arith) in
    rw (some_bytes, match)

abbrev pub count_valid : List RegMatches → ℕ
count_valid [] = 0
count_valid (r ∷ rs) = (if r.be_valid then 1 else 0) + count_valid rs

abbrev pub AllValid : List RegMatches → Type 0
AllValid [] = Unit
AllValid (r ∷ rs) = (r.be_valid ≡ true) × AllValid rs

-- a row is cleared or left alone
union_before-valid :
    (obj : RegMatches) (done : List RegMatches)
    → obj.be_valid ≡ true
    → (union_before obj done).0.be_valid ≡ (if (union_before obj done).1 then false else true)
unfolding union_before union_match_result
union_before-valid obj [] v = v
union_before-valid obj (r ∷ rs) v = ground (arith, union_before-valid obj rs)

-- The loops of SubPatMatch_I_J over valid rows: the count that comes out is that of the rows which are
-- still valid, above what the count was too high before.
pub union_rows-counts :
    (done rs : List RegMatches) (valid : ℕ)
    → AllValid rs
    → length rs ≤ valid
    → (union_rows done rs valid).1 + length rs ≡ valid + count_valid (union_rows done rs valid).0
unfolding union_rows
union_rows-counts done [] valid v le = omega arith
union_rows-counts done (r ∷ rs) valid (v, vs) le =
    let b = union_before-valid r done v in
    let rest = union_rows-counts (done ++ ((union_before r done).0 ∷ [])) rs in
    elim (Bool-cases (union_before r done).1) [
      | inl e ↦ rw (b, e, union_rows) (omega (arith, rest (valid - 1) vs (omega arith)))
      | inr e ↦ rw (b, e, union_rows) (omega (arith, rest valid vs (omega arith)))
    ]
