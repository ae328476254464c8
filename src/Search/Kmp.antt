-- ===== src/Search/Kmp.antt =====
-- Knuth-Morris-Pratt: InitKmpNext and the two KMP functions of cmdline_loggrep/SearchAlgorithm.cpp.
-- An `int` that may be -1 (`j`, the cells of `next`) is held one higher: 0 stands for -1.
pub mod Borders
pub mod Table
pub mod First
use log_grep.Prelude.{
  ℕ, zero, suc, ◌+◌, ◌-◌, ◌*◌, Bool, true, false, ◌&&◌, ◌||◌, ◌==◌, leb, ltb, if◌then◌else◌, Option,
  none, some, ◌>>=◌, List, [], ◌∷◌, length, set, replicate,
}
use log_grep.BitMap.{BitMap, union_at}
use log_grep.Bytes.{Bytes, at}
use log_grep.Search.QueryType.{QueryType, align_full, align_left, align_right, align_any, align_dic}

-- MAX_VALUE_LEN, the cells of `next`
abbrev pub max_value_len : ℕ
max_value_len = 1024

-- The loop of InitKmpNext; `none` if the fuel ends.
unfoldable pub next_loop : Bytes → ℕ → ℕ → ℕ → List ℕ → Option (List ℕ)
next_loop t zero i j next = none
next_loop t (suc f) i j next = elim (ltb i (length t - 1)) [
  | true ↦ elim (j == 0 || at t i == at t (j - 1)) [
    | true ↦
        next_loop t f (suc i) (suc j)
          (set next (suc i) (if at t (suc i) == at t j then at next j else suc j))
    | false ↦ next_loop t f i (at next (j - 1)) next
  ]
  | false ↦ some next
]

-- InitKmpNext. Each round raises `i` or lowers `j`, so twice the length is fuel enough.
unfoldable pub init_kmp_next : Bytes → Option (List ℕ)
unfolding next_loop
init_kmp_next t = next_loop t (2 * length t + 2) 0 0 (set (replicate max_value_len 0) 0 0)

-- The loop of KMP: where `i` and `j` stand at its end.
unfoldable pub kmp_loop : (ℕ → ℕ) → ℕ → Bytes → List ℕ → ℕ → ℕ → ℕ → Option (ℕ × ℕ)
kmp_loop s s_len t next zero i j = none
kmp_loop s s_len t next (suc f) i j = elim (ltb i s_len && leb j (length t)) [
  | true ↦ elim (j == 0 || s i == at t (j - 1)) [
    | true ↦ kmp_loop s s_len t next f (suc i) (suc j)
    | false ↦ kmp_loop s s_len t next f i (at next (j - 1))
  ]
  | false ↦ some (i, j)
]

-- What KMP returns: a position or -1.
pub data Position : Type 0 where
  position : ℕ → Position
  minus_one : Position

-- the cascade on `queryType`, for a match that ends before `i`
unfoldable pub kmp_answer : QueryType → ℕ → ℕ → ℕ → Position
kmp_answer align_any s_len t_len i = position (i - t_len)
kmp_answer align_right s_len t_len i = if i == s_len then position (i - t_len) else minus_one
kmp_answer align_left s_len t_len i = if i - t_len == 0 then position (i - t_len) else minus_one
kmp_answer align_full s_len t_len i = position (i - t_len)
kmp_answer align_dic s_len t_len i = if s_len == t_len then position (i - t_len) else minus_one

-- KMP(S, T, next, queryType)
unfoldable pub kmp : (ℕ → ℕ) → ℕ → Bytes → List ℕ → QueryType → Option Position
unfolding kmp_loop kmp_answer
kmp s s_len t next query_type = kmp_loop s s_len t next (2 * s_len + 2) 0 1 >>= λ (i, j).
    some (if j == suc (length t) then kmp_answer query_type s_len (length t) i else minus_one)

-- KMP with the table of InitKmpNext
unfoldable pub kmp_search : (ℕ → ℕ) → ℕ → Bytes → QueryType → Option Position
unfolding init_kmp_next kmp
kmp_search s s_len t query_type = init_kmp_next t >>= λ next. kmp s s_len t next query_type

abbrev pub is_position : Position → Bool
is_position (position i) = true
is_position minus_one = false

-- The bytes of a line up to its '\n', and what follows that.
unfoldable pub split_line : Bytes → Bytes × Bytes
split_line [] = ([], [])
split_line (c ∷ s) =
    let (line, rest) = split_line s in if c == 10 then ([], s) else (c ∷ line, rest)

-- KMP(S, T, bitmap, queryType), for lines of different lengths: Union of each line that matches. The
-- fuel bounds the number of lines.
unfoldable pub kmp_lines : Bytes → List ℕ → QueryType → ℕ → ℕ → Bytes → BitMap → Option BitMap
unfolding kmp split_line union_at
kmp_lines t next query_type f line_no [] b = some b
kmp_lines t next query_type zero line_no (c ∷ s) b = none
kmp_lines t next query_type (suc f) line_no (c ∷ s) b =
    let (line, rest) = split_line (c ∷ s) in
    kmp (at line) (length line) t next query_type >>= λ r.
    (if is_position r then union_at line_no b else some b)
    >>= kmp_lines t next query_type f (suc line_no) rest

unfoldable pub kmp_column : Bytes → Bytes → BitMap → QueryType → Option BitMap
unfolding init_kmp_next kmp_lines
kmp_column s t b query_type =
    init_kmp_next t >>= λ next. kmp_lines t next query_type (length s) 0 s b
