-- ===== src/Stored/Rows.antt =====
-- The sub-patterns of a variable (compression/SubPattern.cpp, compression/main.cpp) and the values
-- that can be read back from them.
use log_grep.Prelude.{
  ℕ, suc, ◌+◌, ◌-◌, ◌≤◌, ◌≡◌, refl, sym, ap, Bool, true, false, ltb, leb, ◌||◌, Bool-cases, inl,
  inr, Option, none, some, Option-cases, ◌>>=◌, List, [], ◌∷◌, ◌++◌, length, get_elem?, arith,
}
use log_grep.Bytes.{Bytes}
use log_grep.Template.{slice}
use log_grep.Template.Segments.{slice-append}
use log_grep.Stored.{
  Kind, constant, fixed, variable, SubPattern, variable_length, extract_as, extract, extract_all,
}
use log_grep.Stored.Cut.{part, IsKind, extract-IsReadAs, variable_length-open}

-- what a pattern has for the value `k`
abbrev pub cell_as : Kind → List Bytes → ℕ → Option Bytes
cell_as (constant c n) rows k = some c
cell_as (fixed n) rows k = get_elem? rows k
cell_as (variable next) rows k = get_elem? rows k

unfoldable pub line_of : ℕ → List SubPattern → Option Bytes
line_of k [] = some []
line_of k (p ∷ ps) = cell_as p.kind p.rows k >>= λ s. line_of k ps >>= λ rest. some (s ++ rest)

-- `k` values are stored.
abbrev pub IsFilled : Kind → ℕ → List Bytes → Type 0
IsFilled (constant c n) k rows = Unit
IsFilled (fixed n) k rows = length rows ≡ k
IsFilled (variable next) k rows = length rows ≡ k

abbrev pub AreRows : ℕ → List SubPattern → Type 0
AreRows k [] = Unit
AreRows k (p ∷ ps) = IsKind p.kind × IsFilled p.kind k p.rows × AreRows k ps

-- The last pattern is a variable part that takes what is left of a value.
abbrev pub is_open : Kind → Bool
is_open (constant c n) = false
is_open (fixed n) = false
is_open (variable []) = true
is_open (variable (c ∷ next)) = false

abbrev pub EndsOpen : List SubPattern → Type 0
EndsOpen [] = ⊥
EndsOpen (p ∷ []) = is_open p.kind ≡ true
EndsOpen (p ∷ q ∷ ps) = EndsOpen (q ∷ ps)

-- the same patterns, with the same rows
abbrev pub AreKept : List SubPattern → List SubPattern → Type 0
AreKept [] [] = Unit
AreKept [] (q ∷ qs) = ⊥
AreKept (p ∷ ps) [] = ⊥
AreKept (p ∷ ps) (q ∷ qs) = (q.kind ≡ p.kind) × (q.rows ≡ p.rows) × AreKept ps qs

AreKept-self : (ps : List SubPattern) → AreKept ps ps
AreKept-self [] = tt
AreKept-self (p ∷ ps) = (refl, refl, AreKept-self ps)

unfoldable pub parts : List SubPattern → Bytes
parts [] = []
parts (p ∷ ps) = part p.kind p.ready_add ++ parts ps

-- What extract_all says of the bytes from `idx` on.
unfoldable pub AreRead : Bytes → ℕ → List SubPattern → List SubPattern × Option ℕ → Type 0
AreRead log idx ps (qs, none) = AreKept ps qs
AreRead log idx ps (qs, some j) =
    AreKept ps qs
    × (idx ≤ j)
    × (j ≤ length log)
    × (parts qs ≡ slice log idx j)
    × (EndsOpen ps → j ≡ length log)

slice_none : (log : Bytes) (i : ℕ) → slice log i i ≡ []
slice_none log i = let e : i - i ≡ 0 = omega arith in rw e refl

-- An open part that is read ends with the value.
ReadsToEnd : Bytes → SubPattern × Option ℕ → Type 0
ReadsToEnd log (p, none) = Unit
ReadsToEnd log (p, some j) = j ≡ length log

extract_as-ReadsToEnd :
    (k : Kind) (p : SubPattern) (log : Bytes) (idx : ℕ)
    → idx ≤ length log
    → is_open k ≡ true
    → ReadsToEnd log (extract_as k p log idx)
unfolding extract_as ReadsToEnd
extract_as-ReadsToEnd (constant c n) p log idx le ends = absurd (ground arith)
extract_as-ReadsToEnd (fixed n) p log idx le ends = absurd (ground arith)
extract_as-ReadsToEnd (variable (c ∷ next)) p log idx le ends = absurd (ground arith)
extract_as-ReadsToEnd (variable []) p log idx le ends =
    let l = variable_length log idx [] (suc (length log)) 0 in
    elim (Bool-cases (leb (length log) idx || ltb (length log) (idx + l))) [
      | inl e ↦ rw e tt
      | inr e ↦ rw e (variable_length-open log idx (suc (length log)) 0 (omega arith) (omega arith))
    ]

ends_last :
    (p : SubPattern) (ps : List SubPattern) (log : Bytes) (j m : ℕ)
    → (is_open p.kind ≡ true → j ≡ length log)
    → (EndsOpen ps → m ≡ length log)
    → j ≤ m
    → m ≤ length log
    → EndsOpen (p ∷ ps)
    → m ≡ length log
ends_last p [] log j m here later le le' ends = let e = here ends in omega arith
ends_last p (q ∷ ps) log j m here later le le' ends = later ends

pub extract_all-AreRead :
    (ps : List SubPattern) (k : ℕ) (log : Bytes) (idx : ℕ)
    → AreRows k ps
    → idx ≤ length log
    → AreRead log idx ps (extract_all ps log idx)
unfolding extract_all AreRead parts ReadsToEnd extract
extract_all-AreRead [] k log idx rows le =
    (tt, omega arith, le, sym (slice_none log idx), λ e. absurd e)
extract_all-AreRead (p ∷ ps) k log idx rows le =
    let now = extract-IsReadAs p log idx rows.0 le in
    let (p', read) = extract p log idx in
    elim (Option-cases read) [
      | inl e ↦
          let pe : extract p log idx ≡ (p', none) = ap (λ r. (p', r)) e in
          let (kind, same) = rw pe at now in
          let r : extract_all (p ∷ ps) log idx ≡ (p' ∷ ps, none) = rw (extract_all, pe) refl in
          rw r (kind, same, AreKept-self ps)
      | inr (j, e) ↦
          let pe : extract p log idx ≡ (p', some j) = ap (λ r. (p', r)) e in
          let (kind, same, from, to, bytes) = rw pe at now in
          let here : is_open p.kind ≡ true → j ≡ length log =
            λ ends. rw pe at (extract_as-ReadsToEnd p.kind p log idx le ends) in
          let rest = extract_all-AreRead ps k log j rows.2 to in
          let (ps', end) = extract_all ps log j in
          elim (Option-cases end) [
            | inl stopped ↦
                let qe : extract_all ps log j ≡ (ps', none) = ap (λ r. (ps', r)) stopped in
                let r : extract_all (p ∷ ps) log idx ≡ (p' ∷ ps', none) =
                  rw (extract_all, pe, qe) refl in
                rw r (kind, same, (rw qe at rest))
            | inr (m, reached) ↦
                let qe : extract_all ps log j ≡ (ps', some m) = ap (λ r. (ps', r)) reached in
                let (kept, from', to', bytes', last) = rw qe at rest in
                let r : extract_all (p ∷ ps) log idx ≡ (p' ∷ ps', some m) =
                  rw (extract_all, pe, qe) refl in
                rw r (
                  (kind, same, kept),
                  omega arith,
                  to',
                  rw (kind, bytes, bytes') (slice-append log idx j m from from'),
                  ends_last p ps log j m here last from' to',
                )
          ]
    ]
