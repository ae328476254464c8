-- ===== src/Stored/Values.antt =====
-- The loops of proc over the values of a variable (compression/main.cpp).
use log_grep.Prelude.{
  ℕ, zero, suc, ◌<◌, ◌≡◌, refl, sym, ap, ◌∙◌, Bool, true, false, if◌then◌else◌, none, some,
  Option-cases, List, [], ◌∷◌, ◌++◌, map, length, take, ◌-◌, subst, length-append, get_elem?, arith,
  inl, inr,
}
use log_grep.Bytes.{Bytes}
use log_grep.Template.{slice}
use log_grep.Template.Columns.Store.{get_elem?-behind}
use log_grep.Stored.{
  Kind, constant, fixed, variable, SubPattern, add_as, add, extract_all, split_value,
}
use log_grep.Stored.Cut.{part}
use log_grep.Stored.Rows.{
  cell_as, line_of, IsFilled, AreRows, EndsOpen, AreKept, parts, AreRead, extract_all-AreRead,
}

get_elem?-in_front {ℓ} :
    {A : Type ℓ} (xs ys : List A) (j : ℕ) → j < length xs → get_elem? (xs ++ ys) j ≡ get_elem? xs j
get_elem?-in_front [] ys j lt = absurd (omega arith)
get_elem?-in_front (x ∷ xs) ys zero lt = refl
get_elem?-in_front (x ∷ xs) ys (suc j) lt = get_elem?-in_front xs ys j (omega arith)

add_as-kind : (k : Kind) (success : Bool) (q : SubPattern) → (add_as k success q).kind ≡ q.kind
unfolding add_as
add_as-kind (constant c n) success q = refl
add_as-kind (fixed n) success q = refl
add_as-kind (variable next) success q = refl

add_as-IsFilled :
    (kd : Kind) (success : Bool) (q : SubPattern) (k : ℕ)
    → IsFilled kd k q.rows
    → IsFilled kd (suc k) (add_as kd success q).rows
unfolding add_as
add_as-IsFilled (constant c n) success q k h = tt
add_as-IsFilled (fixed n) success q k h =
    omega (arith, length-append q.rows ((if success then q.ready_add else []) ∷ []))
add_as-IsFilled (variable next) success q k h =
    omega (arith, length-append q.rows ((if success then q.ready_add else []) ∷ []))

add_as-cell :
    (kd : Kind) (q : SubPattern) (k : ℕ)
    → IsFilled kd k q.rows
    → cell_as kd (add_as kd true q).rows k ≡ some (part kd q.ready_add)
unfolding add_as
add_as-cell (constant c n) q k h = refl
add_as-cell (fixed n) q k h = rw (sym h) (get_elem?-behind q.rows q.ready_add)
add_as-cell (variable next) q k h = rw (sym h) (get_elem?-behind q.rows q.ready_add)

add_as-cell_before :
    (kd : Kind) (success : Bool) (q : SubPattern) (k j : ℕ)
    → IsFilled kd k q.rows
    → j < k
    → cell_as kd (add_as kd success q).rows j ≡ cell_as kd q.rows j
unfolding add_as
add_as-cell_before (constant c n) success q k j h lt = refl
add_as-cell_before (fixed n) success q k j h lt =
    get_elem?-in_front q.rows ((if success then q.ready_add else []) ∷ []) j (omega arith)
add_as-cell_before (variable next) success q k j h lt =
    get_elem?-in_front q.rows ((if success then q.ready_add else []) ∷ []) j (omega arith)

pub add-kind : (success : Bool) (q : SubPattern) → (add success q).kind ≡ q.kind
unfolding add
add-kind success q = add_as-kind q.kind success q

-- Every pattern has a row more.
added-AreRows :
    (ps qs : List SubPattern) (success : Bool) (k : ℕ)
    → AreKept ps qs
    → AreRows k ps
    → AreRows (suc k) (map (add success) qs)
unfolding add
added-AreRows [] [] success k kept rows = tt
added-AreRows [] (q ∷ qs) success k kept rows = absurd kept
added-AreRows (p ∷ ps) [] success k kept rows = absurd kept
added-AreRows (p ∷ ps) (q ∷ qs) success k (kind, same, kept) (ok, filled, rows) =
    let e : (add success q).kind ≡ p.kind = add-kind success q ∙ kind in
    let before : IsFilled p.kind k q.rows = rw same filled in
    let after : IsFilled q.kind (suc k) (add_as q.kind success q).rows =
      add_as-IsFilled q.kind success q k (rw kind before) in
    (rw e ok, rw (add-kind success q) after, added-AreRows ps qs success k kept rows)

added-EndsOpen :
    (ps qs : List SubPattern) (success : Bool)
    → AreKept ps qs
    → EndsOpen ps
    → EndsOpen (map (add success) qs)
added-EndsOpen [] qs success kept ends = absurd ends
added-EndsOpen (p ∷ ps) [] success kept ends = absurd kept
added-EndsOpen (p ∷ []) (q ∷ []) success (kind, same, kept) ends =
    rw (add-kind success q, kind) ends
added-EndsOpen (p ∷ []) (q ∷ r ∷ qs) success (kind, same, kept) ends = absurd kept
added-EndsOpen (p ∷ o ∷ ps) (q ∷ []) success (kind, same, kept) ends = absurd kept
added-EndsOpen (p ∷ o ∷ ps) (q ∷ r ∷ qs) success (kind, same, kept) ends =
    added-EndsOpen (o ∷ ps) (r ∷ qs) success kept ends

-- The new row has the parts that were read.
added-line :
    (ps qs : List SubPattern) (k : ℕ)
    → AreKept ps qs
    → AreRows k ps
    → line_of k (map (add true) qs) ≡ some (parts qs)
unfolding line_of parts add
added-line [] [] k kept rows = refl
added-line [] (q ∷ qs) k kept rows = absurd kept
added-line (p ∷ ps) [] k kept rows = absurd kept
added-line (p ∷ ps) (q ∷ qs) k (kind, same, kept) (ok, filled, rows) =
    let before : IsFilled p.kind k q.rows = rw same filled in
    let here : cell_as (add true q).kind (add true q).rows k ≡ some (part q.kind q.ready_add) =
      rw (add-kind true q) (add_as-cell q.kind q k (rw kind before)) in
    rw (here, added-line ps qs k kept rows) refl

-- The rows before stay.
added-line_before :
    (ps qs : List SubPattern) (success : Bool) (k j : ℕ)
    → AreKept ps qs
    → AreRows k ps
    → j < k
    → line_of j (map (add success) qs) ≡ line_of j ps
unfolding line_of add
added-line_before [] [] success k j kept rows lt = refl
added-line_before [] (q ∷ qs) success k j kept rows lt = absurd kept
added-line_before (p ∷ ps) [] success k j kept rows lt = absurd kept
added-line_before (p ∷ ps) (q ∷ qs) success k j (kind, same, kept) (ok, filled, rows) lt =
    let before : IsFilled p.kind k q.rows = rw same filled in
    let here : cell_as (add success q).kind (add success q).rows j ≡ cell_as q.kind q.rows j =
      rw (add-kind success q) (add_as-cell_before q.kind success q k j (rw kind before) lt) in
    let there : cell_as q.kind q.rows j ≡ cell_as p.kind p.rows j = rw (kind, same) refl in
    rw (here, there, added-line_before ps qs success k j kept rows lt) refl

-- What split_value leaves for the value `k`.
unfoldable pub IsSplit : ℕ → Bytes → List SubPattern → List SubPattern × Bool → Type 0
IsSplit k v pool (pool', success) =
    AreRows (suc k) pool'
    × EndsOpen pool'
    × (success ≡ true → line_of k pool' ≡ some v)
    × ((j : ℕ) → j < k → line_of j pool' ≡ line_of j pool)

take-length : (v : Bytes) → take (length v) v ≡ v
take-length [] = refl
take-length (c ∷ v) = ap (λ s. c ∷ s) (take-length v)

slice_whole : (v : Bytes) → slice v 0 (length v) ≡ v
slice_whole v = let e : length v - 0 ≡ length v = omega arith in rw e (take-length v)

pub split_value-IsSplit :
    (pool : List SubPattern) (k : ℕ) (v : Bytes)
    → AreRows k pool
    → EndsOpen pool
    → IsSplit k v pool (split_value pool v)
unfolding split_value AreRead IsSplit
split_value-IsSplit pool k v rows ends =
    let reads = extract_all-AreRead pool k v 0 rows (omega arith) in
    let (qs, end) = extract_all pool v 0 in
    elim (Option-cases end) [
      | inl e ↦
          let qe : extract_all pool v 0 ≡ (qs, none) = ap (λ r. (qs, r)) e in
          let kept : AreKept pool qs = rw qe at reads in
          let r : split_value pool v ≡ (map (add false) qs, false) = rw (split_value, qe) refl in
          subst (IsSplit k v pool) (sym r) (
            added-AreRows pool qs false k kept rows,
            added-EndsOpen pool qs false kept ends,
            (λ h. absurd (ground arith)),
            λ j lt. added-line_before pool qs false k j kept rows lt,
          )
      | inr (m, e) ↦
          let qe : extract_all pool v 0 ≡ (qs, some m) = ap (λ r. (qs, r)) e in
          let (kept, from, to, bytes, last) = rw qe at reads in
          let r : split_value pool v ≡ (map (add true) qs, true) = rw (split_value, qe) refl in
          let whole : parts qs ≡ v = bytes ∙ ap (slice v 0) (last ends) ∙ slice_whole v in
          subst (IsSplit k v pool) (sym r) (
            added-AreRows pool qs true k kept rows,
            added-EndsOpen pool qs true kept ends,
            (λ h. added-line pool qs k kept rows ∙ ap some whole),
            λ j lt. added-line_before pool qs true k j kept rows lt,
          )
    ]
