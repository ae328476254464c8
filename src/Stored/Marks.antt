-- ===== src/Stored/Marks.antt =====
-- dataType and maxLen of the patterns of compression/SubPattern.cpp over the values of a variable, as
-- compression/main.cpp stores them.
use log_grep.Prelude.{
  ℕ, zero, suc, ◌≡◌, refl, sym, ap, subst, Bool, true, false, Option, none, some, Option-cases, inl,
  inr, List, [], ◌∷◌, ◌++◌, map, get_elem?, arith, if◌then◌else◌,
}
use mathlib.Core.Option.{some-injective}
use log_grep.Bytes.{Bytes}
use log_grep.Tags.{get_str_tag}
use log_grep.Tags.Bits.{within, within_of_classes}
use log_grep.Tags.Filter.{get_str_tag-lt, get_str_tag-Covers}
use log_grep.Stored.{
  Kind, constant, fixed, variable, SubPattern, extract_as, extract, add_as, add, extract_all,
  read_part, new_sub_pattern, split_value, split_values,
}
use log_grep.Stored.Values.{add-kind}
use log_grep.Stored.Stamps.{
  IsRow-none, IsShort, IsRow, AreRowsOf, IsMarked, extract_as-IsMarked, add_as-IsMarked,
}

abbrev pub AreMarked : List SubPattern → Type 0
AreMarked [] = Unit
AreMarked (p ∷ ps) = IsMarked p.kind p × AreMarked ps

if_kind :
    (b : Bool) (x y : SubPattern × Option ℕ) (k : Kind)
    → x.0.kind ≡ k
    → y.0.kind ≡ k
    → (if b then x else y).0.kind ≡ k
if_kind true x y k e e' = e
if_kind false x y k e e' = e'

extract_as-kind :
    (k : Kind) (p : SubPattern) (log : Bytes) (i : ℕ) → (extract_as k p log i).0.kind ≡ p.kind
unfolding extract_as read_part
extract_as-kind (constant c n) p log i = refl
extract_as-kind (fixed n) p log i = if_kind _ _ _ p.kind refl refl
extract_as-kind (variable next) p log i = if_kind _ _ _ p.kind refl refl

extract-IsMarked :
    (p : SubPattern) (log : Bytes) (i : ℕ)
    → IsMarked p.kind p
    → IsMarked (extract p log i).0.kind (extract p log i).0
unfolding extract
extract-IsMarked p log i h =
    subst (λ k. IsMarked k (extract_as p.kind p log i).0) (sym (extract_as-kind p.kind p log i))
      (extract_as-IsMarked p.kind p log i h)

add-IsMarked :
    (success : Bool) (p : SubPattern)
    → IsMarked p.kind p
    → IsMarked (add success p).kind (add success p)
unfolding add
add-IsMarked success p h =
    subst (λ k. IsMarked k (add_as p.kind success p)) (sym (add-kind success p))
      (add_as-IsMarked p.kind success p h)

extract_all-AreMarked :
    (ps : List SubPattern) (log : Bytes) (i : ℕ) → AreMarked ps → AreMarked (extract_all ps log i).0
unfolding extract_all
extract_all-AreMarked [] log i h = tt
extract_all-AreMarked (p ∷ ps) log i (here, later) =
    let now = extract-IsMarked p log i here in
    let (p', read) = extract p log i in
    elim (Option-cases read) [
      | inl e ↦
          let pe : extract p log i ≡ (p', none) = ap (λ r. (p', r)) e in
          let r : extract_all (p ∷ ps) log i ≡ (p' ∷ ps, none) = rw (extract_all, pe) refl in
          subst (λ x. AreMarked x.0) (sym r) (now, later)
      | inr (j, e) ↦
          let pe : extract p log i ≡ (p', some j) = ap (λ r. (p', r)) e in
          let (ps', end) = extract_all ps log j in
          let r : extract_all (p ∷ ps) log i ≡ (p' ∷ ps', end) = rw (extract_all, pe) refl in
          subst (λ x. AreMarked x.0) (sym r) (now, extract_all-AreMarked ps log j later)
    ]

added-AreMarked :
    (success : Bool) (ps : List SubPattern) → AreMarked ps → AreMarked (map (add success) ps)
added-AreMarked success [] h = tt
added-AreMarked success (p ∷ ps) (here, later) =
    (add-IsMarked success p here, added-AreMarked success ps later)

split_values-AreMarked :
    (vs : List Bytes) (pool : List SubPattern) (i : ℕ) (m : List (ℕ × Bytes))
    → AreMarked pool
    → AreMarked (split_values pool i m vs).0
unfolding split_values split_value
split_values-AreMarked [] pool i m h = h
split_values-AreMarked (v ∷ vs) pool i m h =
    let (pool', success) = split_value pool v in
    let next : AreMarked pool' = added-AreMarked success _ (extract_all-AreMarked pool v 0 h) in
    split_values-AreMarked vs pool' (suc i) (if success then m else m ++ ((i, v) ∷ [])) next

fresh-AreMarked : (kinds : List Kind) → AreMarked (map new_sub_pattern kinds)
unfolding new_sub_pattern
fresh-AreMarked [] = tt
fresh-AreMarked (k ∷ kinds) =
    ((omega arith, IsRow-none k 0 0 (omega arith), tt), fresh-AreMarked kinds)

AreMarked-at :
    (ps : List SubPattern) (t : ℕ) (p : SubPattern)
    → AreMarked ps
    → get_elem? ps t ≡ some p
    → IsMarked p.kind p
AreMarked-at [] t p h e = absurd (ground arith)
AreMarked-at (u ∷ ps) zero p h e = subst (λ x. IsMarked x.kind x) (some-injective u p e) h.0
AreMarked-at (u ∷ ps) (suc t) p h e = AreMarked-at ps t p h.1 e

AreRowsOf-at :
    (k : Kind) (d m : ℕ) (rs : List Bytes) (j : ℕ) (r : Bytes)
    → AreRowsOf k d m rs
    → get_elem? rs j ≡ some r
    → IsRow k d m r
AreRowsOf-at k d m [] j r h e = absurd (ground arith)
AreRowsOf-at k d m (u ∷ rs) zero r h e = subst (λ x. IsRow k d m x) (some-injective u r e) h.0
AreRowsOf-at k d m (u ∷ rs) (suc j) r h e = AreRowsOf-at k d m rs j r h.1 e

-- Patterns of any kinds, with the values of a variable cut by them: a row of one of the patterns that
-- contains the query `q` passes the stamp filter, which tests GetStrTag of `q` against dataType; and the
-- row is no longer than the length of a fixed part, or maxLen of a variable one.
pub split_values-within :
    (kinds : List Kind) (vs : List Bytes) (t : ℕ) (p : SubPattern) (j : ℕ) (a q b : Bytes)
    → get_elem? (split_values (map new_sub_pattern kinds) 0 [] vs).0 t ≡ some p
    → get_elem? p.rows j ≡ some (a ++ (q ++ b))
    → (within (get_str_tag q) p.data_type ≡ true) × IsShort p.kind p.max_len (a ++ (q ++ b))
split_values-within kinds vs t p j a q b at_t at_j =
    let all = split_values-AreMarked vs (map new_sub_pattern kinds) 0 [] (fresh-AreMarked kinds) in
    let (lt, ready, rows) = AreMarked-at _ t p all at_t in
    let (covers, short) = AreRowsOf-at p.kind p.data_type p.max_len p.rows j _ rows at_j in
    (
      within_of_classes _ _ (get_str_tag-lt q) lt
          (λ c isc e. covers c isc (get_str_tag-Covers a q b c isc e)),
      short,
    )
