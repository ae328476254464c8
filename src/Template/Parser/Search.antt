-- ===== src/Template/Parser/Search.antt =====
-- SearchTemplate (compression/LengthParser.cpp): which template it finds.
use log_grep.Prelude.{
  ℕ, suc, ◌≤◌, ◌≡◌, inl, inr, refl, sym, ap, subst, ◌∙◌, true, false, ltb, ◌==◌, Bool-cases,
  if◌then◌else◌, Option, none, some, Option-cases, List, [], ◌∷◌, ◌++◌, append_assoc, length, find,
  arith,
}
use log_grep.Bytes.{Bytes}
use log_grep.Template.{SegTag}
use log_grep.Template.Node.{Node, pieces_match, match_match}
use log_grep.Template.Parser.{first_match}
use log_grep.Template.Parser.Valid.{
  all_nodes, holders, AllNodes, AllNodes-append, AllNodes-parts, holders-append,
}

-- `node` matches the line, and stands in `nodes` behind templates that do not.
pub record IsFirst (log : Bytes) (segs : List SegTag) (nodes : List Node) (node : Node)
    : Type 0 where
  pub before : List Node
  pub behind : List Node
  pub stands : nodes ≡ before ++ (node ∷ behind)
  pub passed : AllNodes (λ n. match_match n log segs ≡ some none) before
  pub matches : match_match node log segs ≡ some (some (length segs))

match_match-value :
    (node : Node) (log : Bytes) (segs : List SegTag) (n : ℕ)
    → match_match node log segs ≡ some (some n)
    → n ≡ length segs
unfolding match_match
match_match-value node log segs n e = ground arith

-- What first_match says: no template that matches, or the first one.
abbrev pub IsChoice : Bytes → List SegTag → List Node → Option (Option Node) → Type 0
IsChoice log segs nodes none = Unit
IsChoice log segs nodes (some none) = AllNodes (λ n. match_match n log segs ≡ some none) nodes
IsChoice log segs nodes (some (some node)) = IsFirst log segs nodes node

IsChoice-behind :
    (log : Bytes) (segs : List SegTag) (x : Node) (nodes : List Node) (r : Option (Option Node))
    → match_match x log segs ≡ some none
    → IsChoice log segs nodes r
    → IsChoice log segs (x ∷ nodes) r
IsChoice-behind log segs x nodes none fails h = tt
IsChoice-behind log segs x nodes (some none) fails h = (fails, h)
IsChoice-behind log segs x nodes (some (some node)) fails h = record {
  before = x ∷ h.before;
  behind = h.behind;
  stands = rw h.stands;
  passed = (fails, h.passed);
  matches = h.matches;
}

pub first_match-IsChoice :
    (log : Bytes) (segs : List SegTag) (nodes : List Node)
    → IsChoice log segs nodes (first_match log segs nodes)
unfolding first_match
first_match-IsChoice log segs [] = tt
first_match-IsChoice log segs (x ∷ nodes) =
    let rest = first_match-IsChoice log segs nodes in
    elim (Option-cases (match_match x log segs)) [
      | inl over ↦
          let r : first_match log segs (x ∷ nodes) ≡ none = rw (first_match, over) refl in rw r tt
      | inr (answer, known) ↦ elim (Option-cases answer) [
        | inl nowhere ↦
            let fails : match_match x log segs ≡ some none = known ∙ ap some nowhere in
            let r : first_match log segs (x ∷ nodes) ≡ first_match log segs nodes =
              rw (first_match, fails) refl in
            rw r (IsChoice-behind log segs x nodes (first_match log segs nodes) fails rest)
        | inr (n, given) ↦
            let found : match_match x log segs ≡ some (some n) = known ∙ ap some given in
            let r : first_match log segs (x ∷ nodes) ≡ some (some x) =
              rw (first_match, found) refl in
            let len = match_match-value x log segs n found in
            rw r (record {
              before = [];
              behind = nodes;
              stands = refl;
              passed = tt;
              matches = found ∙ ap (λ k. some (some k)) len;
            })
      ]
    ]

match_match-inside :
    (node : Node) (log : Bytes) (segs : List SegTag)
    → length node.pieces ≡ length segs
    → (r : Option ℕ) × (match_match node log segs ≡ some r)
unfolding match_match
match_match-inside node log segs len =
    let inside : ltb (length node.pieces) (length segs) ≡ false = ground arith in
    (if pieces_match log node.pieces segs then some (length segs) else none, rw inside refl)

-- Templates with as many places as the line has segments are read inside of their arrays.
pub first_match-inside :
    (log : Bytes) (segs : List SegTag) (nodes : List Node)
    → AllNodes (λ node. length node.pieces ≡ length segs) nodes
    → (r : Option Node) × (first_match log segs nodes ≡ some r)
unfolding first_match
first_match-inside log segs [] len = (none, refl)
first_match-inside log segs (x ∷ nodes) len =
    let (answer, known) = match_match-inside x log segs len.0 in
    let (r, later) = first_match-inside log segs nodes len.1 in
    elim (Option-cases answer) [
      | inl nowhere ↦ (r, rw (first_match, known, nowhere) later)
      | inr (n, given) ↦ (some x, rw (first_match, known, given) refl)
    ]

-- the template with a number, as the reader of the archive finds it
unfoldable pub by_eid : ℕ → List Node → Option Node
by_eid eid [] = none
by_eid eid (node ∷ nodes) = if node.eid == eid then some node else by_eid eid nodes

by_eid-stands :
    (node : Node) (xs ys : List Node)
    → holders node.eid (xs ++ (node ∷ ys)) ≤ 1
    → by_eid node.eid (xs ++ (node ∷ ys)) ≡ some node
unfolding by_eid
by_eid-stands node [] ys le =
    let self : (node.eid == node.eid) ≡ true = ground arith in rw self refl
by_eid-stands node (x ∷ xs) ys le =
    let self : (node.eid == node.eid) ≡ true = ground arith in
    let one : holders node.eid (node ∷ ys) ≡ suc (holders node.eid ys) = rw self refl in
    ground (arith, holders-append node.eid xs (node ∷ ys), one, by_eid-stands node xs ys)

find-parts :
    (k : ℕ) (pool : List (ℕ × List Node)) (nodes : List Node)
    → find k pool ≡ some nodes
    → (xs : List Node) × (ys : List Node) × (all_nodes pool ≡ xs ++ (nodes ++ ys))
find-parts k [] nodes e = absurd (ground arith)
find-parts k ((j, entry) ∷ pool) nodes e = elim (Bool-cases (k == j)) [
  | inl same ↦ let it : entry ≡ nodes = ground arith in ([], all_nodes pool, rw it refl)
  | inr other ↦
      let (xs, ys, parts) = find-parts k pool nodes (ground arith) in
      (entry ++ xs, ys, rw (parts, append_assoc entry xs (nodes ++ ys)) refl)
]

holders_zero :
    (node : Node) (nodes : List Node)
    → holders node.eid nodes ≡ 0
    → AllNodes (λ n. n.eid ≡ node.eid → n ≡ node) nodes
holders_zero node [] e = tt
holders_zero node (x ∷ nodes) e =
    (λ same. absurd (ground arith), holders_zero node nodes (ground arith))

module _ (pool : List (ℕ × List Node)) (k : ℕ) (log : Bytes) (segs : List SegTag)
    (nodes : List Node) (node : Node) (present : find k pool ≡ some nodes)
    (found : IsFirst log segs nodes node) where
  first-parts : (xs : List Node) × (ys : List Node) × (all_nodes pool ≡ xs ++ (node ∷ ys))
  first-parts =
      let (xs, ys, parts) = find-parts k pool nodes present in
      let inner : nodes ++ ys ≡ found.before ++ (node ∷ (found.behind ++ ys)) =
        ap (λ ns. ns ++ ys) found.stands ∙ append_assoc found.before (node ∷ found.behind) ys in
      (
        xs ++ found.before,
        found.behind ++ ys,
        parts
            ∙ ap (λ ns. xs ++ ns) inner
            ∙ sym (append_assoc xs found.before (node ∷ (found.behind ++ ys))),
      )

  -- What holds of all templates holds of the one that is found.
  pub AllNodes-first {κ} : (P : Node → Type κ) → AllNodes P (all_nodes pool) → P node
  AllNodes-first P all =
      let (xs, ys, whole) = first-parts in
      (AllNodes-parts P xs (node ∷ ys) (subst (AllNodes P) whole all)).1.0

  -- No other template has its number.
  pub by_eid-first :
      holders node.eid (all_nodes pool) ≤ 1 → by_eid node.eid (all_nodes pool) ≡ some node
  by_eid-first unique =
      let (xs, ys, whole) = first-parts in
      ap (by_eid node.eid) whole ∙ by_eid-stands node xs ys (rw whole at unique)

  pub only_first :
      holders node.eid (all_nodes pool) ≤ 1
      → AllNodes (λ n. n.eid ≡ node.eid → n ≡ node) (all_nodes pool)
  only_first unique =
      let (xs, ys, whole) = first-parts in
      let one : holders node.eid (xs ++ (node ∷ ys)) ≤ 1 = rw whole at unique in
      let sum = holders-append node.eid xs (node ∷ ys) in
      let self : holders node.eid (node ∷ ys) ≡ suc (holders node.eid ys) = ground arith in
      subst (AllNodes (λ n. n.eid ≡ node.eid → n ≡ node)) (sym whole) (
        AllNodes-append (λ n. n.eid ≡ node.eid → n ≡ node) xs (node ∷ ys)
          (holders_zero node xs (omega arith)) (λ e. refl, holders_zero node ys (omega arith)))
