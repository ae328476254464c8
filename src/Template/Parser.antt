-- ===== src/Template/Parser.antt =====
-- class LengthParser (compression/LengthParser.cpp): the templates by their number of places, learned
-- from sample lines and searched for each line.
pub mod Valid
pub mod Kept
pub mod Learn
pub mod Found
pub mod Search
use log_grep.Prelude.{
  ℕ, zero, suc, ◌+◌, Bool, true, false, if◌then◌else◌, Option, none, some, ◌>>=◌, List, [], ◌∷◌,
  ◌++◌, map, length, find, put,
}
use log_grep.Bytes.{Bytes}
use log_grep.Template.{SegTag}
use log_grep.Template.Node.{Node, new_node, parse_match, merge, pieces_match, match_match}
use log_grep.Template.Columns.{Columns, store_from}

pub record Parser : Type 0 where
  pub now_eid : ℕ
  pub pool : List (ℕ × List Node)
  pub tc : List (ℕ × ℕ)
  pub stc : List (ℕ × ℕ)

-- the constructor
unfoldable pub new_parser : Parser
new_parser = record { now_eid = 1; pool = []; tc = []; stc = [] }

-- the count of a key, 0 for one that is not there
unfoldable pub count : ℕ → List (ℕ × ℕ) → ℕ
count k m = elim (find k m) [ none ↦ 0 | some n ↦ n ]

-- `m[k]++`
unfoldable pub bump : ℕ → List (ℕ × ℕ) → List (ℕ × ℕ)
unfolding count
bump k m = put k (suc (count k m)) m

-- The loop of parseTemplate: the first template whose similarity is above the threshold is merged.
-- `above sim tot` is the comparison of the two doubles, (double)sim / tot > threashold. The outer `none`
-- is an access of merge outside of a buffer, the inner one no such template.
unfoldable pub merge_first :
    (ℕ → ℕ → Bool) → Bytes → List SegTag → List Node → Option (Option (List Node × ℕ))
merge_first above log segs [] = some none
merge_first above log segs (node ∷ nodes) =
    let (sim, tot) = parse_match node log segs in
    let rest = merge_first above log segs nodes in
    if above sim tot
    then (merge node log segs >>= λ node'. some (some (node' ∷ nodes, node.eid)))
    else rest >>= λ hit. some (hit >>= λ (others, eid). some (node ∷ others, eid))

-- parseTemplate, and the eid it returns; `none` is an access outside of a buffer.
unfoldable pub parse_template : (ℕ → ℕ → Bool) → Parser → Bytes → List SegTag → Option (Parser × ℕ)
unfolding merge_first bump
parse_template above p log segs =
    let eid = p.now_eid in
    let node = new_node eid log segs in
    elim (find (length segs) p.pool) [
      | none ↦ some (
        record p {
          now_eid = suc eid;
          pool = put (length segs) (node ∷ []) p.pool;
          stc = put eid 1 p.stc;
        },
        eid,
      )
      | some nodes ↦ merge_first above log segs nodes >>= λ hit. some (elim hit [
        | some (merged, hit) ↦
            (record p { pool = put (length segs) merged p.pool; stc = bump hit p.stc }, hit)
        | none ↦ (
          record p {
            now_eid = suc eid;
            pool = put (length segs) (nodes ++ (node ∷ [])) p.pool;
            stc = put eid 1 p.stc;
          },
          eid,
        )
      ])
    ]

-- The loop of SearchTemplate up to the template that matches. The outer `none` is a read of matchMatch
-- behind its arrays.
unfoldable pub first_match : Bytes → List SegTag → List Node → Option (Option Node)
unfolding match_match
first_match log segs [] = some none
first_match log segs (node ∷ nodes) =
    let rest = first_match log segs nodes in
    match_match node log segs >>= λ r. elim r [ none ↦ rest | some n ↦ some (some node) ]

-- SearchTemplate. The outer `none` is a read or write out of bounds, the inner one the value -1.
unfoldable pub search_template :
    Parser → Bytes → List SegTag → Columns → Bool → Option (Parser × (Columns × Option ℕ))
unfolding first_match bump store_from
search_template p log segs vars extract = elim (find (length segs) p.pool) [
  | none ↦ some (p, (vars, none))
  | some nodes ↦ first_match log segs nodes >>= λ r. elim r [
    | none ↦ some (p, (vars, none))
    | some node ↦
        let p' : Parser = record p { tc = bump node.eid p.tc } in
        let stored = store_from node.eid segs 0 node.var_index vars in
        if extract
        then (stored >>= λ vars'. some (p', (vars', some node.eid)))
        else some (p', (vars, some node.eid))
  ]
]

-- counterReset
unfoldable pub counter_reset : Parser → Parser
counter_reset p = record p { tc = map (λ (k, n). (k, 0)) p.tc }
