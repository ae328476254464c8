-- ===== src/Template/Parser/Kept.antt =====
-- The loop of parseTemplate (compression/LengthParser.cpp): what a merge leaves of the templates.
use log_grep.Prelude.{
  ℕ, ◌<◌, ◌≡◌, inl, inr, refl, Bool, true, ◌==◌, Bool-cases, Option, none, some, ◌>>=◌, ◌∙◌,
  length-map, List, [], ◌∷◌, length, arith,
}
use log_grep.Bytes.{Bytes}
use log_grep.Template.{SegTag}
use log_grep.Template.Node.{Node, new_node, piece_of, merge_fits, merged, merge, parse_match}
use log_grep.Template.Node.Fill.{IsNode}
use log_grep.Template.Node.Valid.{merged-IsNode, merge_from-bounds}
use log_grep.Template.Parser.{merge_first}
use log_grep.Template.Parser.Valid.{holders, AllNodes}

merged-eid :
    (node : Node) (log : Bytes) (segs : List SegTag) → (merged node log segs).eid ≡ node.eid
unfolding merged
merged-eid node log segs = refl

length-merged :
    (node : Node) (log : Bytes) (segs : List SegTag)
    → length (merged node log segs).pieces ≡ length node.pieces
unfolding merged
length-merged node log segs =
    (merge_from-bounds log 0 (length node.pieces) node.pieces segs (omega arith)).0

pub length-new_node :
    (eid : ℕ) (log : Bytes) (segs : List SegTag)
    → length (new_node eid log segs).pieces ≡ length segs
unfolding new_node
length-new_node eid log segs = length-map segs (piece_of log)

new_node-eid : (eid : ℕ) (log : Bytes) (segs : List SegTag) → (new_node eid log segs).eid ≡ eid
unfolding new_node
new_node-eid eid log segs = refl

-- A merge keeps the templates valid, and their numbers; the one it returns is among them.
unfoldable pub IsKept : ℕ → List Node → Option (Option (List Node × ℕ)) → Type 0
IsKept k nodes none = Unit
IsKept k nodes (some none) = Unit
IsKept k nodes (some (some (merged, hit))) =
    AllNodes IsNode merged
    × AllNodes (λ node. length node.pieces ≡ k) merged
    × ((eid : ℕ) → holders eid merged ≡ holders eid nodes)
    × (0 < holders hit nodes)

IsKept-merge :
    (k : ℕ) (node : Node) (nodes : List Node) (log : Bytes) (segs : List SegTag)
    → AllNodes IsNode (node ∷ nodes)
    → AllNodes (λ node. length node.pieces ≡ k) (node ∷ nodes)
    → IsKept k
        (node ∷ nodes)
        (merge node log segs >>= λ node'. some (some (node' ∷ nodes, node.eid)))
unfolding merge IsKept
IsKept-merge k node nodes log segs ok len = elim (Bool-cases (merge_fits log node.pieces segs)) [
  | inl e ↦ rw e (
    (merged-IsNode node log segs ok.0, ok.1),
    (length-merged node log segs ∙ len.0, len.1),
    λ eid. rw (merged-eid node log segs) refl,
    (let self : (node.eid == node.eid) ≡ true = ground arith in rw self (omega arith)),
  )
  | inr e ↦ rw e tt
]

IsKept-later :
    (k : ℕ) (node : Node) (nodes : List Node) (rest : Option (Option (List Node × ℕ)))
    → AllNodes IsNode (node ∷ nodes)
    → AllNodes (λ node. length node.pieces ≡ k) (node ∷ nodes)
    → IsKept k nodes rest
    → IsKept k
        (node ∷ nodes)
        (rest >>= λ hit. some (hit >>= λ (others, eid). some (node ∷ others, eid)))
unfolding IsKept
IsKept-later k node nodes none ok len kept = tt
IsKept-later k node nodes (some none) ok len kept = tt
IsKept-later k node nodes (some (some (merged, hit))) ok len kept = (
  (ok.0, kept.0),
  (len.0, kept.1),
  λ eid. rw (kept.2 eid) refl,
  (let more = kept.3 in ground arith),
)

pub merge_first-IsKept :
    (above : ℕ → ℕ → Bool) (k : ℕ) (log : Bytes) (segs : List SegTag) (nodes : List Node)
    → AllNodes IsNode nodes
    → AllNodes (λ node. length node.pieces ≡ k) nodes
    → IsKept k nodes (merge_first above log segs nodes)
unfolding merge_first IsKept
merge_first-IsKept above k log segs [] ok len = tt
merge_first-IsKept above k log segs (node ∷ nodes) ok len =
    let (sim, tot) = parse_match node log segs in
    let rest = merge_first-IsKept above k log segs nodes ok.1 len.1 in
    elim (Bool-cases (above sim tot)) [
      | inl e ↦ rw e (IsKept-merge k node nodes log segs ok len)
      | inr e ↦ rw e (IsKept-later k node nodes (merge_first above log segs nodes) ok len rest)
    ]
