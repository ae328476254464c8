-- ===== src/Template/Node/Valid.antt =====
-- The invariant of templateNode (compression/template.cpp) under its constructor and merged.
use log_grep.Prelude.{
  ℕ, suc, ◌+◌, ◌≡◌, ◌≢◌, inl, inr, refl, ap, Bool-cases, none, List, [], ◌∷◌, ◌++◌, map, length,
  arith,
}
use log_grep.Bytes.{Bytes}
use log_grep.Template.{SegTag}
use log_grep.Template.Segments.{AreSegments}
use log_grep.Template.Node.{
  Piece, Node, c_string, piece_of, new_node, differs, variable, merge_from, merged, var_of,
}
use log_grep.Template.Node.Fill.{ArePieces, AreBelow, IsNode}

c_string_single : (c : ℕ) → c ≢ 0 → c_string (c ∷ []) ≡ c ∷ []
unfolding c_string
c_string_single c ne = ground (arith, ne)

pieces-ArePieces :
    (log : Bytes) (i : ℕ) (ss : List SegTag)
    → AreSegments log ss
    → ArePieces [] i (map (piece_of log) ss)
unfolding piece_of
pieces-ArePieces log i [] h = tt
pieces-ArePieces log i (s ∷ ss) h =
    let tagged = h.0.tagged in
    (
      λ lt. elim tagged [
        | inl e ↦ absurd (omega arith)
        | inr (le, one) ↦ rw one (c_string_single s.tag (λ e. absurd (omega arith)))
      ],
      λ e two. elim tagged [ inl z ↦ absurd (omega arith) | inr (le, one) ↦ absurd (omega arith) ],
      pieces-ArePieces log (suc i) ss h.1,
    )

pub new_node-IsNode :
    (eid : ℕ) (log : Bytes) (segs : List SegTag)
    → AreSegments log segs
    → IsNode (new_node eid log segs)
unfolding new_node
new_node-IsNode eid log segs h = (pieces-ArePieces log 0 segs h, tt)

var_of-none : (i t u : ℕ) (xs : List ℕ) → var_of i t xs ≡ none → var_of i u xs ≡ none
unfolding var_of
var_of-none i t u [] e = refl
var_of-none i t u (x ∷ xs) e = ground (arith, var_of-none i (suc t) (suc u) xs)

-- what varIndex lacks when a longer one lacks it
abbrev pub Covers : List ℕ → List ℕ → Type 0
Covers full idx = (j : ℕ) → var_of j 0 full ≡ none → var_of j 0 idx ≡ none

Covers-append : (xs ys : List ℕ) → Covers (xs ++ ys) xs × Covers (xs ++ ys) ys
unfolding var_of
Covers-append [] ys = (λ j e. refl, λ j e. e)
Covers-append (x ∷ xs) ys =
    let rest = Covers-append xs ys in
    (
      λ j e.
          let tail = λ (t : var_of j 1 (xs ++ ys) ≡ none).
            var_of-none j 0 1 xs (rest.0 j (var_of-none j 1 0 (xs ++ ys) t)) in
          ground (arith, tail),
      λ j e.
          let tail =
            λ (t : var_of j 1 (xs ++ ys) ≡ none). rest.1 j (var_of-none j 1 0 (xs ++ ys) t) in
          ground (arith, tail),
    )

ArePieces-Covers :
    (idx full : List ℕ) (i : ℕ) (ps : List Piece)
    → Covers full idx
    → ArePieces idx i ps
    → ArePieces full i ps
ArePieces-Covers idx full i [] old ok = tt
ArePieces-Covers idx full i (p ∷ ps) old ok =
    (ok.0, λ e. ok.1 (old i e), ArePieces-Covers idx full (suc i) ps old ok.2)

merge_from-ArePieces :
    (log : Bytes) (idx full : List ℕ) (i : ℕ) (ps : List Piece) (ss : List SegTag)
    → Covers full idx
    → ArePieces idx i ps
    → Covers full (merge_from log i ps ss).1
    → ArePieces full i (merge_from log i ps ss).0
unfolding merge_from variable var_of
merge_from-ArePieces log idx full i [] ss old ok = λ new. tt
merge_from-ArePieces log idx full i (p ∷ ps) [] old ok =
    λ new. ArePieces-Covers idx full i (p ∷ ps) old ok
merge_from-ArePieces log idx full i (p ∷ ps) (s ∷ ss) old ok =
    let rest = merge_from-ArePieces log idx full (suc i) ps ss old ok.2 in
    elim (Bool-cases (differs log p s)) [
      | inl e ↦ rw e (λ new. (
        λ lt. absurd (omega arith),
        λ none_i two. let stands = new i none_i in ground arith,
        rest (λ j none_j.
            let pushed = (merge_from log (suc i) ps ss).1 in
            let gone = new j none_j in
            let tail : var_of j 1 pushed ≡ none = ground arith in var_of-none j 1 0 pushed tail),
      ))
      | inr e ↦ rw e (λ new. (ok.0, λ none_i. ok.1 (old i none_i), rest new))
    ]

AreBelow-append : (n : ℕ) (xs ys : List ℕ) → AreBelow n xs → AreBelow n ys → AreBelow n (xs ++ ys)
AreBelow-append n [] ys hx hy = hy
AreBelow-append n (x ∷ xs) ys hx hy = (hx.0, AreBelow-append n xs ys hx.1 hy)

-- A merge keeps the number of places, and pushes places from `i` on.
pub merge_from-bounds :
    (log : Bytes) (i n : ℕ) (ps : List Piece) (ss : List SegTag)
    → i + length ps ≡ n
    → (length (merge_from log i ps ss).0 ≡ length ps) × AreBelow n (merge_from log i ps ss).1
unfolding merge_from
merge_from-bounds log i n [] ss e = (refl, tt)
merge_from-bounds log i n (p ∷ ps) [] e = (refl, tt)
merge_from-bounds log i n (p ∷ ps) (s ∷ ss) e =
    let rest = merge_from-bounds log (suc i) n ps ss (omega arith) in
    elim (Bool-cases (differs log p s)) [
      | inl d ↦ rw d (ap suc rest.0, (omega arith, rest.1))
      | inr d ↦ rw d (ap suc rest.0, rest.1)
    ]

pub merged-IsNode :
    (node : Node) (log : Bytes) (segs : List SegTag) → IsNode node → IsNode (merged node log segs)
unfolding merged
merged-IsNode node log segs ok =
    let pushed = (merge_from log 0 node.pieces segs).1 in
    let covers = Covers-append node.var_index pushed in
    let bounds = merge_from-bounds log 0 (length node.pieces) node.pieces segs (omega arith) in
    (
      merge_from-ArePieces log node.var_index (node.var_index ++ pushed) 0 node.pieces segs covers.0
          ok.0 covers.1,
      rw bounds.0 (AreBelow-append (length node.pieces) node.var_index pushed ok.1 bounds.1),
    )
