-- ===== src/Template/Node/Merge.antt =====
-- merge (compression/template.cpp) against matchMatch: what a merged template matches.
use log_grep.Prelude.{
  ℕ, zero, suc, ◌≤◌, ◌≡◌, ◌≢◌, ◌⊎◌, inl, inr, refl, ap₂, length-drop, true, false, Bool-cases, some,
  List, [], ◌∷◌, length, take, drop, arith,
}
use log_grep.Bytes.{Bytes}
use log_grep.Template.{SegTag, text}
use log_grep.Template.Segments.{IsSegment, AreSegments}
use log_grep.Template.Node.{
  Piece, Node, strncmp_same, differs, variable, merge_from, merge_fits, merged, merge, match_match,
}
use log_grep.Template.Node.Match.{
  PieceFits, PiecesFit, PrefixFits, PiecesFit-PrefixFits, match_match_iff,
}

merge_from-kept :
    (log log' : Bytes) (i : ℕ) (ps : List Piece) (segs ss : List SegTag)
    → PrefixFits log' ps ss
    → PrefixFits log' (merge_from log i ps segs).0 ss
unfolding merge_from variable
merge_from-kept log log' i [] segs ss fits = fits
merge_from-kept log log' i (p ∷ ps) [] ss fits = fits
merge_from-kept log log' i (p ∷ ps) (g ∷ segs) [] fits = elim (Bool-cases (differs log p g)) [
  | inl e ↦ rw e tt
  | inr e ↦ rw e tt
]
merge_from-kept log log' i (p ∷ ps) (g ∷ segs) (s ∷ ss) fits =
    let rest = merge_from-kept log log' (suc i) ps segs ss fits.1 in
    elim (Bool-cases (differs log p g)) [
      | inl e ↦ rw e (inl refl, rest)
      | inr e ↦ rw e (fits.0, rest)
    ]

merge-merged :
    (node node' : Node) (log : Bytes) (segs : List SegTag)
    → merge node log segs ≡ some node'
    → merged node log segs ≡ node'
unfolding merge
merge-merged node node' log segs e = ground arith

-- A line that a template matches, it matches after any merge that stays inside of the buffers too.
pub merge-kept :
    (node node' : Node) (log log' : Bytes) (segs ss : List SegTag)
    → merge node log segs ≡ some node'
    → AreSegments log' ss
    → match_match node log' ss ≡ some (some (length ss))
    → match_match node' log' ss ≡ some (some (length ss))
unfolding merged
merge-kept node node' log log' segs ss e h m =
    let fits =
      merge_from-kept log log' 0 node.pieces segs ss ((match_match_iff node log' ss h).1.0 m) in
    rw (← merge-merged node node' log segs e)
      ((match_match_iff (merged node log segs) log' ss h).1.1 fits)

-- no NUL, at which C strings end
abbrev pub NoNul : Bytes → Type 0
NoNul [] = Unit
NoNul (c ∷ s) = (c ≢ 0) × NoNul s

abbrev pub NoNuls : Bytes → List SegTag → Type 0
NoNuls log [] = Unit
NoNuls log (s ∷ ss) = NoNul (text log s) × NoNuls log ss

-- The place is a variable already, or no other delimiter than the segment, and not longer than it.
abbrev pub Comparable : Piece → SegTag → Type 0
Comparable p s =
    (p.tag ≡ 2)
    ⊎ (((p.tag ≡ s.tag) ⊎ ((p.tag ≤ 9) × (s.tag ≤ 9))) × (length p.template ≤ s.seg_len))

abbrev pub AreComparable : List Piece → List SegTag → Type 0
AreComparable [] [] = Unit
AreComparable [] (s ∷ ss) = ⊥
AreComparable (p ∷ ps) [] = ⊥
AreComparable (p ∷ ps) (s ∷ ss) = Comparable p s × AreComparable ps ss

strncmp_same-take :
    (a b : Bytes) (n : ℕ)
    → n ≤ length a
    → NoNul (take n a)
    → length b ≤ n
    → strncmp_same a b n ≡ true
    → take n a ≡ b
unfolding strncmp_same
strncmp_same-take a [] zero le nonul short same = refl
strncmp_same-take a (d ∷ b) zero le nonul short same = absurd (omega arith)
strncmp_same-take [] b (suc n) le nonul short same = absurd (omega arith)
strncmp_same-take (c ∷ a) [] (suc n) le nonul short same = absurd (nonul.0 (ground arith))
strncmp_same-take (c ∷ a) (d ∷ b) (suc n) le nonul short same =
    let c_ne : c ≢ 0 = nonul.0 in
    let first : c ≡ d = ground arith in
    let others : strncmp_same a b n ≡ true = ground arith in
    ap₂ ◌∷◌ first (strncmp_same-take a b n (omega arith) nonul.1 (omega arith) others)

alike_fits :
    (log : Bytes) (p : Piece) (s : SegTag)
    → IsSegment log s
    → NoNul (text log s)
    → Comparable p s
    → differs log p s ≡ false
    → PieceFits log p s
unfolding differs
alike_fits log p s h nonul c d =
    let fits : s.seg_len ≤ length (drop s.start_pos log) =
      let i = h.inside in omega (arith, length-drop s.start_pos log) in
    ground (arith, strncmp_same-take (drop s.start_pos log) p.template s.seg_len fits nonul)

merge_from-own :
    (log : Bytes) (i : ℕ) (ps : List Piece) (ss : List SegTag)
    → AreSegments log ss
    → NoNuls log ss
    → AreComparable ps ss
    → PiecesFit log (merge_from log i ps ss).0 ss
unfolding merge_from variable
merge_from-own log i [] [] h nonul c = tt
merge_from-own log i [] (s ∷ ss) h nonul c = absurd c
merge_from-own log i (p ∷ ps) [] h nonul c = absurd c
merge_from-own log i (p ∷ ps) (s ∷ ss) h nonul c =
    let rest = merge_from-own log (suc i) ps ss h.1 nonul.1 c.1 in
    elim (Bool-cases (differs log p s)) [
      | inl e ↦ rw e (inl refl, rest)
      | inr e ↦ rw e (alike_fits log p s h.0 nonul.0 c.0 e, rest)
    ]

-- Each place is a variable already, or has the bytes of its segment, or its buffer has room for "<*>",
-- as that of a token of three bytes has.
abbrev pub AreRoomy : Bytes → List Piece → List SegTag → Type 0
AreRoomy log [] ss = Unit
AreRoomy log (p ∷ ps) [] = Unit
AreRoomy log (p ∷ ps) (s ∷ ss) =
    ((p.tag ≡ 2) ⊎ (strncmp_same (drop s.start_pos log) p.template s.seg_len ≡ true) ⊎ (4 ≤ p.size))
    × AreRoomy log ps ss

merge_fits-AreRoomy :
    (log : Bytes) (ps : List Piece) (ss : List SegTag)
    → AreRoomy log ps ss
    → AreComparable ps ss
    → merge_fits log ps ss ≡ true
unfolding merge_fits differs
merge_fits-AreRoomy log [] [] roomy c = refl
merge_fits-AreRoomy log [] (s ∷ ss) roomy c = absurd c
merge_fits-AreRoomy log (p ∷ ps) [] roomy c = absurd c
merge_fits-AreRoomy log (p ∷ ps) (s ∷ ss) (here, later) (_, c) =
    ground (arith, merge_fits-AreRoomy log ps ss later c)

-- A line without NUL, as many segments as the template has places, no delimiter against another one or
-- a token, no token of the template longer than its segment, and room for "<*>" at each place that is no
-- variable and whose segment is not the same: merge stays inside of the buffers, and after it the
-- template matches the line.
pub merge-own :
    (node : Node) (log : Bytes) (segs : List SegTag)
    → AreSegments log segs
    → NoNuls log segs
    → AreComparable node.pieces segs
    → AreRoomy log node.pieces segs
    → (node' : Node) × (merge node log segs ≡ some node')
      × (match_match node' log segs ≡ some (some (length segs)))
unfolding merge merged
merge-own node log segs h nonul c roomy =
    let inside = merge_fits-AreRoomy log node.pieces segs roomy c in
    let fits = merge_from-own log 0 node.pieces segs h nonul c in
    (
      merged node log segs,
      rw inside refl,
      (match_match_iff (merged node log segs) log segs h).1.1
          (PiecesFit-PrefixFits log (merged node log segs).pieces segs fits),
    )
