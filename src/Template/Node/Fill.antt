-- ===== src/Template/Node/Fill.antt =====
-- What a template and the strings of its variables give back (output of compression/template.cpp), and
-- the invariant of a template.
use log_grep.Prelude.{
  ℕ, suc, ◌+◌, ◌-◌, ◌≤◌, ◌<◌, ◌≡◌, ◌≢◌, inl, inr, refl, ◌>>=◌, ◌==◌, Bool-cases, Option, none, some,
  Option-cases, List, [], ◌∷◌, length, get_elem?, arith,
}
use log_grep.Bytes.{Bytes}
use log_grep.Template.{SegTag, text}
use log_grep.Template.Segments.{texts, IsSegment, AreSegments}
use log_grep.Template.Node.{Piece, Node, match_match, var_of, fill_from, fill}
use log_grep.Template.Node.Match.{PieceFits, PiecesFit, match_match_iff, PrefixFits-PiecesFit}

-- A delimiter's place has the delimiter as its token, and a variable's place stands in varIndex.
abbrev pub ArePieces : List ℕ → ℕ → List Piece → Type 0
ArePieces idx i [] = Unit
ArePieces idx i (p ∷ ps) =
    (9 < p.tag → p.template ≡ p.tag ∷ [])
    × (var_of i 0 idx ≡ none → p.tag ≢ 2)
    × ArePieces idx (suc i) ps

abbrev pub AreBelow : ℕ → List ℕ → Type 0
AreBelow n [] = Unit
AreBelow n (i ∷ is) = (i < n) × AreBelow n is

-- and varIndex has places of the template only
abbrev pub IsNode : Node → Type 0
IsNode node = ArePieces node.var_index 0 node.pieces × AreBelow (length node.pieces) node.var_index

-- `value` gives the bytes of the segments that stand at the variables' places, from place `i` on.
abbrev pub AreValues : Bytes → (ℕ → Option Bytes) → List ℕ → ℕ → List SegTag → Type 0
AreValues log value idx i ss =
    (k t : ℕ) (s : SegTag)
    → get_elem? ss k ≡ some s
    → var_of (i + k) 0 idx ≡ some t
    → value t ≡ some (text log s)

place-text :
    (log : Bytes) (value : ℕ → Option Bytes) (idx : List ℕ) (i : ℕ) (p : Piece) (s : SegTag)
    → (9 < p.tag → p.template ≡ p.tag ∷ [])
    → (var_of i 0 idx ≡ none → p.tag ≢ 2)
    → IsSegment log s
    → PieceFits log p s
    → ((t : ℕ) → var_of i 0 idx ≡ some t → value t ≡ some (text log s))
    → elim (var_of i 0 idx) [ none ↦ some p.template | some t ↦ value t ] ≡ some (text log s)
place-text log value idx i p s delims covered h fits values = elim (Option-cases (var_of i 0 idx)) [
  | inl e ↦
      let tagged = h.tagged in
      let same : text log s ≡ p.template = ground (arith, delims, covered e) in rw (e, same) refl
  | inr (t, e) ↦ rw e (values t e)
]

pub fill_from-texts :
    (log : Bytes) (value : ℕ → Option Bytes) (idx : List ℕ) (i : ℕ) (ps : List Piece)
    (ss : List SegTag)
    → ArePieces idx i ps
    → AreSegments log ss
    → PiecesFit log ps ss
    → AreValues log value idx i ss
    → fill_from value idx i ps ≡ some (texts log ss)
unfolding fill_from
fill_from-texts log value idx i [] [] ok h fits values = refl
fill_from-texts log value idx i [] (s ∷ ss) ok h fits values = absurd fits
fill_from-texts log value idx i (p ∷ ps) [] ok h fits values = absurd fits
fill_from-texts log value idx i (p ∷ ps) (s ∷ ss) ok h fits values =
    let here : i + 0 ≡ i = omega arith in
    let this =
      place-text log value idx i p s ok.0 ok.1 h.0 fits.0 (λ t e. values 0 t s refl (rw here e)) in
    let rest = fill_from-texts log value idx (suc i) ps ss ok.2 h.1 fits.1 (λ k t g eg et.
      let there : i + suc k ≡ suc i + k = omega arith in values (suc k) t g eg (rw there et)) in
    rw (this, rest) refl

-- what SearchTemplate takes for variable `t`: the segment at the place varIndex[t]
abbrev pub taken : Bytes → List ℕ → List SegTag → ℕ → Option Bytes
taken log idx segs t = get_elem? idx t >>= λ i. get_elem? segs i >>= λ s. some (text log s)

pub var_of-at :
    (i t v : ℕ) (idx : List ℕ)
    → var_of i t idx ≡ some v
    → (t ≤ v) × (get_elem? idx (v - t) ≡ some i)
unfolding var_of
var_of-at i t v [] e = absurd (ground arith)
var_of-at i t v (j ∷ js) e = elim (Bool-cases (i == j)) [
  | inl same ↦
      let v_is : t ≡ v = ground arith in
      let i_is : j ≡ i = ground arith in
      let none_past : v - t ≡ 0 = omega arith in (omega arith, rw (none_past, i_is) refl)
  | inr other ↦
      let later : var_of i (suc t) js ≡ some v = ground arith in
      let found = var_of-at i (suc t) v js later in
      let le : suc t ≤ v = found.0 in
      let one_on : v - t ≡ suc (v - suc t) = omega arith in (omega arith, rw one_on found.1)
]

taken-AreValues :
    (log : Bytes) (idx : List ℕ) (segs : List SegTag)
    → AreValues log (taken log idx segs) idx 0 segs
taken-AreValues log idx segs k t s eg et =
    let none_past : t - 0 ≡ t = omega arith in
    let at_k : 0 + k ≡ k = omega arith in
    let place : get_elem? idx t ≡ some k =
      rw (← none_past) ((var_of-at k 0 t idx (rw (← at_k) et)).1) in
    rw (place, eg) refl

-- A template that matches a line gives the line back, when the segments at the places of its variables
-- are put in for the variables.
pub fill-taken :
    (node : Node) (log : Bytes) (segs : List SegTag)
    → IsNode node
    → AreSegments log segs
    → length node.pieces ≡ length segs
    → match_match node log segs ≡ some (some (length segs))
    → fill (taken log node.var_index segs) node ≡ some (texts log segs)
unfolding fill
fill-taken node log segs ok h len m =
    fill_from-texts log (taken log node.var_index segs) node.var_index 0 node.pieces segs ok.0 h
      (PrefixFits-PiecesFit log node.pieces segs len ((match_match_iff node log segs h).1.0 m))
      (taken-AreValues log node.var_index segs)
