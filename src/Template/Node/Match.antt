-- ===== src/Template/Node/Match.antt =====
-- matchMatch (compression/template.cpp), which compares lengths, ends and inner bytes, against the
-- equality of strings.
use log_grep.Prelude.{
  none, ◌<◌, ltb, ℕ, zero, suc, ◌+◌, ◌-◌, ◌≤◌, ◌≡◌, ◌≢◌, ◌↔◌, ◌⊎◌, inl, inr, refl, sym, ◌∙◌, true,
  ◌==◌, Bool-cases, some, List, [], ◌∷◌, length, length-take, length-drop, take, drop, arith,
}
use log_grep.Bytes.{Bytes, at, same_bytes, at-take}
use log_grep.Template.{SegTag, text}
use log_grep.Template.Segments.{IsSegment, AreSegments}
use log_grep.Template.Node.{
  Piece, Node, same_inner, same_token, piece_matches, pieces_match, match_match,
}

same_inner_sound :
    (a b : Bytes) (j n : ℕ)
    → same_inner a b j n ≡ true
    → (k : ℕ) → j ≤ k
    → k < j + n
    → at a k ≡ at b k
unfolding same_inner
same_inner_sound a b j zero h k le lt = absurd (omega arith)
same_inner_sound a b j (suc n) h k le lt =
    let rest : same_inner a b (suc j) n ≡ true = ground arith in
    let this : at a j ≡ at b j = ground arith in
    ground (arith, this, same_inner_sound a b (suc j) n rest k)

same_inner_complete :
    (a b : Bytes) (j n : ℕ) → ((k : ℕ) → k < j + n → at a k ≡ at b k) → same_inner a b j n ≡ true
unfolding same_inner
same_inner_complete a b j zero h = refl
same_inner_complete a b j (suc n) h =
    let here : at a j ≡ at b j = h j (omega arith) in
    let self : (at b j == at b j) ≡ true = ground arith in
    rw (here, self) (same_inner_complete a b (suc j) n (λ k lt. h k (omega arith)))

same_token_sound :
    (temp template : Bytes) (n : ℕ)
    → 0 < n
    → n ≤ length temp
    → same_token temp template n ≡ true
    → take n temp ≡ template
unfolding same_token
same_token_sound temp template n pos le h =
    let len : n ≡ length template = ground arith in
    let first : at temp 0 ≡ at template 0 = ground arith in
    let last : at temp (n - 1) ≡ at template (n - 1) = ground arith in
    let inner : same_inner temp template 1 (n - 1 - 1) ≡ true = ground arith in
    let lens : length (take n temp) ≡ n = omega (arith, length-take n temp) in
    same_bytes (take n temp) template (omega arith) (λ j lt.
      at-take n temp j (omega arith)
      ∙ ground (arith, same_inner_sound temp template 1 (n - 1 - 1) inner j))

same_token_complete :
    (temp template : Bytes) (n : ℕ)
    → 0 < n
    → n ≤ length temp
    → take n temp ≡ template
    → same_token temp template n ≡ true
unfolding same_token
same_token_complete temp template n pos le h =
    let len : n ≡ length template = rw (← h) (omega (arith, length-take n temp)) in
    let bytes : (k : ℕ) → k < n → at temp k ≡ at template k =
      λ k lt. rw (← h) (sym (at-take n temp k lt)) in
    let inner : same_inner temp template 1 (n - 1 - 1) ≡ true =
      same_inner_complete temp template 1 (n - 1 - 1) (λ k lt. bytes k (omega arith)) in
    ground (arith, bytes 0, bytes (n - 1))

-- A segment of the tokeniser and a static token: the test by length, last, first and inner bytes is the
-- equality of the two strings.
pub same_token_iff :
    (log template : Bytes) (s : SegTag)
    → IsSegment log s
    → (same_token (drop s.start_pos log) template s.seg_len ≡ true) ↔ (text log s ≡ template)
same_token_iff log template s h =
    let pos : 0 < s.seg_len = h.filled in
    let fits : s.seg_len ≤ length (drop s.start_pos log) =
      let i = h.inside in omega (arith, length-drop s.start_pos log) in
    (
      same_token_sound (drop s.start_pos log) template s.seg_len pos fits,
      same_token_complete (drop s.start_pos log) template s.seg_len pos fits,
    )

-- the places and segments in pairs: a variable, the same delimiter, or the same string
abbrev pub PieceFits : Bytes → Piece → SegTag → Type 0
PieceFits log p s =
    (p.tag ≡ 2)
    ⊎ (((9 < p.tag) × (s.tag ≡ p.tag))
        ⊎ ((p.tag ≢ 2) × (p.tag ≤ 9) × (s.tag ≤ 9) × (text log s ≡ p.template)))

abbrev pub PiecesFit : Bytes → List Piece → List SegTag → Type 0
PiecesFit log [] [] = Unit
PiecesFit log [] (s ∷ ss) = ⊥
PiecesFit log (p ∷ ps) [] = ⊥
PiecesFit log (p ∷ ps) (s ∷ ss) = PieceFits log p s × PiecesFit log ps ss

-- the segments against the first places
abbrev pub PrefixFits : Bytes → List Piece → List SegTag → Type 0
PrefixFits log [] [] = Unit
PrefixFits log [] (s ∷ ss) = ⊥
PrefixFits log (p ∷ ps) [] = Unit
PrefixFits log (p ∷ ps) (s ∷ ss) = PieceFits log p s × PrefixFits log ps ss

pub PrefixFits-PiecesFit :
    (log : Bytes) (ps : List Piece) (ss : List SegTag)
    → length ps ≡ length ss
    → PrefixFits log ps ss
    → PiecesFit log ps ss
PrefixFits-PiecesFit log [] [] e fits = tt
PrefixFits-PiecesFit log [] (s ∷ ss) e fits = absurd fits
PrefixFits-PiecesFit log (p ∷ ps) [] e fits = absurd (omega arith)
PrefixFits-PiecesFit log (p ∷ ps) (s ∷ ss) e (here, later) =
    (here, PrefixFits-PiecesFit log ps ss (omega arith) later)

pub PiecesFit-PrefixFits :
    (log : Bytes) (ps : List Piece) (ss : List SegTag) → PiecesFit log ps ss → PrefixFits log ps ss
PiecesFit-PrefixFits log [] [] fits = tt
PiecesFit-PrefixFits log [] (s ∷ ss) fits = absurd fits
PiecesFit-PrefixFits log (p ∷ ps) [] fits = tt
PiecesFit-PrefixFits log (p ∷ ps) (s ∷ ss) (here, later) =
    (here, PiecesFit-PrefixFits log ps ss later)

PrefixFits-length :
    (log : Bytes) (ps : List Piece) (ss : List SegTag)
    → PrefixFits log ps ss
    → length ss ≤ length ps
PrefixFits-length log [] [] fits = omega arith
PrefixFits-length log [] (s ∷ ss) fits = absurd fits
PrefixFits-length log (p ∷ ps) [] fits = omega arith
PrefixFits-length log (p ∷ ps) (s ∷ ss) fits = omega (arith, PrefixFits-length log ps ss fits.1)

piece_matches_sound :
    (log : Bytes) (p : Piece) (s : SegTag)
    → IsSegment log s
    → piece_matches log p s ≡ true
    → PieceFits log p s
unfolding piece_matches
piece_matches_sound log p s h m = ground (arith, same_token_iff log p.template s h)

piece_matches_complete :
    (log : Bytes) (p : Piece) (s : SegTag)
    → IsSegment log s
    → PieceFits log p s
    → piece_matches log p s ≡ true
unfolding piece_matches
piece_matches_complete log p s h fits = ground (arith, same_token_iff log p.template s h)

pub pieces_match_sound :
    (log : Bytes) (ps : List Piece) (ss : List SegTag)
    → AreSegments log ss
    → length ss ≤ length ps
    → pieces_match log ps ss ≡ true
    → PrefixFits log ps ss
unfolding pieces_match
pieces_match_sound log [] [] h le m = tt
pieces_match_sound log [] (s ∷ ss) h le m = absurd (omega arith)
pieces_match_sound log (p ∷ ps) [] h le m = tt
pieces_match_sound log (p ∷ ps) (s ∷ ss) h le m = (
  piece_matches_sound log p s h.0 (ground arith),
  pieces_match_sound log ps ss h.1 (omega arith) (ground arith),
)

pub pieces_match_complete :
    (log : Bytes) (ps : List Piece) (ss : List SegTag)
    → AreSegments log ss
    → PrefixFits log ps ss
    → pieces_match log ps ss ≡ true
unfolding pieces_match
pieces_match_complete log [] [] h fits = refl
pieces_match_complete log [] (s ∷ ss) h fits = absurd fits
pieces_match_complete log (p ∷ ps) [] h fits = refl
pieces_match_complete log (p ∷ ps) (s ∷ ss) h fits =
    rw (pieces_match_complete log ps ss h.1 fits.1, piece_matches_complete log p s h.0 fits.0) refl

-- The segments of a line, as the tokeniser makes them: matchMatch reads behind its arrays if and only if
-- there are more segments than places. It returns the number of segments if and only if there are no more
-- of them than places, and each is at its place a variable, or the delimiter there, or a token with the
-- very bytes there; places behind them are not compared.
pub match_match_iff :
    (node : Node) (log : Bytes) (segs : List SegTag)
    → AreSegments log segs
    → ((match_match node log segs ≡ none) ↔ (length node.pieces < length segs))
      × ((match_match node log segs ≡ some (some (length segs))) ↔ PrefixFits log node.pieces segs)
unfolding match_match
match_match_iff node log segs h = elim (Bool-cases (ltb (length node.pieces) (length segs))) [
  | inl over ↦
      let lt : length node.pieces < length segs = ground arith in
      rw over (
        (λ m. lt, λ m. refl),
        (
          λ m. absurd (ground arith),
          λ fits. absurd (omega (arith, PrefixFits-length log node.pieces segs fits)),
        ),
      )
  | inr inside ↦
      let le : length segs ≤ length node.pieces = ground arith in
      elim (Bool-cases (pieces_match log node.pieces segs)) [
        | inl e ↦
            rw (inside, e)
              (
                (λ m. absurd (ground arith), λ lt. absurd (omega arith)),
                (λ m. pieces_match_sound log node.pieces segs h le e, λ fits. refl),
              )
        | inr e ↦
            rw (inside, e)
              (
                (λ m. absurd (ground arith), λ lt. absurd (omega arith)),
                (
                  λ m. absurd (ground arith),
                  λ fits.
                      absurd (ground (arith, pieces_match_complete log node.pieces segs h fits)),
                ),
              )
      ]
]
