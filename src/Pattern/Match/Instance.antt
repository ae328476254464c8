-- ===== src/Pattern/Match/Instance.antt =====
-- A stored value against its own pattern: SubPatMatch_0_J of cmdline_loggrep/SearchAlgorithm.cpp, where
-- the variables are of a fixed length.
use log_grep.Prelude.{
  ℕ, zero, suc, ◌+◌, ◌-◌, ◌≤◌, ◌<◌, ◌≡◌, refl, sym, ◌∙◌, true, false, ◌==◌, ltb, leb, Bool-cases,
  inl, inr, some, List, [], ◌∷◌, ◌++◌, length, length-append, arith,
}
use log_grep.Bytes.{Bytes, at}
use log_grep.Pattern.Chars.{char_fits, match_in_subpat_var_forward, const_end}
use log_grep.Pattern.Chars.Laws.{Reads, const_forward-Reads, var_forward-full}
use log_grep.Pattern.Matrix.{
  RegMatch, RegMatches, RegMatrix, reg_match, addx, addx_rows, add, on_head, max_subattr_cnt,
}
use log_grep.Pattern.Match.{
  Segment, const, var, SubVarInfo, match_full, went_through, segments_forward,
}

-- Every byte of `w` is of a class that the stamp has.
abbrev pub Fits : ℕ → Bytes → Type 0
Fits tag w = (k : ℕ) → k < length w → char_fits tag (at w k) ≡ true

-- The values of a pattern: constants stand for themselves, a variable for `len` bytes of its classes.
pub data Instance : List Segment → Bytes → Type 0 where
  done : Instance [] []
  constant :
      {segs : List Segment} {s : Bytes} (d : ℕ) (c : Bytes)
      → Instance segs s
      → Instance (const (d ∷ c) ∷ segs) ((d ∷ c) ++ s)
  value :
      {segs : List Segment} {s : Bytes} (name : ℕ) (v : SubVarInfo) (w : Bytes)
      → v.fixed ≡ true
      → 0 < length w
      → length w ≡ v.len
      → Fits v.tag w
      → Instance segs s
      → Instance (var name v ∷ segs) (w ++ s)

-- The matches that the variables make, on those made before: `i` counts segments, `sou` bytes.
abbrev pub places : List Segment → ℕ → ℕ → List RegMatch → List RegMatch
places [] i sou ms = ms
places (const c ∷ segs) i sou ms = places segs (suc i) (sou + length c) ms
places (var name v ∷ segs) i sou ms =
    places segs (suc i) (sou + v.len) (reg_match i sou v.len name ∷ ms)

-- a matrix whose last row has the matches `ms`
abbrev pub with_row : RegMatches → List RegMatches → RegMatrix → List RegMatch → RegMatrix
with_row r rs x ms = record x { rows = record r { matches = ms } ∷ rs }

at-append_left : (a b : Bytes) (k : ℕ) → k < length a → at (a ++ b) k ≡ at a k
at-append_left [] b k lt = absurd (omega arith)
at-append_left (c ∷ a) b zero lt = refl
at-append_left (c ∷ a) b (suc k) lt = at-append_left a b k (omega arith)

at-append_right : (a b : Bytes) (k : ℕ) → at (a ++ b) (length a + k) ≡ at b k
at-append_right [] b k = let e : 0 + k ≡ k = omega arith in rw e
at-append_right (c ∷ a) b k =
    let e : suc (length a) + k ≡ suc (length a + k) = omega arith in rw e (at-append_right a b k)

Reads-left : (source : ℕ → ℕ) (i : ℕ) (a b : Bytes) → Reads source i (a ++ b) → Reads source i a
Reads-left source i a b h k lt =
    rw (sym (at-append_left a b k lt)) (h k (omega (arith, length-append a b)))

Reads-right :
    (source : ℕ → ℕ) (i : ℕ) (a b : Bytes) → Reads source i (a ++ b) → Reads source (i + length a) b
Reads-right source i a b h k lt =
    let e : i + length a + k ≡ i + (length a + k) = omega arith in
    rw (e, sym (at-append_right a b k)) (h (length a + k) (omega (arith, length-append a b)))

addx-with_row :
    (r : RegMatches) (rs : List RegMatches) (x : RegMatrix) (ms : List RegMatch) (i so eo name : ℕ)
    → length ms < 50
    → addx (with_row r rs x ms) i so eo name ≡ some (with_row r rs x (reg_match i so eo name ∷ ms))
unfolding addx addx_rows add on_head
addx-with_row r rs x ms i so eo name lt =
    let t : ltb (length ms) max_subattr_cnt ≡ true = ground arith in rw t

module _ (source : ℕ → ℕ) (sou_len : ℕ) where
  -- one variable of a fixed length, whatever stands behind it
  forward-value :
      (name : ℕ) (v : SubVarInfo) (segs : List Segment) (i sou sou' n : ℕ) (x x' : RegMatrix)
      → v.fixed ≡ true
      → leb sou_len sou ≡ false
      → leb v.len n ≡ true
      → match_in_subpat_var_forward v.tag v.len source sou_len sou ≡ (some n, sou')
      → addx x i (sou' - n) n name ≡ some x'
      → segments_forward source sou_len (var name v ∷ segs) i sou true x
        ≡ segments_forward source sou_len segs (suc i) sou' true x'
  unfolding segments_forward
  forward-value name v [] i sou sou' n x x' fixed before whole run add =
      rw (before, run, segments_forward) (rw (add, fixed, whole, segments_forward))
  forward-value name v (const c ∷ segs) i sou sou' n x x' fixed before whole run add =
      rw (before, run, segments_forward) (rw (fixed, add, whole, segments_forward))
  forward-value name v (var m u ∷ segs) i sou sou' n x x' fixed before whole run add =
      rw (before, run, segments_forward) (rw (add, fixed, whole, segments_forward))

  forward-constant :
      (c : Bytes) (segs : List Segment) (i sou : ℕ) (x : RegMatrix)
      → 0 < length c
      → sou + length c ≤ sou_len
      → Reads source sou c
      → segments_forward source sou_len (const c ∷ segs) i sou true x
        ≡ segments_forward source sou_len segs (suc i) (sou + length c) true x
  unfolding segments_forward const_end
  forward-constant c segs i sou x pos le h =
      let before : leb sou_len sou ≡ false = ground arith in
      let run = const_forward-Reads c source sou_len sou le h in
      elim (Bool-cases (sou + length c == sou_len)) [
        | inl e ↦ rw (before, run, e, const_end)
        | inr e ↦ rw (before, run, e, const_end)
      ]

  pub forward-Instance :
      {segs : List Segment} {s : Bytes} (p : Instance segs s) (i sou : ℕ) (r : RegMatches)
      (rs : List RegMatches) (x : RegMatrix) (ms : List RegMatch)
      → sou + length s ≡ sou_len
      → Reads source sou s
      → length ms + length segs ≤ 50
      → segments_forward source sou_len segs i sou true (with_row r rs x ms)
        ≡ some (match_full, with_row r rs x (places segs i sou ms))
  unfolding segments_forward went_through
  forward-Instance done i sou r rs x ms e h room =
      let t : leb sou_len sou ≡ true = ground arith in rw t
  forward-Instance {segs = const _ ∷ segs} (constant {s = s} d c p) i sou r rs x ms e h room =
      let len = length-append (d ∷ c) s in
      forward-constant (d ∷ c) segs i sou (with_row r rs x ms) (omega arith) (omega arith)
        (Reads-left source sou (d ∷ c) s h)
      ∙ forward-Instance p (suc i) (sou + length (d ∷ c)) r rs x ms (omega arith)
          (Reads-right source sou (d ∷ c) s h) (omega arith)
  forward-Instance {segs = var _ _ ∷ segs} (value {s = s} name v w fixed pos whole fits p) i sou r
        rs x ms e h room =
      let len = length-append w s in
      let here = Reads-left source sou w s h in
      let before : leb sou_len sou ≡ false = ground arith in
      let enough : leb v.len v.len ≡ true = ground arith in
      let back : sou + v.len - v.len ≡ sou = omega arith in
      let run =
        var_forward-full v.tag v.len source sou_len sou (omega arith) (omega arith)
          (λ k lt. rw (here k (omega arith)) (fits k (omega arith))) in
      let add : addx (with_row r rs x ms) i (sou + v.len - v.len) v.len name
          ≡ some (with_row r rs x (reg_match i sou v.len name ∷ ms)) =
        rw back (addx-with_row r rs x ms i sou v.len name (omega arith)) in
      forward-value name v segs i sou (sou + v.len) v.len (with_row r rs x ms) _ fixed before enough
        run add
      ∙ forward-Instance p (suc i) (sou + v.len) r rs x (reg_match i sou v.len name ∷ ms)
          (omega arith) (rw (sym whole) (Reads-right source sou w s h)) (omega arith)
