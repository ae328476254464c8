-- ===== src/Template/Segments.antt =====
-- The segments that matchFile (compression/main.cpp) finds, against the bytes of the line.
use native.Mathlib.Numerals.{unary_clauses}
use log_grep.Prelude.{
  ℕ, zero, suc, ◌+◌, ◌-◌, ◌≤◌, ◌<◌, ◌≡◌, refl, sym, ap, true, ltb, Bool-cases, ◌⊎◌, inl, inr, List,
  [], ◌∷◌, ◌++◌, append-nil, append_assoc, length, take, drop, arith,
}
use log_grep.Bytes.{Bytes, at}
use log_grep.Template.{SegTag, text, slice, is_delim, Scan, end_token, scan_byte}

abbrev pub texts : Bytes → List SegTag → Bytes
texts log [] = []
texts log (s ∷ ss) = text log s ++ texts log ss

pub texts-append :
    (log : Bytes) (xs ys : List SegTag) → texts log (xs ++ ys) ≡ texts log xs ++ texts log ys
texts-append log [] ys = refl
texts-append log (x ∷ xs) ys =
    rw (texts-append log xs ys, append_assoc (text log x) (texts log xs) (texts log ys)) refl

take-add : (n m : ℕ) (xs : Bytes) → take n xs ++ take m (drop n xs) ≡ take (n + m) xs
take-add zero m xs = let e : 0 + m ≡ m = omega arith in rw e refl
take-add (suc n) zero [] = simp unary_clauses refl
take-add (suc n) (suc m) [] = simp unary_clauses refl
take-add (suc n) m (x ∷ xs) =
    let e : suc n + m ≡ suc (n + m) = omega arith in rw e (ap (λ r. x ∷ r) (take-add n m xs))

drop-drop : (a b : ℕ) (xs : Bytes) → drop b (drop a xs) ≡ drop (a + b) xs
drop-drop zero b xs = let e : 0 + b ≡ b = omega arith in rw e refl
drop-drop (suc a) zero [] = simp unary_clauses refl
drop-drop (suc a) (suc b) [] = simp unary_clauses refl
drop-drop (suc a) b (x ∷ xs) =
    let e : suc a + b ≡ suc (a + b) = omega arith in rw e (drop-drop a b xs)

pub slice-append :
    (log : Bytes) (a b c : ℕ) → a ≤ b → b ≤ c → slice log a b ++ slice log b c ≡ slice log a c
slice-append log a b c le1 le2 =
    let at_b : a + (b - a) ≡ b = omega arith in
    let whole : b - a + (c - b) ≡ c - a = omega arith in
    rw (sym whole, sym (take-add (b - a) (c - b) (drop a log)), drop-drop a (b - a) log, at_b) refl

-- A segment of the tokeniser: inside the buffer, not empty, and with the delimiter as its tag when that
-- is a delimiter.
pub record IsSegment (log : Bytes) (s : SegTag) : Type 0 where
  pub filled : 0 < s.seg_len
  pub inside : s.start_pos + s.seg_len ≤ length log
  pub tagged : (s.tag ≡ 0) ⊎ ((2 < s.tag) × (text log s ≡ s.tag ∷ []))

abbrev pub AreSegments : Bytes → List SegTag → Type 0
AreSegments log [] = Unit
AreSegments log (s ∷ ss) = IsSegment log s × AreSegments log ss

pub AreSegments-append :
    (log : Bytes) (xs ys : List SegTag)
    → AreSegments log xs
    → AreSegments log ys
    → AreSegments log (xs ++ ys)
AreSegments-append log [] ys hx hy = hy
AreSegments-append log (x ∷ xs) ys hx hy = (hx.0, AreSegments-append log xs ys hx.1 hy)

-- What holds before the byte `i` is read: the segments are the line up to segStart.
pub record IsScan (log : Bytes) (i : ℕ) (s : Scan) : Type 0 where
  pub starts : s.line_start ≤ s.seg_start
  pub reached : s.seg_start ≤ i
  pub whole : texts log s.segs ≡ slice log s.line_start s.seg_start
  pub segments : AreSegments log s.segs

pub end_token-texts :
    (log : Bytes) (i : ℕ) (s : Scan)
    → IsScan log i s
    → texts log (end_token i s) ≡ slice log s.line_start i
unfolding end_token
end_token-texts log i s h = elim (Bool-cases (ltb s.seg_start i)) [
  | inl e ↦
      let last : SegTag = record { start_pos = s.seg_start; seg_len = i - s.seg_start; tag = 0 } in
      rw
        (
          e,
          texts-append log s.segs (last ∷ []),
          h.whole,
          append-nil (text log last),
          slice-append log s.line_start s.seg_start i h.starts h.reached,
        )
        refl
  | inr e ↦
      let at_end : s.seg_start ≡ i = let r = h.reached in ground arith in rw (e, h.whole, at_end)
]

pub take_one-drop : (log : Bytes) (i : ℕ) → i < length log → take 1 (drop i log) ≡ at log i ∷ []
take_one-drop [] i lt = absurd (omega arith)
take_one-drop (c ∷ log) zero lt = refl
take_one-drop (c ∷ log) (suc i) lt = take_one-drop log i (omega arith)

pub end_token-AreSegments :
    (log : Bytes) (i : ℕ) (s : Scan)
    → i ≤ length log
    → IsScan log i s
    → AreSegments log (end_token i s)
unfolding end_token
end_token-AreSegments log i s le h = elim (Bool-cases (ltb s.seg_start i)) [
  | inl e ↦
      let lt : s.seg_start < i = ground arith in
      rw e (
        AreSegments-append log s.segs _ h.segments
          (record { filled = omega arith; inside = omega arith; tagged = inl refl }, tt))
  | inr e ↦ rw e h.segments
]

is_delim-tag : (c : ℕ) → is_delim c ≡ true → (c ≡ 0) ⊎ (2 < c)
unfolding is_delim
is_delim-tag c h = ground arith

-- A round keeps what holds of the line read so far.
pub scan_byte-IsScan :
    (log : Bytes) (i : ℕ) (s : Scan)
    → i < length log
    → IsScan log i s
    → IsScan log (suc i) (scan_byte i (at log i) s)
unfolding scan_byte
scan_byte-IsScan log i s lt h = elim (Bool-cases (is_delim (at log i))) [
  | inl e ↦
      let one : SegTag = record { start_pos = i; seg_len = 1; tag = at log i } in
      let le : s.line_start ≤ i = let a = h.starts in let b = h.reached in omega arith in
      let text_one : text log one ≡ at log i ∷ [] = take_one-drop log i lt in
      let last : slice log i (suc i) ≡ at log i ∷ [] =
        let n : suc i - i ≡ 1 = omega arith in rw n text_one in
      let delimiter : (at log i ≡ 0) ⊎ ((2 < at log i) × (text log one ≡ at log i ∷ [])) =
        elim (is_delim-tag (at log i) e) [ inl z ↦ inl z | inr lt ↦ inr (lt, text_one) ] in
      rw e (record {
        starts = omega arith;
        reached = omega arith;
        whole =
            rw
              (
                texts-append log (end_token i s) (one ∷ []),
                end_token-texts log i s h,
                append-nil (text log one),
                text_one,
                sym last,
                slice-append log s.line_start i (suc i) le (omega arith),
              )
              refl;
        segments =
            AreSegments-append log (end_token i s) (one ∷ [])
              (end_token-AreSegments log i s (omega arith) h)
              (record { filled = omega arith; inside = omega arith; tagged = delimiter }, tt);
      })
  | inr e ↦ rw e (record {
    starts = h.starts;
    reached = (let b = h.reached in omega arith);
    whole = h.whole;
    segments = h.segments;
  })
]
