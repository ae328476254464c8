-- ===== src/Search/Scan.antt =====
-- The loop that the searches over a column of equally long lines share: one step for each line, which
-- puts the line into the bitmap if its test passes. cmdline_loggrep/SearchAlgorithm.cpp.
use log_grep.Prelude.{
  ℕ, zero, suc, ◌+◌, ◌*◌, ◌≤◌, ◌<◌, ◌≡◌, refl, Bool, true, false, ◌&&◌, ◌||◌, ◌==◌, leb, ltb,
  lt→ltb, if◌then◌else◌, Bool-cases, inl, inr, Option, none, some, ◌>>=◌, List, [], ◌∷◌, ◌∙◌, arith,
}
use log_grep.BitMap.{BitMap, union_at}
use log_grep.BitMap.Sets.{has, has-append}
use log_grep.BitMap.Holds.{Holds}
use log_grep.BitMap.Update.{add, union_at-Holds}

-- The test of a line sees the cursor `k`, the line's number and the bitmap; it has no answer where
-- its own fuel ends.
abbrev pub Test : Type 0
Test = ℕ → ℕ → BitMap → Option Bool

-- one round: Union(lineNo) if the test passes
unfoldable pub visit : Test → ℕ → ℕ → BitMap → Option BitMap
visit test k line b = test k line b >>= λ h. if h then union_at line b else some b

-- `while(k < tLen) { ...; k += lineLen; lineNo++; }` on fuel; `none` if the fuel ends.
unfoldable pub each_line : Test → ℕ → ℕ → ℕ → ℕ → ℕ → BitMap → Option BitMap
unfolding visit
each_line test t_len line_len zero k line b = none
each_line test t_len line_len (suc f) k line b = elim (ltb k t_len) [
  | true ↦
      visit test k line b >>= λ b'. each_line test t_len line_len f (k + line_len) (suc line) b'
  | false ↦ some b
]

-- On line `m` of `n` the test answers `S` of the line's number, if the line is not in the bitmap yet.
abbrev pub Decides : Test → (ℕ → Bool) → ℕ → ℕ → ℕ → ℕ → Type 0
Decides test S line_len n k line =
    (m : ℕ) (b : BitMap)
    → m < n
    → (h : Bool) × (test (k + m * line_len) (line + m) b ≡ some h)
      × (b.bitmap (line + m) || h ≡ (b.bitmap (line + m) || S (line + m)))

-- the lines that the loop adds
abbrev pub scanned : (ℕ → Bool) → ℕ → ℕ → ℕ → Bool
scanned S line n p = leb line p && ltb p (line + n) && S p

visit-Holds :
    (test : Test) (S : ℕ → Bool) (k line : ℕ) {b : BitMap} {xs : List ℕ} (h : Bool)
    → test k line b ≡ some h
    → (b.bitmap line || h) ≡ (b.bitmap line || S line)
    → Holds b xs
    → line < b.total_size
    → (b' : BitMap) × (ys : List ℕ) × (visit test k line b ≡ some b')
      × Holds b' ys
      × (b'.total_size ≡ b.total_size)
      × ((p : ℕ) → has ys p ≡ (has xs p || (line == p && S line)))
unfolding visit
visit-Holds test S k line {b} {xs} false e d v l =
    (b, xs, rw e refl, v, refl, λ p. ground (arith, v.bits line, v.bits p))
visit-Holds test S k line {b} {xs} true e d v l =
    let (b', q, w, t) = union_at-Holds line v l in
    (
      b',
      add line xs,
      rw e q,
      w,
      t,
      λ p. ground (arith, v.bits line, v.bits p, has-append xs (line ∷ []) p),
    )

Decides-first :
    (test : Test) (S : ℕ → Bool) (line_len n k line : ℕ)
    → Decides test S line_len (suc n) k line
    → (b : BitMap)
    → (h : Bool) × (test k line b ≡ some h) × ((b.bitmap line || h) ≡ (b.bitmap line || S line))
Decides-first test S line_len n k line d b =
    let e : k + 0 * line_len ≡ k = omega arith in
    let e' : line + 0 ≡ line = omega arith in rw (e, e') at (d 0 b (omega arith))

Decides-rest :
    (test : Test) (S : ℕ → Bool) (line_len n k line : ℕ)
    → Decides test S line_len (suc n) k line
    → Decides test S line_len n (k + line_len) (suc line)
Decides-rest test S line_len n k line d m b l =
    let e : k + suc m * line_len ≡ k + line_len + m * line_len = omega arith in
    let e' : line + suc m ≡ suc line + m = omega arith in rw (e, e') at (d (suc m) b (omega arith))

scanned_cons :
    (S : ℕ → Bool) (line n p : ℕ) (x y : Bool)
    → y ≡ (x || (line == p && S line))
    → (y || scanned S (suc line) n p) ≡ (x || scanned S line (suc n) p)
scanned_cons S line n p x y e = elim (Bool-cases (line == p)) [
  | inl h ↦ let h' : p ≡ line = ground arith in rw h' (ground arith)
  | inr h ↦ ground arith
]

-- The loop visits each of the `n` lines once and adds those that pass, within any fuel above `n`.
pub each_line-Holds :
    (test : Test) (S : ℕ → Bool) (t_len line_len n f k line : ℕ) {b : BitMap} {xs : List ℕ}
    → Holds b xs
    → Decides test S line_len n k line
    → ((m : ℕ) → m < n → k + m * line_len < t_len)
    → t_len ≤ k + n * line_len
    → n < f
    → line + n ≤ b.total_size
    → (b' : BitMap) × (ys : List ℕ) × (each_line test t_len line_len f k line b ≡ some b')
      × Holds b' ys
      × ((p : ℕ) → has ys p ≡ (has xs p || scanned S line n p))
unfolding each_line
each_line-Holds test S t_len line_len n zero k line v d runs ends fuel fits = absurd (omega arith)
each_line-Holds test S t_len line_len zero (suc f) k line {b} {xs} v d runs ends fuel fits =
    (b, xs, rw (no_more, each_line), v, λ p. ground arith)
  where
    no_more : ltb k t_len ≡ false
    no_more = ground arith
each_line-Holds test S t_len line_len (suc n) (suc f) k line {b} {xs} v d runs ends fuel fits =
    let (h, e, s) = Decides-first test S line_len n k line d b in
    let (b₁, ys, q₁, v₁, t₁, m₁) = visit-Holds test S k line h e s v (omega arith) in
    let (b₂, zs, q₂, v₂, m₂) =
      each_line-Holds test S t_len line_len n f (k + line_len) (suc line) v₁
        (Decides-rest test S line_len n k line d) (λ m l. omega (arith, runs (suc m) (omega arith)))
        (omega arith) (omega arith) (omega (arith, fits, t₁)) in
    (
      b₂,
      zs,
      rw (goes_on, each_line, q₁) q₂,
      v₂,
      λ p. m₂ p ∙ scanned_cons S line n p (has xs p) (has ys p) (m₁ p),
    )
  where
    goes_on : ltb k t_len ≡ true
    goes_on = lt→ltb k t_len (omega (arith, runs 0 (omega arith)))
