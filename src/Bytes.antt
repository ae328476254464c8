-- ===== src/Bytes.antt =====
-- C strings and buffers as lists of bytes. A read past the end finds the terminating NUL.
use log_grep.Prelude.{
  ℕ, zero, suc, ◌≡◌, ◌&&◌, ◌==◌, if◌then◌else◌, List, [], ◌∷◌, length, get_or, set, ltb, arith, ◌+◌,
  ◌<◌, refl, ap₂, take, drop,
}
use Prim.Native.Char.{code}
use Prim.Native.String.{String}

abbrev pub Bytes : Type 0
Bytes = List ℕ

-- `s[j]`
abbrev pub at : Bytes → ℕ → ℕ
at s j = get_or s j 0

abbrev pub codes : String → Bytes
codes String.[] = []
codes (String.◌∷◌ c s) = code c ∷ codes s

-- A read after a write.
pub at-set :
    (s : Bytes) (i v j : ℕ) → at (set s i v) j ≡ (if i == j && ltb i (length s) then v else at s j)
at-set [] i v j = ground arith
at-set (c ∷ s) zero v zero = ground arith
at-set (c ∷ s) zero v (suc j) = ground arith
at-set (c ∷ s) (suc i) v zero = ground arith
at-set (c ∷ s) (suc i) v (suc j) = ground (arith, at-set s i v j)

-- Two strings of the same length and with the same bytes are the same.
pub same_bytes :
    (xs ys : Bytes)
    → length xs ≡ length ys
    → ((j : ℕ) → j < length xs → at xs j ≡ at ys j)
    → xs ≡ ys
same_bytes [] [] e h = refl
same_bytes [] (y ∷ ys) e h = absurd (omega arith)
same_bytes (x ∷ xs) [] e h = absurd (omega arith)
same_bytes (x ∷ xs) (y ∷ ys) e h =
    ap₂ ◌∷◌ (h 0 (omega arith)) (same_bytes xs ys (omega arith) (λ j lt. h (suc j) (omega arith)))

pub at-take : (n : ℕ) (xs : Bytes) (j : ℕ) → j < n → at (take n xs) j ≡ at xs j
at-take zero xs j lt = absurd (omega arith)
at-take (suc n) [] j lt = refl
at-take (suc n) (x ∷ xs) zero lt = refl
at-take (suc n) (x ∷ xs) (suc j) lt = at-take n xs j (omega arith)

pub at-drop : (a : ℕ) (xs : Bytes) (k : ℕ) → at (drop a xs) k ≡ at xs (a + k)
at-drop zero xs k = let e : 0 + k ≡ k = omega arith in rw e refl
at-drop (suc a) [] k = refl
at-drop (suc a) (x ∷ xs) k = let e : suc a + k ≡ suc (a + k) = omega arith in rw e (at-drop a xs k)
