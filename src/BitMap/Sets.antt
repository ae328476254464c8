-- ===== src/BitMap/Sets.antt =====
-- Finite sets of line numbers as lists without repetition, and the pigeonhole principle.
use log_grep.Prelude.{
  ℕ, zero, suc, ◌≤◌, ◌<◌, ◌≡◌, refl, Bool, true, false, ◌||◌, ◌&&◌, ◌==◌, if◌then◌else◌, List, [],
  ◌∷◌, ◌++◌, length, arith,
}

abbrev pub has : List ℕ → ℕ → Bool
has [] p = false
has (x ∷ xs) p = if x == p then true else has xs p

abbrev pub Distinct : List ℕ → Type 0
Distinct [] = Unit
Distinct (x ∷ xs) = (has xs x ≡ false) × Distinct xs

abbrev pub Below : ℕ → List ℕ → Type 0
Below n [] = Unit
Below n (x ∷ xs) = (x < n) × Below n xs

-- `xs` with the members that pass `keep`
abbrev pub kept : (ℕ → Bool) → List ℕ → List ℕ
kept keep [] = []
kept keep (x ∷ xs) = if keep x then x ∷ kept keep xs else kept keep xs

remove : ℕ → List ℕ → List ℕ
remove p [] = []
remove p (x ∷ xs) = if x == p then xs else x ∷ remove p xs

length-remove : (p : ℕ) (xs : List ℕ) → length xs ≤ suc (length (remove p xs))
unfolding remove
length-remove p [] = omega arith
length-remove p (x ∷ xs) = ground (arith, length-remove p xs)

has-remove_other : (p q : ℕ) (xs : List ℕ) → has xs q ≡ false → has (remove p xs) q ≡ false
unfolding remove
has-remove_other p q [] h = refl
has-remove_other p q (x ∷ xs) h = ground (arith, has-remove_other p q xs)

remove-Distinct : (p : ℕ) (xs : List ℕ) → Distinct xs → Distinct (remove p xs)
unfolding remove
remove-Distinct p [] d = tt
remove-Distinct p (x ∷ xs) d = ground (arith, remove-Distinct p xs, has-remove_other p x xs)

remove-Below : (n : ℕ) (xs : List ℕ) → Below (suc n) xs → Distinct xs → Below n (remove n xs)
unfolding remove
remove-Below n [] b d = tt
remove-Below n (x ∷ xs) b d = ground (arith, remove-Below n xs, below_of_absent n xs)
  where
    below_of_absent : (n : ℕ) (xs : List ℕ) → Below (suc n) xs → has xs n ≡ false → Below n xs
    below_of_absent n [] b h = tt
    below_of_absent n (x ∷ xs) b h = ground (arith, below_of_absent n xs)

-- Pigeonhole: a list without repetition of numbers below `n` has at most `n` of them.
pub length_of_Distinct : (n : ℕ) (xs : List ℕ) → Distinct xs → Below n xs → length xs ≤ n
length_of_Distinct zero [] d b = omega arith
length_of_Distinct zero (x ∷ xs) d b = absurd (omega arith)
length_of_Distinct (suc n) xs d b = omega (
  arith,
  length-remove n xs,
  length_of_Distinct n (remove n xs) (remove-Distinct n xs d) (remove-Below n xs b d),
)

pub has-append : (xs ys : List ℕ) (p : ℕ) → has (xs ++ ys) p ≡ (has xs p || has ys p)
has-append [] ys p = refl
has-append (x ∷ xs) ys p = ground (arith, has-append xs ys p)

pub has-kept : (keep : ℕ → Bool) (xs : List ℕ) (p : ℕ) → has (kept keep xs) p ≡ (keep p && has xs p)
has-kept keep [] p = ground arith
has-kept keep (x ∷ xs) p = ground (arith, has-kept keep xs p)

pub Below-append : (n : ℕ) (xs ys : List ℕ) → Below n xs → Below n ys → Below n (xs ++ ys)
Below-append n [] ys h k = k
Below-append n (x ∷ xs) ys h k = (h.0, Below-append n xs ys h.1 k)

pub Distinct-snoc : (xs : List ℕ) (p : ℕ) → Distinct xs → has xs p ≡ false → Distinct (xs ++ p ∷ [])
Distinct-snoc [] p d h = (refl, tt)
Distinct-snoc (x ∷ xs) p d h = ground (arith, has-append xs (p ∷ []) x, Distinct-snoc xs p)

pub Below-lookup : (n : ℕ) (xs : List ℕ) (p : ℕ) → Below n xs → has xs p ≡ true → p < n
Below-lookup n [] p b h = absurd (false_ne h)
  where
    false_ne : false ≡ true → ⊥
    false_ne e = ground arith
Below-lookup n (x ∷ xs) p b h = ground (arith, Below-lookup n xs p)
