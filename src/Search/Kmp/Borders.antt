-- ===== src/Search/Kmp/Borders.antt =====
-- Overlaps of a pattern with a text and with itself.
use log_grep.Prelude.{
  ℕ, zero, suc, ◌+◌, ◌-◌, ◌≤◌, ◌<◌, ◌≡◌, refl, sym, ap, ◌∙◌, Bool-cases, inl, inr, ◌==◌, arith,
}

-- the first `b` reads of `t` are those of `s` from `d` on
abbrev pub Agree : (t s : ℕ → ℕ) (d b : ℕ) → Type 0
Agree t s d b = (k : ℕ) → k < b → t k ≡ s (d + k)

module _ (t s : ℕ → ℕ) where
  pub Agree-less : (d b c : ℕ) → c ≤ b → Agree t s d b → Agree t s d c
  Agree-less d b c h a k l = a k (omega arith)

  pub Agree-more : (d b i : ℕ) → d + b ≡ i → t b ≡ s i → Agree t s d b → Agree t s d (suc b)
  Agree-more d b i e h a k l = elim (Bool-cases (k == b)) [
    | inl q ↦ let q' : k ≡ b = ground arith in rw (q', e) h
    | inr q ↦ a k (ground arith)
  ]

  -- Two overlaps with `s` overlap each other.
  pub Agree-within :
      (d e f b c : ℕ) → d + e ≡ f → e + c ≤ b → Agree t s d b → Agree t s f c → Agree t t e c
  Agree-within d e f b c q h a a' k l =
      let n : d + (e + k) ≡ f + k = omega arith in
      a' k l ∙ ap s (sym n) ∙ sym (a (e + k) (omega arith))

  -- An overlap of `t` with itself, inside an overlap with `s`, is one with `s`.
  pub Agree-through :
      (d e f b c : ℕ) → d + e ≡ f → e + c ≤ b → Agree t s d b → Agree t t e c → Agree t s f c
  Agree-through d e f b c q h a a' k l =
      let n : d + (e + k) ≡ f + k = omega arith in a' k l ∙ a (e + k) (omega arith) ∙ ap s n

-- What the cell `next[j]` is for, with `kk` one above it: the longest border of the first `j` bytes
-- that is not followed by the byte at `j` again.
pub record NextOk (t : ℕ → ℕ) (j kk : ℕ) : Type 0 where
  pub lower : kk ≤ j
  pub border : (k d : ℕ) → kk ≡ suc k → d + k ≡ j → Agree t t d k
  pub skipped : (b d : ℕ) → kk ≤ b → b < j → d + b ≡ j → Agree t t d b → t b ≡ t j

-- Falling back from `j` to `next[j]` keeps an overlap.
pub fall_back :
    (t s : ℕ → ℕ) (d j i kk : ℕ)
    → d + j ≡ i
    → NextOk t j kk
    → Agree t s d j
    → Agree t s (suc i - kk) (kk - 1)
fall_back t s d j i zero e o a = λ k l. absurd (omega arith)
fall_back t s d j i (suc k) e o a = Agree-less t s (suc i - suc k) k (suc k - 1) (omega arith) (
    Agree-through t s d (j - k) (suc i - suc k) j k (omega (arith, o.lower))
      (omega (arith, o.lower)) a (o.border k (j - k) refl (omega (arith, o.lower))))
