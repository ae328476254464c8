-- ===== src/Search/Compare/Laws.antt =====
-- The comparisons as one statement: the pattern stands in the text at a position.
use log_grep.Prelude.{
  ℕ, zero, suc, ◌+◌, ◌-◌, ◌*◌, ◌≤◌, ◌<◌, ◌≡◌, ◌↔◌, refl, ap, Bool, true, false, not, ◌&&◌, ◌||◌,
  ◌==◌, ltb, Bool-cases, inl, inr, length, arith,
}
use log_grep.Bytes.{Bytes, at}
use log_grep.Search.Compare.{
  hit, left_from, seq_matching_align_left, right_from, seq_matching_align_right, multi_from,
  seq_matching_multi_ful, max_dicenty_len,
}

-- The first `n` reads of `p` are those of `t` from position `s` on.
abbrev pub stands : (ℕ → ℕ) → (ℕ → ℕ) → ℕ → ℕ → Bool
stands p t s zero = true
stands p t s (suc n) = p n == t (s + n) && stands p t s n

-- What `stands` says, position by position.
pub stands_at : (p t : ℕ → ℕ) (s n k : ℕ) → stands p t s n ≡ true → k < n → p k ≡ t (s + k)
stands_at p t s zero k h l = absurd (omega arith)
stands_at p t s (suc n) k h l = elim (Bool-cases (k == n)) [
  | inl e ↦ let e' : k ≡ n = ground arith in rw e' (ground arith)
  | inr e ↦ stands_at p t s n k (ground arith) (ground arith)
]

hit-zero : (p t : ℕ → ℕ) (s : ℕ) → hit p t 0 s ≡ (p 0 == t s)
unfolding hit
hit-zero p t s = ground arith

-- The backward loop and its test find exactly the places where the pattern stands.
pub hit-stands : (p t : ℕ → ℕ) (i s j : ℕ) → j ≡ s + i → hit p t i j ≡ stands p t s (suc i)
unfolding hit
hit-stands p t zero s j e = let e' : j ≡ s + 0 = e in rw e' (ground arith)
hit-stands p t (suc i) s j e = elim (Bool-cases (p (suc i) == t j)) [
  | inl h ↦ ground (arith, hit-stands p t i s (j - 1) (omega arith), ap t e)
  | inr h ↦ ground (arith, ap t e)
]

pub left_from-stands : (s t : ℕ → ℕ) (n : ℕ) → left_from s t n ≡ stands t s 0 n
unfolding left_from
left_from-stands s t zero = refl
left_from-stands s t (suc n) =
    let e : 0 + n ≡ n = omega arith in ground (arith, left_from-stands s t n, ap s e)

pub hit-stands_length :
    (p t : ℕ → ℕ) (n s j : ℕ) → 0 < n → j ≡ s + (n - 1) → hit p t (n - 1) j ≡ stands p t s n
hit-stands_length p t zero s j h e = absurd (omega arith)
hit-stands_length p t (suc n) s j h e =
    let c : suc n - 1 ≡ n = omega arith in rw c (hit-stands p t n s j (omega arith))

left_from-agrees : (s t : ℕ → ℕ) (n : ℕ) → (left_from s t n ≡ true) ↔ ((k : ℕ) → k < n → s k ≡ t k)
unfolding left_from
left_from-agrees s t zero = (λ h k lt. absurd (omega arith), λ h. refl)
left_from-agrees s t (suc n) =
    let rest = left_from-agrees s t n in
    elim (Bool-cases (s n == t n)) [
      | inl e ↦
          let last : s n ≡ t n = ground arith in
          rw e (
            λ h k lt. elim (Bool-cases (k == n)) [
              | inl same ↦ let it : k ≡ n = ground arith in rw it last
              | inr other ↦ rest.0 h k (ground arith)
            ],
            λ h. rest.1 (λ k lt. h k (omega arith)),
          )
      | inr e ↦
          rw e
            (λ h. absurd (ground arith), λ h. let last = h n (omega arith) in absurd (ground arith))
    ]

-- SeqMatching_AlignLeft with four arguments is true if and only if the pattern is no longer than the line
-- and each of its bytes is the line's at the same place.
pub seq_matching_align_left-agrees :
    (s : ℕ → ℕ) (s_len : ℕ) (t : Bytes)
    → (seq_matching_align_left s s_len t ≡ true)
      ↔ ((length t ≤ s_len) × ((k : ℕ) → k < length t → s k ≡ at t k))
unfolding seq_matching_align_left
seq_matching_align_left-agrees s s_len t =
    let all = left_from-agrees s (at t) (length t) in
    elim (Bool-cases (ltb s_len (length t))) [
      | inl over ↦ rw over (λ h. absurd (ground arith), λ h. let le = h.0 in absurd (ground arith))
      | inr fits ↦ rw fits (λ h. (ground arith, all.0 h), λ h. all.1 h.1)
    ]

right_from-stands :
    (s : ℕ → ℕ) (s_len : ℕ) (t : Bytes) (r i : ℕ)
    → r + i ≡ suc (length t)
    → length t ≤ s_len
    → right_from s s_len t r i ≡ stands (at t) s (s_len - length t) r
unfolding right_from
right_from-stands s s_len t zero i e h = refl
right_from-stands s s_len t (suc r) i e h =
    let a : s_len - i ≡ s_len - length t + r = omega arith in
    let c : length t - i ≡ r = omega arith in
    rw (a, c) (ground (arith, right_from-stands s s_len t r (suc i) (omega arith) h))

-- SeqMatching_AlignRight: the pattern stands at the end of the line.
pub seq_matching_align_right-stands :
    (s : ℕ → ℕ) (s_len : ℕ) (t : Bytes)
    → seq_matching_align_right s s_len t
      ≡ (not (ltb s_len (length t)) && stands (at t) s (s_len - length t) (length t))
unfolding seq_matching_align_right
seq_matching_align_right-stands s s_len t =
    ground (arith, right_from-stands s s_len t (length t) 1 (omega arith))

-- one of the `r` patterns from number `i` on, at a stride of MAX_DICENTY_LEN, is the whole line
abbrev pub some_pattern : (ℕ → ℕ) → ℕ → Bytes → ℕ → ℕ → Bool
some_pattern s s_len t zero i = false
some_pattern s s_len t (suc r) i =
    stands (λ k. at t (i * max_dicenty_len + k)) s 0 s_len || some_pattern s s_len t r (suc i)

multi_from-some_pattern :
    (s : ℕ → ℕ) (s_len : ℕ) (t : Bytes) (r i : ℕ)
    → multi_from s s_len t r i ≡ some_pattern s s_len t r i
unfolding multi_from
multi_from-some_pattern s s_len t zero i = refl
multi_from-some_pattern s s_len t (suc r) i = ground (
  arith,
  left_from-stands s (λ k. at t (i * max_dicenty_len + k)) s_len,
  multi_from-some_pattern s s_len t r (suc i),
)

-- SeqMatching_MultiFul: one of the patterns is the whole line.
pub seq_matching_multi_ful-some_pattern :
    (s : ℕ → ℕ) (s_len : ℕ) (t : Bytes) (t_cnt : ℕ)
    → seq_matching_multi_ful s s_len t t_cnt ≡ some_pattern s s_len t t_cnt 0
unfolding seq_matching_multi_ful
seq_matching_multi_ful-some_pattern s s_len t t_cnt = multi_from-some_pattern s s_len t t_cnt 0
