-- ===== src/Search/Kmp/First.antt =====
-- KMP of cmdline_loggrep/SearchAlgorithm.cpp against trying all positions in turn.
use log_grep.Prelude.{
  ℕ, zero, suc, ◌+◌, ◌-◌, ◌*◌, ◌≤◌, ◌<◌, ◌≡◌, ◌≢◌, refl, sym, ap, ◌∙◌, true, false, ◌&&◌, ◌||◌,
  ◌==◌, leb, ltb, ltb→lt, if◌then◌else◌, Bool-cases, ◌⊎◌, inl, inr, some, List, length, arith,
}
use log_grep.Bytes.{Bytes, at}
use log_grep.Search.Compare.Laws.{stands, stands_at}
use log_grep.Search.QueryType.{QueryType, align_full, align_left, align_right, align_any, align_dic}
use log_grep.Search.Kmp.{
  max_value_len, kmp_loop, kmp_search, kmp_answer, Position, position, minus_one,
}
use log_grep.Search.Kmp.Borders.{Agree, Agree-less, Agree-more, Agree-within, NextOk, fall_back}
use log_grep.Search.Kmp.Table.{TableOk, init_kmp_next-TableOk}

-- The reference: try the positions one by one, `r` of them from `d` on.
abbrev pub first_from : (ℕ → ℕ) → Bytes → ℕ → ℕ → Position
first_from s t zero d = minus_one
first_from s t (suc r) d =
    if stands (at t) s d (length t) then position d else first_from s t r (suc d)

-- The positions of a pattern in a line of `s_len` bytes are 0 up to `s_len - length t`.
abbrev pub first_occurrence : (ℕ → ℕ) → ℕ → Bytes → Position
first_occurrence s s_len t = first_from s t (suc s_len - length t) 0

-- What a query type makes of the first occurrence.
abbrev pub accept : QueryType → ℕ → ℕ → Position → Position
accept q s_len t_len minus_one = minus_one
accept align_any s_len t_len (position d) = position d
accept align_right s_len t_len (position d) = if d + t_len == s_len then position d else minus_one
accept align_left s_len t_len (position d) = if d == 0 then position d else minus_one
accept align_full s_len t_len (position d) = position d
accept align_dic s_len t_len (position d) = if s_len == t_len then position d else minus_one

stands_of_Agree : (s t : ℕ → ℕ) (d n : ℕ) → Agree t s d n → stands t s d n ≡ true
stands_of_Agree s t d zero a = refl
stands_of_Agree s t d (suc n) a =
    ground (arith, a n (omega arith), stands_of_Agree s t d n (λ k l. a k (omega arith)))

module _ (s : ℕ → ℕ) (s_len : ℕ) (t : Bytes) where
  -- no occurrence begins before `d`
  abbrev NoneBefore : ℕ → Type 0
  NoneBefore d = (e : ℕ) → e < d → e + length t ≤ s_len → ¬ Agree (at t) s e (length t)

  first_from_skip :
      (r d e : ℕ)
      → d ≤ e
      → e + length t ≤ s_len
      → d + r ≡ suc s_len - length t
      → NoneBefore e
      → Agree (at t) s e (length t)
      → first_from s t r d ≡ position e
  first_from_skip zero d e h l q n a = absurd (omega arith)
  first_from_skip (suc r) d e h l q n a = elim (Bool-cases (d == e)) [
    | inl z ↦ let z' : d ≡ e = ground arith in rw (z', stands_of_Agree s (at t) e (length t) a) refl
    | inr z ↦ elim (Bool-cases (stands (at t) s d (length t))) [
      | inl y ↦
          absurd (n d (ground arith) (omega arith) λ k k'. stands_at (at t) s d (length t) k y k')
      | inr y ↦ rw y (first_from_skip r (suc d) e (ground arith) l (omega arith) n a)
    ]
  ]

  first_from_none :
      (r d : ℕ)
      → d + r ≡ suc s_len - length t
      → ((e : ℕ) → e + length t ≤ s_len → ¬ Agree (at t) s e (length t))
      → first_from s t r d ≡ minus_one
  first_from_none zero d q n = refl
  first_from_none (suc r) d q n = elim (Bool-cases (stands (at t) s d (length t))) [
    | inl y ↦ absurd (n d (omega arith) λ k k'. stands_at (at t) s d (length t) k y k')
    | inr y ↦ rw y (first_from_none r (suc d) (omega arith) n)
  ]

  -- The state of the loop of KMP, `j` one higher as in the model.
  record Matching (i j : ℕ) : Type 0 where
    behind : j ≤ suc i
    inside : i ≤ s_len
    short : j ≤ suc (length t)
    overlap : Agree (at t) s (suc i - j) (j - 1)
    none : NoneBefore (suc i - j)

  forward :
      (i j : ℕ)
      → Matching i j
      → i < s_len
      → j ≤ length t
      → (j ≡ 0) ⊎ (at t (j - 1) ≡ s i)
      → Matching (suc i) (suc j)
  forward i zero v l m go =
      let e : suc (suc i) - suc 0 ≡ suc i - 0 = omega arith in
      record {
        behind = omega arith;
        inside = l;
        short = omega arith;
        overlap = λ k h. absurd (omega arith);
        none = rw e v.none;
      }
  forward i (suc j) v l m (inl z) = absurd (omega arith)
  forward i (suc j) v l m (inr q) =
      let e : suc (suc i) - suc (suc j) ≡ suc i - suc j = omega arith in
      let e₁ : suc (suc j) - 1 ≡ suc j = omega arith in
      let e₂ : suc j - 1 ≡ j = omega arith in
      record {
        behind = omega (arith, v.behind);
        inside = l;
        short = omega arith;
        overlap =
            rw (e, e₁)
              (Agree-more (at t) s (suc i - suc j) j i (omega (arith, v.behind)) (rw e₂ at q)
                (rw e₂ at v.overlap));
        none = rw e v.none;
      }

  backward :
      (i j kk : ℕ)
      → Matching i (suc j)
      → NextOk (at t) j kk
      → j < length t
      → at t j ≢ s i
      → Matching i kk
  backward i j kk v o m ne =
      let e : suc i - suc j ≡ i - j = omega arith in
      let e' : suc j - 1 ≡ j = omega arith in
      let a : Agree (at t) s (i - j) j = rw (e, e') at v.overlap in
      record {
        behind = omega (arith, o.lower, v.behind);
        inside = v.inside;
        short = omega (arith, o.lower);
        overlap = fall_back (at t) s (i - j) j i kk (omega (arith, v.behind)) o a;
        none = λ d h l c. excluded a (rw e at v.none) v.behind d h l c;
      }
    where
      excluded :
          Agree (at t) s (i - j) j → NoneBefore (i - j) → suc j ≤ suc i → NoneBefore (suc i - kk)
      excluded a n b d h l c = elim (Bool-cases (ltb d (i - j))) [
        | inl y ↦ n d (ltb→lt d (i - j) y) l c
        | inr y ↦ elim (Bool-cases (d == (i - j))) [
          | inl z ↦ let z' : d + j ≡ i = ground arith in ne (c j m ∙ ap s z')
          | inr z ↦
              let later : i - j < d = ground arith in
              let z' : d + (i - d) ≡ i = omega arith in
              ne (
                sym (
                  o.skipped (i - d) (d - (i - j)) (omega arith) (omega arith) (omega arith) (
                    Agree-within (at t) s (i - j) (d - (i - j)) d j (i - d) (omega arith)
                      (omega arith) a (Agree-less (at t) s d (length t) (i - d) (omega arith) c)))
                ∙ c (i - d) (omega arith)
                ∙ ap s z')
        ]
      ]

  -- What the loop has found when it ends.
  abbrev Ended : ℕ → ℕ → Type 0
  Ended i j =
      (first_occurrence s s_len t
        ≡ (if j == suc (length t) then position (i - length t) else minus_one))
      × ((j == suc (length t)) ≡ true → length t ≤ i)

  ended : (i j : ℕ) → Matching i j → (ltb i s_len && leb j (length t)) ≡ false → Ended i j
  ended i j v past = elim (Bool-cases (j == suc (length t))) [
    | inl q ↦
        let q' : j ≡ suc (length t) = ground arith in
        let d : suc i - j ≡ i - length t = omega arith in
        let n : j - 1 ≡ length t = omega arith in
        (
          rw q (
              first_from_skip (suc s_len - length t) 0 (i - length t) (omega arith)
                (omega (arith, v.inside, v.behind)) (omega arith) (rw d at v.none)
                (rw (d, n) at v.overlap)),
          λ h. omega (arith, v.behind),
        )
    | inr q ↦
        let over : s_len ≤ i = ground (arith, v.short) in
        let le : j ≤ length t = ground (arith, v.short) in
        (
          rw q (
              first_from_none (suc s_len - length t) 0 (omega arith)
                λ e l a. v.none e (omega arith) l a),
          λ h. ground arith,
        )
  ]

  kmp_loop-Ended :
      (next : List ℕ) (f i j : ℕ)
      → TableOk t next
      → Matching i j
      → 2 * (s_len - i) + j < f
      → (i' : ℕ) × (j' : ℕ) × (kmp_loop s s_len t next f i j ≡ some (i', j')) × Ended i' j'
  unfolding kmp_loop
  kmp_loop-Ended next zero i j o v fuel = absurd (omega arith)
  kmp_loop-Ended next (suc f) i j o v fuel = elim (Bool-cases (ltb i s_len && leb j (length t))) [
    | inr past ↦ (i, j, rw (past, kmp_loop) refl, ended i j v past)
    | inl l ↦
        let l₁ : i < s_len = ground arith in
        let l₂ : j ≤ length t = ground arith in
        elim (Bool-cases (j == 0 || s i == at t (j - 1))) [
          | inl c ↦
              let go : (j ≡ 0) ⊎ (at t (j - 1) ≡ s i) = ground arith in
              let (i', j', q, r) =
                kmp_loop-Ended next f (suc i) (suc j) o (forward i j v l₁ l₂ go) (omega arith) in
              (i', j', rw (l, c, kmp_loop) q, r)
          | inr c ↦
              let k : j ≡ suc (j - 1) = ground arith in
              let cell = o (j - 1) (omega arith) in
              let (i', j', q, r) =
                kmp_loop-Ended next f i (at next (j - 1)) o
                  (backward i (j - 1) (at next (j - 1)) (rw (← k) v) cell (omega arith)
                    (λ x. ground arith))
                  (omega (arith, cell.lower)) in
              (i', j', rw (l, c, kmp_loop) q, r)
        ]
  ]

kmp_answer-accept :
    (q : QueryType) (s_len t_len i : ℕ)
    → t_len ≤ i
    → kmp_answer q s_len t_len i ≡ accept q s_len t_len (position (i - t_len))
unfolding kmp_answer
kmp_answer-accept align_full s_len t_len i h = refl
kmp_answer-accept align_left s_len t_len i h = refl
kmp_answer-accept align_right s_len t_len i h =
    let e : i - t_len + t_len ≡ i = omega arith in rw e refl
kmp_answer-accept align_any s_len t_len i h = refl
kmp_answer-accept align_dic s_len t_len i h = refl

accept-minus_one : (q : QueryType) (s_len t_len : ℕ) → accept q s_len t_len minus_one ≡ minus_one
accept-minus_one align_full s_len t_len = refl
accept-minus_one _ s_len t_len = refl

answer_of_Ended :
    (q : QueryType) (s : ℕ → ℕ) (s_len : ℕ) (t : Bytes) (i j : ℕ)
    → Ended s s_len t i j
    → (if j == suc (length t) then kmp_answer q s_len (length t) i else minus_one)
      ≡ accept q s_len (length t) (first_occurrence s s_len t)
answer_of_Ended q s s_len t i j (e, h) = elim (Bool-cases (j == suc (length t))) [
  | inl y ↦ rw (e, y) (kmp_answer-accept q s_len (length t) i (h y))
  | inr y ↦ rw (e, y) (sym (accept-minus_one q s_len (length t)))
]

-- KMP with the table of InitKmpNext, for every pattern that fits the table, every line and every query
-- type: it ends within its fuel, finds the first position at which trying all positions in turn finds
-- the pattern, and returns what the query type makes of that position, or -1 if there is none.
pub kmp_search-first_occurrence :
    (s : ℕ → ℕ) (s_len : ℕ) (t : Bytes) (q : QueryType)
    → length t ≤ max_value_len
    → kmp_search s s_len t q ≡ some (accept q s_len (length t) (first_occurrence s s_len t))
unfolding kmp_search
kmp_search-first_occurrence s s_len t q h =
    let (next, e, o) = init_kmp_next-TableOk t h in
    let (i, j, e', r) =
      kmp_loop-Ended s s_len t next (2 * s_len + 2) 0 1 o
        (record {
          behind = omega arith;
          inside = omega arith;
          short = omega arith;
          overlap = λ k l. absurd (omega arith);
          none = λ d l. absurd (omega arith);
        })
        (omega arith) in
    rw (e, e') (ap some (answer_of_Ended q s s_len t i j r))
