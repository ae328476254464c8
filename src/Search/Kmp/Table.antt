-- ===== src/Search/Kmp/Table.antt =====
-- The cells that InitKmpNext of cmdline_loggrep/SearchAlgorithm.cpp writes.
use log_grep.Prelude.{
  ℕ, zero, suc, ◌+◌, ◌-◌, ◌*◌, ◌≤◌, ◌<◌, ◌≡◌, ◌≢◌, refl, sym, ap, ◌∙◌, ◌&&◌, ◌||◌, ◌==◌, ltb,
  ltb→lt, if◌then◌else◌, Bool-cases, ◌⊎◌, inl, inr, some, List, length, set, length-set, replicate,
  length-replicate, arith,
}
use log_grep.Bytes.{Bytes, at, at-set}
use log_grep.Search.Kmp.{max_value_len, next_loop, init_kmp_next}
use log_grep.Search.Kmp.Borders.{
  Agree, Agree-less, Agree-more, Agree-within, Agree-through, NextOk, fall_back,
}

-- The state of the loop of InitKmpNext, `j` one higher as in the model.
record Filling (t : Bytes) (i j : ℕ) (next : List ℕ) : Type 0 where
  size : length next ≡ max_value_len
  cells : (m : ℕ) → m ≤ i → NextOk (at t) m (at next m)
  behind : j ≤ i
  border : Agree (at t) (at t) (suc i - j) (j - 1)
  longest : (b e : ℕ) → e + b ≡ i → 0 < e → Agree (at t) (at t) e b → at t b ≡ at t i → b < j

module _ (t : Bytes) (i j : ℕ) (next : List ℕ) (v : Filling t i j next) where
  -- The bytes at `i` and at `j` agree, or `j` is -1.
  module _ (go : (j ≡ 0) ⊎ (at t (j - 1) ≡ at t i)) where
    grown : Agree (at t) (at t) (suc i - j) j
    grown = elim go [
      | inl z ↦ λ k l. absurd (omega arith)
      | inr q ↦ elim (Bool-cases (j == 0)) [
        | inl z ↦ λ k l. absurd (ground arith)
        | inr z ↦
            let pos : suc (j - 1) ≡ j = ground arith in
            rw pos at
              (Agree-more (at t) (at t) (suc i - j) (j - 1) i (omega (arith, v.behind)) q v.border)
      ]
    ]

    at_most : (b e : ℕ) → e + b ≡ suc i → 0 < e → Agree (at t) (at t) e b → b ≤ j
    at_most zero e q h a = omega arith
    at_most (suc b) e q h a =
        v.longest b e (omega arith) h (Agree-less (at t) (at t) e (suc b) b (omega arith) a)
          (a b (omega arith) ∙ ap (at t) (omega arith))

    fresh_cell : at t (suc i) ≢ at t j → NextOk (at t) (suc i) (suc j)
    fresh_cell ne = record {
      lower = omega (arith, v.behind);
      border = λ k d q e.
          let k' : k ≡ j = omega arith in let d' : d ≡ suc i - j = omega arith in rw (k', d') grown;
      skipped = λ b d h l e a. absurd (omega (arith, at_most b d e (omega arith) a));
    }

    shared_cell : at t (suc i) ≡ at t j → NextOk (at t) (suc i) (at next j)
    shared_cell same =
        let o = v.cells j v.behind in
        record {
          lower = omega (arith, o.lower, v.behind);
          border = λ k d q e.
              Agree-through (at t) (at t) (suc i - j) (j - k) d j k
                (omega (arith, o.lower, v.behind)) (omega (arith, o.lower)) grown
                (o.border k (j - k) q (omega (arith, o.lower)));
          skipped = λ b d h l e a. elim (Bool-cases (b == j)) [
            | inl q ↦ let q' : b ≡ j = ground arith in rw q' (sym same)
            | inr q ↦
                let less : b < j = ground (arith, at_most b d e (omega arith) a) in
                o.skipped b (j - b) h less (omega arith) (
                  Agree-within (at t) (at t) (suc i - j) (j - b) d j b (omega (arith, v.behind))
                    (omega arith) grown a)
                ∙ sym same
          ];
        }

    filled : List ℕ
    filled = set next (suc i) (if at t (suc i) == at t j then at next j else suc j)

    new_cell : NextOk (at t) (suc i) (if at t (suc i) == at t j then at next j else suc j)
    new_cell = elim (Bool-cases (at t (suc i) == at t j)) [
      | inl q ↦ rw q (shared_cell (ground arith))
      | inr q ↦ rw q (fresh_cell (λ e. ground arith))
    ]

    advance : suc i < max_value_len → Filling t (suc i) (suc j) filled
    unfolding filled
    advance room =
        let w = if at t (suc i) == at t j then at next j else suc j in
        let e₁ : suc (suc i) - suc j ≡ suc i - j = omega arith in
        let e₂ : suc j - 1 ≡ j = omega arith in
        record {
          size = length-set next (suc i) w ∙ v.size;
          cells = λ m l. elim (Bool-cases (suc i == m)) [
            | inl q ↦
                let q' : m ≡ suc i = ground arith in
                rw (q', at-set next (suc i) w (suc i) ∙ here room) new_cell
            | inr q ↦ rw (at-set next (suc i) w m, q) (v.cells m (ground arith))
          ];
          behind = omega (arith, v.behind);
          border = rw (e₁, e₂) grown;
          longest = λ b e q h a c. omega (arith, at_most b e q h a);
        }
      where
        here :
            suc i < max_value_len
            → (if suc i == suc i && ltb (suc i) (length next)
                then (if at t (suc i) == at t j then at next j else suc j)
                else at next (suc i))
              ≡ (if at t (suc i) == at t j then at next j else suc j)
        here r = rw v.size (ground arith)

-- The bytes at `i` and `j` differ: back to `next[j]`.
retreat :
    (t : Bytes) (i j : ℕ) (next : List ℕ)
    → Filling t i (suc j) next
    → at t j ≢ at t i
    → Filling t i (at next j) next
retreat t i j next v ne =
    let o = v.cells j (omega (arith, v.behind)) in
    let e : suc i - suc j ≡ i - j = omega arith in
    let e' : suc j - 1 ≡ j = omega arith in
    let b : Agree (at t) (at t) (i - j) j = rw (e, e') at v.border in
    record {
      size = v.size;
      cells = v.cells;
      behind = omega (arith, v.behind, o.lower);
      border = fall_back (at t) (at t) (i - j) j i (at next j) (omega (arith, v.behind)) o b;
      longest = λ b' d q h a c. shorter b' d q h a c (v.longest b' d q h a c) o b;
    }
  where
    shorter :
        (b d : ℕ)
        → d + b ≡ i
        → 0 < d
        → Agree (at t) (at t) d b
        → at t b ≡ at t i
        → b < suc j
        → NextOk (at t) j (at next j)
        → Agree (at t) (at t) (i - j) j
        → b < at next j
    shorter b d q h a c l o a' = elim (Bool-cases (b == j)) [
      | inl z ↦ let z' : b ≡ j = ground arith in absurd (ne (ap (at t) (sym z') ∙ c))
      | inr z ↦ elim (Bool-cases (ltb b (at next j))) [
        | inl y ↦ ltb→lt b (at next j) y
        | inr y ↦
            let less : b < j = ground arith in
            absurd (
              ne (
                sym (
                  o.skipped b (j - b) (ground arith) less (omega arith) (
                    Agree-within (at t) (at t) (i - j) (j - b) d j b (omega arith) (omega arith) a'
                      a))
                ∙ c))
      ]
    ]

first_cell : (m : ℕ) → at (set (replicate m 0) 0 0) 0 ≡ 0
first_cell zero = refl
first_cell (suc m) = refl

first_ok : (t : Bytes) → NextOk (at t) 0 0
first_ok t = record {
  lower = omega arith;
  border = λ k d q e. absurd (omega arith);
  skipped = λ b d h l e a. absurd (omega arith);
}

-- A finished table: every cell of the pattern is right.
abbrev pub TableOk : Bytes → List ℕ → Type 0
TableOk t next = (m : ℕ) → m < length t → NextOk (at t) m (at next m)

next_loop-TableOk :
    (t : Bytes) (f i j : ℕ) (next : List ℕ)
    → length t ≤ max_value_len
    → Filling t i j next
    → 2 * (length t - 1 - i) + j < f
    → (next' : List ℕ) × (next_loop t f i j next ≡ some next') × TableOk t next'
unfolding next_loop filled
next_loop-TableOk t zero i j next s v fuel = absurd (omega arith)
next_loop-TableOk t (suc f) i j next s v fuel = elim (Bool-cases (ltb i (length t - 1))) [
  | inr past ↦ (next, rw (past, next_loop) refl, λ m l. v.cells m (ground arith))
  | inl l ↦
      let l' : i < length t - 1 = ltb→lt i (length t - 1) l in
      elim (Bool-cases (j == 0 || at t i == at t (j - 1))) [
        | inl c ↦
            let go : (j ≡ 0) ⊎ (at t (j - 1) ≡ at t i) = ground arith in
            let (next', q, o) =
              next_loop-TableOk t f (suc i) (suc j) (filled t i j next v go) s
                (advance t i j next v go (omega arith)) (omega arith) in
            (next', rw (l, c, next_loop) q, o)
        | inr c ↦
            let k : j ≡ suc (j - 1) = ground arith in
            let v' : Filling t i (suc (j - 1)) next = rw (← k) v in
            let o = v.cells (j - 1) (omega (arith, v.behind)) in
            let (next', q, r) =
              next_loop-TableOk t f i (at next (j - 1)) next s
                (retreat t i (j - 1) next v' (λ x. ground arith)) (omega (arith, o.lower)) in
            (next', rw (l, c, next_loop) q, r)
      ]
]

-- InitKmpNext ends within its fuel and fills the table rightly, for every pattern that fits it.
pub init_kmp_next-TableOk :
    (t : Bytes)
    → length t ≤ max_value_len
    → (next : List ℕ) × (init_kmp_next t ≡ some next) × TableOk t next
unfolding init_kmp_next
init_kmp_next-TableOk t s =
    next_loop-TableOk t (2 * length t + 2) 0 0 (set (replicate max_value_len 0) 0 0) s
      (start max_value_len refl) (omega arith)
  where
    start : (m : ℕ) → m ≡ max_value_len → Filling t 0 0 (set (replicate m 0) 0 0)
    start m e = record {
      size = length-set (replicate m 0) 0 0 ∙ length-replicate m 0 ∙ e;
      cells = λ k l. let k' : k ≡ 0 = omega arith in rw (k', first_cell m) (first_ok t);
      behind = omega arith;
      border = λ k l. absurd (omega arith);
      longest = λ b d q h a c. absurd (omega arith);
    }
