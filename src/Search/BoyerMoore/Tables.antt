-- ===== src/Search/BoyerMoore/Tables.antt =====
-- The entries that BuildGoodS of cmdline_loggrep/SearchAlgorithm.cpp writes.
use log_grep.Prelude.{
  ℕ, zero, suc, ◌+◌, ◌-◌, ◌≤◌, ◌<◌, ◌≡◌, refl, ◌⊎◌, inl, inr, ◌==◌, Bool-cases, List, length, set,
  length-set, replicate, length-replicate, arith, ◌∙◌,
}
use log_grep.Bytes.{Bytes, at, at-set}
use log_grep.Search.BoyerMoore.{
  max_pattern_size, mem_eq, good_step, good_inner, good_outer, good_shift, good_final, build_good_s,
}

-- The table while it still holds positions: an entry is `pLen`, or a position left of its own.
record Raw (n : ℕ) (goods : List ℕ) (c : ℕ) : Type 0 where
  size : length goods ≡ max_pattern_size
  entry : (k : ℕ) → k < n - 1 → (at goods k ≡ n) ⊎ (at goods k < k)
  last : at goods (n - 1) ≡ 1
  border : c < n

module _ (p : Bytes) (short : length p ≤ max_pattern_size) where
  good_step-Raw :
      (i j : ℕ) (goods : List ℕ) (c : ℕ)
      → j < i
      → i < length p
      → Raw (length p) goods c
      → Raw (length p) (good_step p i j (goods, c)).0 (good_step p i j (goods, c)).1
  unfolding good_step
  good_step-Raw i j goods c l m v = elim (Bool-cases (mem_eq p i j (length p - i))) [
    | inr e ↦ rw e v
    | inl e ↦ elim (Bool-cases (j == 0)) [
      | inl z ↦
          rw (e, z) (record { size = v.size; entry = v.entry; last = v.last; border = omega arith })
      | inr z ↦ elim (Bool-cases (at p (i - 1) == at p (j - 1))) [
        | inl q ↦ rw (e, z, q) v
        | inr q ↦
            rw (e, z, q)
              (record {
                size = ground (arith, v.size, length-set goods (i - 1) (j - 1));
                entry = λ k h. ground (arith, v.entry k h, at-set goods (i - 1) (j - 1) k);
                last = ground (arith, v.last, at-set goods (i - 1) (j - 1) (length p - 1));
                border = v.border;
              })
      ]
    ]
  ]

  good_inner-Raw :
      (i r j : ℕ) (goods : List ℕ) (c : ℕ)
      → j + r ≤ i
      → i < length p
      → Raw (length p) goods c
      → Raw (length p) (good_inner p i r j (goods, c)).0 (good_inner p i r j (goods, c)).1
  unfolding good_inner
  good_inner-Raw i zero j goods c l m v = v
  good_inner-Raw i (suc r) j goods c l m v =
      good_inner-Raw i r (suc j) (good_step p i j (goods, c)).0 (good_step p i j (goods, c)).1
        (omega arith) m (good_step-Raw i j goods c (omega arith) m v)

  good_outer-Raw :
      (i : ℕ) (goods : List ℕ) (c : ℕ)
      → i < length p
      → Raw (length p) goods c
      → Raw (length p) (good_outer p i (goods, c)).0 (good_outer p i (goods, c)).1
  unfolding good_outer
  good_outer-Raw zero goods c m v = v
  good_outer-Raw (suc i) goods c m v =
      good_outer-Raw i (good_inner p (suc i) (suc i) 0 (goods, c)).0
        (good_inner p (suc i) (suc i) 0 (goods, c)).1 (omega arith)
        (good_inner-Raw (suc i) (suc i) 0 goods c (omega arith) m v)

-- Entries left of `i` are shifts already.
record Shifting (n c i : ℕ) (goods : List ℕ) : Type 0 where
  size : length goods ≡ max_pattern_size
  done : (k : ℕ) → k < i → n - 1 - k < at goods k
  todo : (k : ℕ) → i ≤ k → k < n - 1 → (at goods k ≡ n) ⊎ (at goods k < k)
  last : at goods (n - 1) ≡ 1

good_shift-advances :
    (n c i g : ℕ) → i < n - 1 → c < n → (g ≡ n) ⊎ (g < i) → n - 1 - i < good_shift n c i g
unfolding good_shift
good_shift-advances n c i g h b e = ground arith

good_final-Shifting :
    (n c r i m : ℕ) (goods : List ℕ)
    → i + r ≡ m
    → m ≡ n - 1
    → n ≤ max_pattern_size
    → c < n
    → Shifting n c i goods
    → Shifting n c m (good_final n c r i goods)
unfolding good_final
good_final-Shifting n c zero i m goods e t s b v = let e' : i ≡ m = omega arith in rw (← e') v
good_final-Shifting n c (suc r) i m goods e t s b v =
    let w = good_shift n c i (at goods i) in
    good_final-Shifting n c r (suc i) m (set goods i w) (omega arith) t s b (record {
      size = ground (arith, v.size, length-set goods i w);
      done = λ k h. ground (
        arith,
        at-set goods i w k,
        v.done k,
        v.size,
        good_shift-advances n c i (at goods i) (omega arith) b
            (v.todo i (omega arith) (omega arith)),
      );
      todo = λ k h l. ground (arith, at-set goods i w k, v.todo k (omega arith) l);
      last = ground (arith, at-set goods i w (n - 1), v.last);
    })

-- A table of shifts that moves the window on, wherever in the pattern the comparison stopped.
abbrev pub Advances : Bytes → List ℕ → Type 0
Advances p goods = (i : ℕ) → i < length p → length p - 1 - i < at goods i

at-replicate : (n v k : ℕ) → k < n → at (replicate n v) k ≡ v
at-replicate zero v k h = absurd (omega arith)
at-replicate (suc n) v zero h = refl
at-replicate (suc n) v (suc k) h = at-replicate n v k (omega arith)

start_last : (m n : ℕ) → 0 < n → n ≤ m → at (set (replicate m n) (n - 1) 1) (n - 1) ≡ 1
start_last m n h s = ground (arith, at-set (replicate m n) (n - 1) 1 (n - 1), length-replicate m n)

start_other : (m n k : ℕ) → k < n - 1 → n ≤ m → at (set (replicate m n) (n - 1) 1) k ≡ n
start_other m n k h s =
    ground (arith, at-set (replicate m n) (n - 1) 1 k, at-replicate m n k (omega arith))

start : ℕ → ℕ → List ℕ
start m n = set (replicate m n) (n - 1) 1

initial-Raw : (n : ℕ) → 0 < n → n ≤ max_pattern_size → Raw n (start max_pattern_size n) 0
unfolding start
initial-Raw n h s = record {
  size = length-set (replicate max_pattern_size n) (n - 1) 1 ∙ length-replicate max_pattern_size n;
  entry = λ k l. inl (start_other max_pattern_size n k l s);
  last = start_last max_pattern_size n h s;
  border = h;
}

-- BuildGoodS: for every nonempty pattern that fits the table, each entry is larger than the
-- distance from its position to the end of the pattern.
pub build_good_s-Advances :
    (p : Bytes)
    → 0 < length p
    → length p ≤ max_pattern_size
    → (i : ℕ) → i < length p
    → length p - 1 - i < at (build_good_s p) i
unfolding build_good_s start
build_good_s-Advances p h s i l =
    let n = length p in
    let goods = start max_pattern_size n in
    let st = good_outer p (n - 1) (goods, 0) in
    let v : Raw n st.0 st.1 =
      good_outer-Raw p s (n - 1) goods 0 (omega arith) (initial-Raw n h s) in
    let w : Shifting n st.1 (n - 1) (good_final n st.1 (n - 1) 0 st.0) =
      good_final-Shifting n st.1 (n - 1) 0 (n - 1) st.0 (omega arith) refl s v.border (record {
        size = v.size;
        done = λ k q. absurd (omega arith);
        todo = λ k q r. v.entry k r;
        last = v.last;
      }) in
    elim (Bool-cases (i == (n - 1))) [
      | inl e ↦ let e' : i ≡ n - 1 = ground arith in rw e' (omega (arith, w.last))
      | inr e ↦ w.done i (ground arith)
    ]
