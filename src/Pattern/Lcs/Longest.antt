-- ===== src/Pattern/Lcs/Longest.antt =====
-- The length of the match of GetLCS_DPoptc (cmdline_loggrep/SearchAlgorithm.cpp) against other common parts.
use log_grep.Prelude.{
  ℕ, zero, suc, ◌+◌, ◌-◌, ◌≤◌, ◌<◌, ◌≡◌, inl, inr, Bool, true, false, ◌&&◌, ◌||◌, ◌==◌, ltb,
  Bool-cases, arith,
}
use log_grep.Pattern.Lcs.{
  LcsMatch, no_match, better, diagonal, too_short, from_first, from_second, get_lcs_dp_optc,
}

module _ (str1 str2 : ℕ → ℕ) (size1 size2 : ℕ) (rep : Bool) where
  -- the `l` bytes before `m` and `n` are the same
  abbrev Ends : ℕ → ℕ → ℕ → Type 0
  Ends m n l = (l ≤ m) × (l ≤ n) × ((k : ℕ) → k < l → str1 (m - suc k) ≡ str2 (n - suc k))

  Ends-less : (m n l : ℕ) → Ends (suc m) (suc n) (suc l) → Ends m n l
  Ends-less m n l (le1, le2, same) = (
    omega arith,
    omega arith,
    λ k lt.
        let e1 : m - suc k ≡ suc m - suc (suc k) = omega arith in
        let e2 : n - suc k ≡ suc n - suc (suc k) = omega arith in
        rw (e1, e2) (same (suc k) (omega arith)),
  )

  Ends-last : (m n l : ℕ) → Ends (suc m) (suc n) (suc l) → str1 m ≡ str2 n
  Ends-last m n l (le1, le2, same) =
      let e1 : m ≡ suc m - suc 0 = omega arith in
      let e2 : n ≡ suc n - suc 0 = omega arith in rw (e1, e2) (same 0 (omega arith))

  better-ge :
      (m n length : ℕ) (best : LcsMatch)
      → (best.len ≤ (better str1 str2 size1 size2 rep m n length best).len)
        × (length ≤ (better str1 str2 size1 size2 rep m n length best).len)
  unfolding better
  better-ge m n length best =
      elim (Bool-cases (ltb best.len length || (rep && best.len == length))) [
        | inl e ↦ rw e (ground arith, omega arith)
        | inr e ↦ rw e (omega arith, ground arith)
      ]

  diagonal-ge :
      (f m n length : ℕ) (best : LcsMatch)
      → best.len ≤ (diagonal str1 str2 size1 size2 rep f m n length best).len
  unfolding diagonal
  diagonal-ge zero m n length best = omega arith
  diagonal-ge (suc f) m n length best = elim (Bool-cases (ltb m size1 && ltb n size2)) [
    | inr e ↦ rw e (omega arith)
    | inl e ↦ elim (Bool-cases (str1 m == str2 n)) [
      | inr ne ↦ rw (e, ne, diagonal) (diagonal-ge f (suc m) (suc n) 0 best)
      | inl eq ↦
          rw (e, eq, diagonal)
            (omega (
              arith,
              diagonal-ge f (suc m) (suc n) (suc length)
                  (better str1 str2 size1 size2 rep m n (suc length) best),
              (better-ge m n (suc length) best).0,
            ))
    ]
  ]

  -- The state at `m` and `n`: no longer run ends there, and the best is as long as the run.
  diagonal-longest :
      (f m n length : ℕ) (best : LcsMatch)
      → ((l : ℕ) → Ends m n l → l ≤ length)
      → length ≤ best.len
      → size1 ≤ m + f
      → (d l : ℕ) → m + d ≤ size1
      → n + d ≤ size2
      → Ends (m + d) (n + d) l
      → l ≤ (diagonal str1 str2 size1 size2 rep f m n length best).len
  unfolding diagonal
  diagonal-longest zero m n length best runs le fuel d l in1 in2 r =
      let d0 : d ≡ 0 = omega arith in
      let e1 : m + d ≡ m = omega arith in
      let e2 : n + d ≡ n = omega arith in omega (arith, runs l (rw (e1, e2) at r))
  diagonal-longest (suc f) m n length best runs le fuel zero l in1 in2 r =
      let e1 : m + 0 ≡ m = omega arith in
      let e2 : n + 0 ≡ n = omega arith in
      omega (arith, runs l (rw (e1, e2) at r), diagonal-ge (suc f) m n length best)
  diagonal-longest (suc f) m n length best runs le fuel (suc d) l in1 in2 r =
      let e : (ltb m size1 && ltb n size2) ≡ true = ground arith in
      let e1 : m + suc d ≡ suc m + d = omega arith in
      let e2 : n + suc d ≡ suc n + d = omega arith in
      let r' : Ends (suc m + d) (suc n + d) l = rw (e1, e2) at r in
      elim (Bool-cases (str1 m == str2 n)) [
        | inr ne ↦
            rw (e, ne, diagonal)
              (diagonal-longest f (suc m) (suc n) 0 best (apart m n ne) (omega arith) (omega arith)
                d l (omega arith) (omega arith) r')
        | inl eq ↦
            rw (e, eq, diagonal)
              (diagonal-longest f (suc m) (suc n) (suc length)
                (better str1 str2 size1 size2 rep m n (suc length) best) (onward m n length runs)
                (better-ge m n (suc length) best).1 (omega arith) d l (omega arith) (omega arith)
                r')
      ]
    where
      apart : (m n : ℕ) → (str1 m == str2 n) ≡ false → (l : ℕ) → Ends (suc m) (suc n) l → l ≤ 0
      apart m n ne zero q = omega arith
      apart m n ne (suc l) q = absurd (ground (arith, Ends-last m n l q))

      onward :
          (m n length : ℕ)
          → ((l : ℕ) → Ends m n l → l ≤ length)
          → (l : ℕ) → Ends (suc m) (suc n) l
          → l ≤ suc length
      onward m n length runs zero q = omega arith
      onward m n length runs (suc l) q = omega (arith, runs l (Ends-less m n l q))

  from_first-ge :
      (f i : ℕ) (best : LcsMatch) → best.len ≤ (from_first str1 str2 size1 size2 rep f i best).len
  unfolding from_first
  from_first-ge zero i best = omega arith
  from_first-ge (suc f) i best = elim (Bool-cases (too_short str1 str2 size1 size2 rep i 0 best)) [
    | inl e ↦ rw (e, from_first) (omega arith)
    | inr e ↦
        rw (e, from_first)
          (omega (
            arith,
            from_first-ge f (suc i) (diagonal str1 str2 size1 size2 rep size1 i 0 0 best),
            diagonal-ge size1 i 0 0 best,
          ))
  ]

  from_second-ge :
      (f i : ℕ) (best : LcsMatch) → best.len ≤ (from_second str1 str2 size1 size2 rep f i best).len
  unfolding from_second
  from_second-ge zero i best = omega arith
  from_second-ge (suc f) i best = elim (Bool-cases (too_short str1 str2 size1 size2 rep 0 i best)) [
    | inl e ↦ rw (e, from_second) (omega arith)
    | inr e ↦
        rw (e, from_second)
          (omega (
            arith,
            from_second-ge f (suc i) (diagonal str1 str2 size1 size2 rep size1 0 i 0 best),
            diagonal-ge size1 0 i 0 best,
          ))
  ]

  from_first-longest :
      (f i : ℕ) (best : LcsMatch) (j e l : ℕ)
      → f + i ≡ size1
      → i ≤ j
      → 0 < l
      → l ≤ e
      → j + e ≤ size1
      → e ≤ size2
      → Ends (j + e) e l
      → l ≤ (from_first str1 str2 size1 size2 rep f i best).len
  unfolding from_first too_short
  from_first-longest zero i best j e l f_is le pos le_e in1 in2 r = absurd (omega arith)
  from_first-longest (suc f) i best j e l f_is le pos le_e in1 in2 r =
      elim (Bool-cases (too_short str1 str2 size1 size2 rep i 0 best)) [
        | inl short ↦ rw (short, from_first) (ground arith)
        | inr long ↦ elim (Bool-cases (i == j)) [
          | inl eq ↦
              let i_is : i ≡ j = ground arith in
              let e0 : 0 + e ≡ e = omega arith in
              let here =
                diagonal-longest size1 j 0 0 best (λ l' q. q.1) (omega arith) (omega arith) e l in1
                  (omega arith) (rw e0 r) in
              rw (long, i_is, from_first)
                (omega (
                  arith,
                  here,
                  from_first-ge f (suc j) (diagonal str1 str2 size1 size2 rep size1 j 0 0 best),
                ))
          | inr ne ↦
              rw (long, from_first)
                (from_first-longest f (suc i) (diagonal str1 str2 size1 size2 rep size1 i 0 0 best)
                  j e l (omega arith) (ground arith) pos le_e in1 in2 r)
        ]
      ]

  from_second-longest :
      (f i : ℕ) (best : LcsMatch) (j e l : ℕ)
      → f + i ≡ size2
      → i ≤ j
      → 0 < l
      → l ≤ e
      → e ≤ size1
      → j + e ≤ size2
      → Ends e (j + e) l
      → l ≤ (from_second str1 str2 size1 size2 rep f i best).len
  unfolding from_second too_short
  from_second-longest zero i best j e l f_is le pos le_e in1 in2 r = absurd (omega arith)
  from_second-longest (suc f) i best j e l f_is le pos le_e in1 in2 r =
      elim (Bool-cases (too_short str1 str2 size1 size2 rep 0 i best)) [
        | inl short ↦ rw (short, from_second) (ground arith)
        | inr long ↦ elim (Bool-cases (i == j)) [
          | inl eq ↦
              let i_is : i ≡ j = ground arith in
              let e0 : 0 + e ≡ e = omega arith in
              let here =
                diagonal-longest size1 0 j 0 best (λ l' q. q.0) (omega arith) (omega arith) e l
                  (omega arith) in2 (rw e0 r) in
              rw (long, i_is, from_second)
                (omega (
                  arith,
                  here,
                  from_second-ge f (suc j) (diagonal str1 str2 size1 size2 rep size1 0 j 0 best),
                ))
          | inr ne ↦
              rw (long, from_second)
                (from_second-longest f (suc i) (diagonal str1 str2 size1 size2 rep size1 0 i 0 best)
                  j e l (omega arith) (ground arith) pos le_e in1 in2 r)
        ]
      ]

  -- a common part, by its end
  Ends-end : (a b l : ℕ) → ((k : ℕ) → k < l → str1 (a + k) ≡ str2 (b + k)) → Ends (a + l) (b + l) l
  Ends-end a b l same = (
    omega arith,
    omega arith,
    λ k lt.
        let e1 : a + l - suc k ≡ a + (l - suc k) = omega arith in
        let e2 : b + l - suc k ≡ b + (l - suc k) = omega arith in
        rw (e1, e2) (same (l - suc k) (omega arith)),
  )

  -- With beReplace and without: bytes that are the same in both strings, from `a` on in the first and
  -- from `b` on in the second, are not more than the match of GetLCS_DPoptc has.
  pub get_lcs_dp_optc-longest :
      (a b l : ℕ)
      → a + l ≤ size1
      → b + l ≤ size2
      → ((k : ℕ) → k < l → str1 (a + k) ≡ str2 (b + k))
      → l ≤ (get_lcs_dp_optc str1 str2 size1 size2 rep).len
  unfolding get_lcs_dp_optc
  get_lcs_dp_optc-longest a b zero in1 in2 same = omega arith
  get_lcs_dp_optc-longest a b (suc l) in1 in2 same =
      let some_bytes : (size1 == 0 || size2 == 0) ≡ false = ground arith in
      let r = Ends-end a b (suc l) same in
      let first = from_first str1 str2 size1 size2 rep size1 0 no_match in
      elim (Bool-cases (ltb a b)) [
        | inl left ↦
            let e1 : b + suc l ≡ b - a + (a + suc l) = ground arith in
            rw some_bytes (
              from_second-longest (size2 - 1) 1 first (b - a) (a + suc l) (suc l) (omega arith)
                (ground arith) (omega arith) (omega arith) in1 (omega arith) (rw e1 at r))
        | inr right ↦
            let e1 : a + suc l ≡ a - b + (b + suc l) = ground arith in
            rw some_bytes (
              omega (
                arith,
                from_first-longest size1 0 no_match (a - b) (b + suc l) (suc l) (omega arith)
                    (omega arith) (omega arith) (omega arith) (omega arith) in2 (rw e1 at r),
                from_second-ge (size2 - 1) 1 first,
              ))
      ]
