-- ===== src/Pattern/Lcs/Common.antt =====
-- The place of the match of GetLCS_DPoptc (cmdline_loggrep/SearchAlgorithm.cpp).
use log_grep.Prelude.{
  ℕ, zero, suc, ◌+◌, ◌-◌, ◌≤◌, ◌<◌, ◌≡◌, inl, inr, Bool, ◌&&◌, ◌||◌, ◌==◌, ltb, Bool-cases, arith,
}
use log_grep.Pattern.Lcs.{
  LcsMatch, no_match, better, diagonal, too_short, from_first, from_second, get_lcs_dp_optc,
}

module _ (str1 str2 : ℕ → ℕ) (size1 size2 : ℕ) where
  -- the `len` bytes from `pos1` and `pos2` on are inside of the strings and the same
  pub record IsCommon (r : LcsMatch) : Type 0 where
    in1 : r.pos1 + r.len ≤ size1
    in2 : r.pos2 + r.len ≤ size2
    same : (k : ℕ) → k < r.len → str1 (r.pos1 + k) ≡ str2 (r.pos2 + k)

  -- the last `length` bytes before `m` and `n` are the same
  record Run (m n length : ℕ) : Type 0 where
    le1 : length ≤ m
    le2 : length ≤ n
    back : (k : ℕ) → k < length → str1 (m - length + k) ≡ str2 (n - length + k)

  Run-zero : (m n : ℕ) → Run m n 0
  Run-zero m n = record { le1 = omega arith; le2 = omega arith; back = λ k h. absurd (omega arith) }

  Run-suc : (m n length : ℕ) → str1 m ≡ str2 n → Run m n length → Run (suc m) (suc n) (suc length)
  Run-suc m n length e r = record {
    le1 = omega (arith, r.le1);
    le2 = omega (arith, r.le2);
    back = λ k h. elim (Bool-cases (ltb k length)) [
      | inl lt ↦
          let e1 : suc m - suc length + k ≡ m - length + k = omega arith in
          let e2 : suc n - suc length + k ≡ n - length + k = omega arith in
          rw (e1, e2) (r.back k (ground arith))
      | inr ge ↦
          let k_is : k ≡ length = ground arith in
          let e1 : suc m - suc length + k ≡ m = omega (arith, r.le1) in
          let e2 : suc n - suc length + k ≡ n = omega (arith, r.le2) in rw (e1, e2) e
    ];
  }

  better-IsCommon :
      (rep : Bool) (m n length : ℕ) (best : LcsMatch)
      → m < size1
      → n < size2
      → Run (suc m) (suc n) length
      → IsCommon best
      → IsCommon (better str1 str2 size1 size2 rep m n length best)
  unfolding better
  better-IsCommon rep m n length best lt1 lt2 r c =
      elim (Bool-cases (ltb best.len length || (rep && best.len == length))) [
        | inl t ↦ rw t record {
          in1 = omega (arith, r.le1);
          in2 = omega (arith, r.le2);
          same = λ k h.
              let e1 : m + 1 - length ≡ suc m - length = omega arith in
              let e2 : n + 1 - length ≡ suc n - length = omega arith in rw (e1, e2) (r.back k h);
        }
        | inr t ↦ rw t c
      ]

  diagonal-IsCommon :
      (rep : Bool) (f m n length : ℕ) (best : LcsMatch)
      → Run m n length
      → IsCommon best
      → IsCommon (diagonal str1 str2 size1 size2 rep f m n length best)
  unfolding diagonal
  diagonal-IsCommon rep zero m n length best r c = c
  diagonal-IsCommon rep (suc f) m n length best r c =
      elim (Bool-cases (ltb m size1 && ltb n size2)) [
        | inr e ↦ rw e c
        | inl e ↦ elim (Bool-cases (str1 m == str2 n)) [
          | inr ne ↦
              rw (e, ne, diagonal)
                (diagonal-IsCommon rep f (suc m) (suc n) 0 best (Run-zero (suc m) (suc n)) c)
          | inl eq ↦
              rw (e, eq, diagonal)
                (let r' : Run (suc m) (suc n) (suc length) = Run-suc m n length (ground arith) r in
                  diagonal-IsCommon rep f (suc m) (suc n) (suc length) _ r'
                    (better-IsCommon rep m n (suc length) best (ground arith) (ground arith) r' c))
        ]
      ]

  from_first-IsCommon :
      (rep : Bool) (f i : ℕ) (best : LcsMatch)
      → IsCommon best
      → IsCommon (from_first str1 str2 size1 size2 rep f i best)
  unfolding from_first
  from_first-IsCommon rep zero i best c = c
  from_first-IsCommon rep (suc f) i best c =
      elim (Bool-cases (too_short str1 str2 size1 size2 rep i 0 best)) [
        | inl e ↦ rw (e, from_first) c
        | inr e ↦
            rw (e, from_first)
              (from_first-IsCommon rep f (suc i) _
                (diagonal-IsCommon rep size1 i 0 0 best (Run-zero i 0) c))
      ]

  from_second-IsCommon :
      (rep : Bool) (f i : ℕ) (best : LcsMatch)
      → IsCommon best
      → IsCommon (from_second str1 str2 size1 size2 rep f i best)
  unfolding from_second
  from_second-IsCommon rep zero i best c = c
  from_second-IsCommon rep (suc f) i best c =
      elim (Bool-cases (too_short str1 str2 size1 size2 rep 0 i best)) [
        | inl e ↦ rw (e, from_second) c
        | inr e ↦
            rw (e, from_second)
              (from_second-IsCommon rep f (suc i) _
                (diagonal-IsCommon rep size1 0 i 0 best (Run-zero 0 i) c))
      ]

  none-IsCommon : IsCommon no_match
  none-IsCommon = record {
    in1 = omega arith;
    in2 = omega arith;
    same = λ k h. absurd (omega arith);
  }

  -- For all strings and sizes, with beReplace and without, the bytes that the match names are inside
  -- of both strings and the same in both.
  pub get_lcs_dp_optc-IsCommon : (rep : Bool) → IsCommon (get_lcs_dp_optc str1 str2 size1 size2 rep)
  unfolding get_lcs_dp_optc
  get_lcs_dp_optc-IsCommon rep = elim (Bool-cases (size1 == 0 || size2 == 0)) [
    | inl e ↦ rw e none-IsCommon
    | inr e ↦ rw e (
        from_second-IsCommon rep (size2 - 1) 1 _
          (from_first-IsCommon rep size1 0 no_match none-IsCommon))
  ]
