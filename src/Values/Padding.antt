-- ===== src/Values/Padding.antt =====
-- Padding (compression/Encoder.cpp, IntPadding) against what reads it (cmdline_loggrep/SearchAlgorithm.cpp).
use native.Mathlib.Numerals.{unary_clauses}
use log_grep.Prelude.{
  ℕ, zero, suc, ◌+◌, ◌-◌, ◌*◌, ◌/◌, ◌%◌, ◌^◌, ◌≤◌, ◌<◌, ◌≡◌, refl, sym, ap, ◌∙◌, true, false, ◌==◌,
  ltb, leb, Bool-cases, inl, inr, some, [], ◌∷◌, ◌++◌, length, length-append, take, replicate,
  length-replicate, arith,
}
use log_grep.Bytes.{Bytes, at}
use log_grep.Values.{
  padding, skip_padding, remove_padding, digits_back, int_padding, atoi_from, atoi,
}

take_all : (s : Bytes) (n : ℕ) → n ≡ length s → take n s ≡ s
take_all [] zero e = refl
take_all [] (suc n) e = absurd (omega arith)
take_all (c ∷ s) zero e = absurd (omega arith)
take_all (c ∷ s) (suc n) e = ap (λ r. c ∷ r) (take_all s n (omega arith))

skip_padding-replicate :
    (n : ℕ) (s : Bytes) → (at s 0 == b' ') ≡ false → skip_padding (replicate n b' ' ++ s) ≡ s
unfolding skip_padding
skip_padding-replicate zero [] h = refl
skip_padding-replicate zero (c ∷ s) h = rw h
skip_padding-replicate (suc n) s h = skip_padding-replicate n s h

-- A value that does not begin with a blank and is not longer than the line: the compressor pads it to
-- the length of the line, and RemovePadding of that line gives the value and its length.
pub remove_padding-padding :
    (target : Bytes) (max_len : ℕ)
    → (at target 0 == b' ') ≡ false
    → length target ≤ max_len
    → (length (padding true target max_len) ≡ max_len)
      × (remove_padding (padding true target max_len) max_len ≡ (length target, target))
unfolding padding remove_padding
remove_padding-padding target max_len first fits =
    let short : ltb max_len (length target) ≡ false = ground arith in
    let pad = replicate (max_len - length target) b' ' in
    let len : length (pad ++ target) ≡ max_len = omega (
      arith,
      length-append pad target,
      length-replicate {A = ℕ} (max_len - length target) b' ',
      fits,
    ) in
    (
      rw short len,
      rw (
        short,
        take_all (pad ++ target) max_len (sym len),
        skip_padding-replicate (max_len - length target) target first,
      ),
    )

atoi_from-replicate :
    (n ret : ℕ) (s : Bytes) → atoi_from ret (replicate n b' ' ++ s) ≡ atoi_from ret s
unfolding atoi_from
atoi_from-replicate zero ret s = refl
atoi_from-replicate (suc n) ret s = atoi_from-replicate n ret s

-- the ten powers, which `omega` takes apart
power-suc : (n : ℕ) → 10 ^ suc n ≡ 10 * 10 ^ n
power-suc n = simp unary_clauses (omega arith)

atoi_from-digit :
    (t d : ℕ) (s : Bytes)
    → d < 10
    → t * 10 + d < 2 ^ 32
    → atoi_from t ((d + b'0') ∷ s) ≡ atoi_from (t * 10 + d) s
unfolding atoi_from
atoi_from-digit t d s lt small =
    let low : leb b'0' (d + b'0') ≡ true = ground arith in
    let high : leb (d + b'0') b'9' ≡ true = ground arith in
    let value : (t * 10 + (d + b'0' - b'0')) % 2 ^ 32 ≡ t * 10 + d = omega arith in
    rw (low, high, value)

digits_back-atoi :
    (i target : ℕ) (done : Bytes)
    → target < 10 ^ suc i
    → target < 2 ^ 32
    → atoi_from 0 (digits_back (suc i) target done) ≡ atoi_from target done
unfolding digits_back
digits_back-atoi zero target done fits small =
    let one : target / 10 ≡ 0 = omega (arith, power-suc 0) in
    let digit : 0 * 10 + target % 10 ≡ target = omega (arith, one) in
    rw (one, digits_back)
      (atoi_from-digit 0 (target % 10) done (omega arith) (omega arith) ∙ rw digit)
digits_back-atoi (suc i) target done fits small = elim (Bool-cases (target / 10 == 0)) [
  | inl e ↦
      let digit : 0 * 10 + target % 10 ≡ target = ground arith in
      rw (e, digits_back)
        (atoi_from-replicate (suc i) 0 ((target % 10 + b'0') ∷ done)
          ∙ atoi_from-digit 0 (target % 10) done (omega arith) (omega arith)
          ∙ rw digit)
  | inr e ↦
      let last : target / 10 * 10 + target % 10 ≡ target = omega arith in
      rw (e, digits_back)
        (digits_back-atoi i (target / 10) ((target % 10 + b'0') ∷ done)
            (omega (arith, power-suc (suc i))) (omega arith)
          ∙ atoi_from-digit (target / 10) (target % 10) done (omega arith) (omega arith)
          ∙ rw last)
]

length-digits_back :
    (i target : ℕ) (done : Bytes) → length (digits_back i target done) ≡ i + length done
unfolding digits_back
length-digits_back zero target done = omega arith
length-digits_back (suc i) target done = elim (Bool-cases (target / 10 == 0)) [
  | inl e ↦ rw e (
      omega (
        arith,
        length-append (replicate i b' ') ((target % 10 + b'0') ∷ done),
        length-replicate {A = ℕ} i b' ',
      ))
  | inr e ↦ rw e (omega (arith, length-digits_back i (target / 10) ((target % 10 + b'0') ∷ done)))
]

-- A number below 2 ^ 31 that has at most `max_len` digits, for a line of 1 to MAX_DICENTY_LEN bytes:
-- IntPadding fills the line, and atoi reads the number off it.
pub atoi-int_padding :
    (target max_len : ℕ)
    → 0 < max_len
    → max_len ≤ 10
    → target < 10 ^ max_len
    → target < 2 ^ 31
    → (s : Bytes) × (int_padding target max_len ≡ some s)
      × (length s ≡ max_len)
      × (atoi s max_len ≡ target)
unfolding int_padding atoi
atoi-int_padding target zero pos le fits small = absurd (omega arith)
atoi-int_padding target (suc i) pos le fits small =
    let s = digits_back (suc i) target [] in
    let room : ltb 10 (suc i) ≡ false = ground arith in
    let positive : ltb target (2 ^ 31) ≡ true = ground arith in
    let len : length s ≡ suc i = omega (arith, length-digits_back (suc i) target []) in
    (
      s,
      rw (room, positive) refl,
      len,
      rw (take_all s (suc i) (sym len)) (digits_back-atoi i target [] fits (omega arith)),
    )
