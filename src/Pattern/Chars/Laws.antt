-- ===== src/Pattern/Chars/Laws.antt =====
-- What a segment takes of a query: the MatchInSub functions of
-- cmdline_loggrep/SearchAlgorithm.cpp.
use log_grep.Prelude.{
  ℕ, zero, suc, ◌+◌, ◌-◌, ◌≤◌, ◌<◌, ◌≡◌, sym, inl, inr, true, false, ◌==◌, ==_iff, ltb, Bool-cases,
  some, [], ◌∷◌, length, arith,
}
use log_grep.Bytes.{Bytes, at}
use log_grep.Pattern.Chars.{
  char_fits, var_run, var_end, match_in_subpat_var_forward, const_end,
  match_in_subpat_const_forward,
}

-- `s` stands in the source from `i` on.
abbrev pub Reads : (ℕ → ℕ) → ℕ → Bytes → Type 0
Reads source i s = (k : ℕ) → k < length s → source (i + k) ≡ at s k

pub Reads-tail :
    (source : ℕ → ℕ) (i c : ℕ) (s : Bytes) → Reads source i (c ∷ s) → Reads source (suc i) s
Reads-tail source i c s h k lt =
    let e : suc i + k ≡ i + suc k = omega arith in rw e (h (suc k) (omega arith))

pub Reads-head : (source : ℕ → ℕ) (i c : ℕ) (s : Bytes) → Reads source i (c ∷ s) → source i ≡ c
Reads-head source i c s h = let e : i ≡ i + 0 = omega arith in rw e (h 0 (omega arith))

-- The constant in the source, at a place that leaves room for it, is gone through.
pub const_forward-Reads :
    (c : Bytes) (source : ℕ → ℕ) (sou_len i : ℕ)
    → i + length c ≤ sou_len
    → Reads source i c
    → match_in_subpat_const_forward c source sou_len i
      ≡ (const_end (i + length c == sou_len) true, i + length c)
unfolding match_in_subpat_const_forward
const_forward-Reads [] source sou_len i le h = let e : i + 0 ≡ i = omega arith in rw e
const_forward-Reads (d ∷ c) source sou_len i le h =
    let e : suc i + length c ≡ i + suc (length c) = omega arith in
    let lt : ltb i sou_len ≡ true = ground arith in
    let same : (d == source i) ≡ true = (==_iff d (source i)).1 (sym (Reads-head source i d c h)) in
    rw (
      lt,
      same,
      const_forward-Reads c source sou_len (suc i) (omega arith) (Reads-tail source i d c h),
      e,
    )

var_run-full :
    (tag maxlen : ℕ) (source : ℕ → ℕ) (f count i : ℕ)
    → count < maxlen
    → maxlen ≤ count + f
    → ((k : ℕ) → k < maxlen - count → char_fits tag (source (i + k)) ≡ true)
    → var_run tag maxlen source f count i ≡ (maxlen, i + (maxlen - count))
unfolding var_run
var_run-full tag maxlen source zero count i lt le h = absurd (omega arith)
var_run-full tag maxlen source (suc f) count i lt le h =
    let e0 : i ≡ i + 0 = omega arith in
    let fits : char_fits tag (source i) ≡ true = rw e0 (h 0 (omega arith)) in
    elim (Bool-cases (suc count == maxlen)) [
      | inl last ↦
          let m : suc count ≡ maxlen = ground arith in
          let e : suc i ≡ i + (maxlen - count) = omega arith in rw (fits, last, m, e)
      | inr more ↦
          let lt' : suc count < maxlen = ground arith in
          let e : suc i + (maxlen - suc count) ≡ i + (maxlen - count) = omega arith in
          let rest =
            var_run-full tag maxlen source f (suc count) (suc i) lt' (omega arith) (λ k k_lt.
              let ek : suc i + k ≡ i + suc k = omega arith in rw ek (h (suc k) (omega arith))) in
          rw (fits, more, rest, e)
    ]

-- A variable takes its whole length where all of these bytes fit.
pub var_forward-full :
    (tag len : ℕ) (source : ℕ → ℕ) (sou_len i : ℕ)
    → 0 < len
    → i + len ≤ sou_len
    → ((k : ℕ) → k < len → char_fits tag (source (i + k)) ≡ true)
    → match_in_subpat_var_forward tag len source sou_len i ≡ (some len, i + len)
unfolding match_in_subpat_var_forward var_end
var_forward-full tag len source sou_len i pos le h =
    let ne : (i == sou_len) ≡ false = ground arith in
    let whole : (len == len) ≡ true = ground arith in
    let m : i + (len - 0) ≡ i + len = omega arith in
    rw
      (
        ne,
        var_run-full tag len source (sou_len - i) 0 i pos (omega arith) (λ k lt. h k (omega arith)),
        whole,
        m,
      )
      (ground arith)
