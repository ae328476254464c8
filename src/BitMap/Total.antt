-- ===== src/BitMap/Total.antt =====
-- Complement and Reverse of BitMap (cmdline_loggrep/LogStructure.h): the line count, and an exchange
-- bitmap with another one.
use log_grep.Prelude.{
  ℕ, ◌-◌, ◌≤◌, ◌<◌, ◌≡◌, refl, sym, ap, ◌∙◌, inl, inr, true, not, ◌&&◌, ◌||◌, Bool-cases, some,
  List, [], ◌∷◌, ◌++◌, length, take, replicate, length-append, length-replicate, arith,
}
use log_grep.BitMap.{BitMap, reset, set_size, size_is, is_full, complement, reverse}
use log_grep.BitMap.Sets.{has, Below, length_of_Distinct}
use log_grep.BitMap.Holds.{Holds, member}
use log_grep.BitMap.Filter.{compact-Holds}
use log_grep.BitMap.Reverse.{reverse-Holds}
use log_grep.BitMap.Algebra.{IsValid, all, some_of, Yields, complement_refines}

pub complement-total :
    {b b' : BitMap} {xs : List ℕ} (t : BitMap)
    → Holds b xs
    → complement t b ≡ some b'
    → b'.total_size ≡ b.total_size
unfolding complement reset
complement-total {b} {b'} t v e =
    elim (Bool-cases (is_full t.size || size_is t.size b.total_size)) [
      | inl a ↦
          let it : some (reset b) ≡ some b' = rw (a, complement) at e in
          let same : reset b ≡ b' = ground arith in rw (← same) refl
      | inr a ↦ elim (Bool-cases (size_is t.size 0)) [
        | inl z ↦
            let it : some b ≡ some b' = rw (a, z, complement) at e in
            let same : b ≡ b' = ground arith in rw (← same) refl
        | inr z ↦
            let (c, q, h, u) = compact-Holds (λ x. not (t.bitmap x)) v in
            let it : some c ≡ some b' = sym q ∙ (rw (a, z, complement) at e) in
            let same : c ≡ b' = ground arith in rw (← same) u
      ]
    ]

pub reverse-total : {b b' : BitMap} → IsValid b → reverse b ≡ some b' → b'.total_size ≡ b.total_size
unfolding reverse reset set_size
reverse-total {b} {b'} (all s c) e =
    let it : some (reset b) ≡ some b' = rw (reverse, s) at e in
    let same : reset b ≡ b' = ground arith in rw (← same) refl
reverse-total {b} {b'} (some_of {xs = []} v) e =
    let it : some (set_size b) ≡ some b' = rw (reverse, v.size) at e in
    let same : set_size b ≡ b' = ground arith in rw (← same) refl
reverse-total {b} {b'} (some_of {xs = x ∷ xs} v) e =
    let (c, q, h, u) = reverse-Holds v (omega arith) in
    let it : some c ≡ some b' = sym q ∙ e in let same : c ≡ b' = ground arith in rw (← same) (sym u)

pub Below-has : (n : ℕ) (xs : List ℕ) (p : ℕ) → Below n xs → has xs p ≡ true → p < n
Below-has n [] p h e = absurd (ground arith)
Below-has n (x ∷ xs) p h e = let lt = h.0 in ground (arith, Below-has n xs p h.1)

pub has-Below : (n : ℕ) (xs : List ℕ) → ((p : ℕ) → has xs p ≡ true → p < n) → Below n xs
has-Below n [] h = tt
has-Below n (x ∷ xs) h = (h x (ground arith), has-Below n xs (λ p e. h p (ground arith)))

take-front : (xs ys : List ℕ) → take (length xs) (xs ++ ys) ≡ xs
take-front [] ys = refl
take-front (x ∷ xs) ys = ap (λ r. x ∷ r) (take-front xs ys)

-- The same lines, over another number of lines.
abbrev pub over : ℕ → List ℕ → BitMap → BitMap
over n ys t = record t { index = ys ++ replicate (n - length ys) 0; total_size = n }

pub over-Holds :
    (n : ℕ) {t : BitMap} {ys : List ℕ} → Holds t ys → Below n ys → Holds (over n ys t) ys
over-Holds n {t} {ys} w bounded =
    let le : length ys ≤ n = length_of_Distinct n ys w.distinct bounded in
    record {
      size = w.size;
      cells = omega (
        arith,
        length-append ys (replicate (n - length ys) 0),
        length-replicate {A = ℕ} (n - length ys) 0,
      );
      prefix = take-front ys (replicate (n - length ys) 0);
      bits = w.bits;
      distinct = w.distinct;
      bounded = bounded;
    }

-- Complement by a bitmap over more lines, all of whose members are lines of the first.
pub complement_by_wider :
    {b t : BitMap} {xs ys : List ℕ}
    → Holds b xs
    → Holds t ys
    → ((p : ℕ) → has ys p ≡ true → has xs p ≡ true)
    → Yields b.total_size (λ p. member b p && not (member t p)) (complement t b)
unfolding complement
complement_by_wider {b} {t} {xs} {ys} v w inside =
    let n = b.total_size in
    let bounded : Below n ys = has-Below n ys (λ p e. Below-has n xs p v.bounded (inside p e)) in
    complement_refines {b = b} {t = over n ys t} {xs = xs} v (some_of (over-Holds n w bounded)) refl
