-- ===== src/BitMap/Reverse.antt =====
-- The loop of BitMap::Reverse (cmdline_loggrep/LogStructure.h).
use log_grep.Prelude.{
  ℕ, zero, suc, ◌+◌, ◌≤◌, ◌<◌, ◌≡◌, refl, true, false, not, ◌&&◌, if◌then◌else◌, Bool-cases, inl,
  inr, some, List, [], ◌∷◌, ◌++◌, length, length-append, set, length-set, take, ltb, arith,
}
use log_grep.BitMap.{BitMap, entries, update, inset_at, reset_at, reset_size, reverse_from, reverse}
use log_grep.BitMap.Sets.{
  has, Distinct, Below, has-append, Below-append, Distinct-snoc, Below-lookup, length_of_Distinct,
}
use log_grep.BitMap.Holds.{Holds}
use log_grep.BitMap.Update.{take_append_set}

-- The lines below `i` that `xs` lacks, in order.
abbrev pub missing : List ℕ → ℕ → List ℕ
missing xs zero = []
missing xs (suc i) = if has xs i then missing xs i else missing xs i ++ i ∷ []

missing-Below : (xs : List ℕ) (i : ℕ) → Below i (missing xs i)
missing-Below xs zero = tt
missing-Below xs (suc i) = elim (Bool-cases (has xs i)) [
  | inl e ↦ rw e (Below_suc (missing xs i) (missing-Below xs i))
  | inr e ↦ rw e (
      Below-append (suc i) (missing xs i) (i ∷ []) (Below_suc (missing xs i) (missing-Below xs i))
        (omega arith))
]
  where
    Below_suc : (ys : List ℕ) → Below i ys → Below (suc i) ys
    Below_suc [] h = tt
    Below_suc (y ∷ ys) h = (omega arith, Below_suc ys h.1)

pub has-missing : (xs : List ℕ) (i p : ℕ) → has (missing xs i) p ≡ (ltb p i && not (has xs p))
has-missing xs zero p = ground arith
has-missing xs (suc i) p = ground (arith, has-missing xs i p, has-append (missing xs i) (i ∷ []) p)

missing-Distinct : (xs : List ℕ) (i : ℕ) → Distinct (missing xs i)
missing-Distinct xs zero = tt
missing-Distinct xs (suc i) = elim (Bool-cases (has xs i)) [
  | inl e ↦ rw e (missing-Distinct xs i)
  | inr e ↦
      rw e (
        Distinct-snoc (missing xs i) i (missing-Distinct xs i) (ground (arith, has-missing xs i i)))
]

length-missing-le : (xs : List ℕ) (i : ℕ) → length (missing xs i) ≤ i
length-missing-le xs i =
    length_of_Distinct i (missing xs i) (missing-Distinct xs i) (missing-Below xs i)

-- The state of the loop at line `i`.
record Reversing (xs : List ℕ) (i : ℕ) (b : BitMap) : Type 0 where
  size : b.size ≡ entries (length (missing xs i))
  cells : length b.index ≡ b.total_size
  front : take (length (missing xs i)) b.index ≡ missing xs i
  bits : (p : ℕ) → b.bitmap p ≡ (if ltb p i then not (has xs p) else has xs p)

module _ {xs : List ℕ} {i : ℕ} {b : BitMap} (v : Reversing xs i b) where
  flipped_on : BitMap
  flipped_on = record b {
    bitmap = update b.bitmap i true;
    index = set b.index (length (missing xs i)) i;
    size = entries (suc (length (missing xs i)));
  }

  flip_on :
      i < b.total_size
      → has xs i ≡ false
      → (inset_at i (record b { bitmap = update b.bitmap i true }) ≡ some flipped_on)
        × Reversing xs (suc i) flipped_on
  unfolding inset_at flipped_on
  flip_on h e = (
    ground (arith, v.size, v.cells, length-missing-le xs i),
    record {
      size = ground (arith, length-append (missing xs i) (i ∷ []));
      cells = ground (arith, v.cells, length-set b.index (length (missing xs i)) i);
      front = ground (
        arith,
        length-append (missing xs i) (i ∷ []),
        take_append_set b.index (missing xs i) i v.front
            (omega (arith, v.cells, length-missing-le xs i)),
      );
      bits = λ p. ground (arith, v.bits p);
    },
  )

  flip_off : has xs i ≡ true → Reversing xs (suc i) (reset_at i b)
  unfolding reset_at
  flip_off e = record {
    size = rw e v.size;
    cells = v.cells;
    front = rw e v.front;
    bits = λ p. ground (arith, v.bits p);
  }

reverse_from-Reversing :
    (xs : List ℕ) (r i n : ℕ) (b : BitMap)
    → i + r ≡ n
    → n ≡ b.total_size
    → Reversing xs i b
    → (b' : BitMap) × (reverse_from r i b ≡ some b') × Reversing xs n b' × (n ≡ b'.total_size)
unfolding reverse_from reset_at flipped_on
reverse_from-Reversing xs zero i n b e t v =
    let e' : i ≡ n = omega arith in (b, refl, rw (← e') v, t)
reverse_from-Reversing xs (suc r) i n b e t v = elim (Bool-cases (has xs i)) [
  | inl h ↦
      let (b', q, w, u) =
        reverse_from-Reversing xs r (suc i) n (reset_at i b) (omega arith) t (flip_off v h) in
      (b', ground (arith, v.bits i, q), w, u)
  | inr h ↦
      let (q₀, v') = flip_on v (omega arith) h in
      let (b', q, w, u) = reverse_from-Reversing xs r (suc i) n (flipped_on v) (omega arith) t v' in
      (b', ground (arith, v.bits i, q₀, q), w, u)
]

-- Reverse of a bitmap with some member leaves exactly the lines that were missing.
pub reverse-Holds :
    {b : BitMap} {xs : List ℕ}
    → Holds b xs
    → 0 < length xs
    → (b' : BitMap) × (reverse b ≡ some b')
      × Holds b' (missing xs b.total_size)
      × (b.total_size ≡ b'.total_size)
unfolding reverse reset_size
reverse-Holds {b} {xs} v h =
    let (b', q, w, u) =
      reverse_from-Reversing xs b.total_size 0 b.total_size (reset_size b) (omega arith) refl
        (record {
          size = refl;
          cells = v.cells;
          front = refl;
          bits = λ p. ground (arith, v.bits p);
        }) in
    (
      b',
      ground (arith, v.size, q),
      record {
        size = w.size;
        cells = w.cells;
        prefix = w.front;
        bits = λ p. ground (
          arith,
          w.bits p,
          has-missing xs b.total_size p,
          Below-lookup b.total_size xs p v.bounded,
        );
        distinct = missing-Distinct xs b.total_size;
        bounded = rw (← u) (missing-Below xs b.total_size);
      },
      u,
    )
