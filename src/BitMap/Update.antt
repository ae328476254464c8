-- ===== src/BitMap/Update.antt =====
-- Union(pos) and Union(BitMap*) of cmdline_loggrep/LogStructure.h on bitmaps that hold lists.
use log_grep.Prelude.{
  ℕ, suc, ◌<◌, ◌≡◌, refl, true, false, ◌||◌, if◌then◌else◌, Bool-cases, inl, inr, some, List, [],
  ◌∷◌, ◌++◌, length, length-append, set, length-set, take, arith, ◌∙◌,
}
use log_grep.BitMap.{BitMap, entries, update, union_at, union_all, union}
use log_grep.BitMap.Sets.{has, Below, has-append, Below-append, Distinct-snoc}
use log_grep.BitMap.Holds.{Holds, room}

pub take_append_set :
    (cells xs : List ℕ) (p : ℕ)
    → take (length xs) cells ≡ xs
    → length xs < length cells
    → take (suc (length xs)) (set cells (length xs) p) ≡ xs ++ p ∷ []
take_append_set [] xs p h k = absurd (omega arith)
take_append_set (c ∷ cells) [] p h k = refl
take_append_set (c ∷ cells) (x ∷ xs) p h k = ground (arith, take_append_set cells xs p)

-- what Union(pos) does to the members
abbrev pub add : ℕ → List ℕ → List ℕ
add p xs = if has xs p then xs else xs ++ p ∷ []

abbrev pub add_all : List ℕ → List ℕ → List ℕ
add_all [] xs = xs
add_all (p ∷ ps) xs = add_all ps (add p xs)

module _ {b : BitMap} {xs : List ℕ} (p : ℕ) (v : Holds b xs) where
  appended : BitMap
  appended = record b {
    bitmap = update b.bitmap p true;
    index = set b.index (length xs) p;
    size = entries (suc (length xs));
  }

  appended-Holds : p < b.total_size → has xs p ≡ false → Holds appended (xs ++ p ∷ [])
  unfolding appended
  appended-Holds h e = record {
    size = ground (arith, length-append xs (p ∷ []));
    cells = ground (arith, length-set b.index (length xs) p, v.cells);
    prefix =
        ground
          (arith, length-append xs (p ∷ []), take_append_set b.index xs p v.prefix (room p v h e));
    bits = λ q. ground (arith, v.bits q, has-append xs (p ∷ []) q);
    distinct = Distinct-snoc xs p v.distinct e;
    bounded = Below-append b.total_size xs (p ∷ []) v.bounded (h, tt);
  }

  -- Union(pos) of a line in range never overflows `Index`, and adds the line if it is missing.
  pub union_at-Holds :
      p < b.total_size
      → (b' : BitMap) × (union_at p b ≡ some b')
        × Holds b' (add p xs)
        × (b'.total_size ≡ b.total_size)
  unfolding union_at appended
  union_at-Holds h = elim (Bool-cases (has xs p)) [
    | inl e ↦ (b, ground (arith, v.bits p), rw e v, refl)
    | inr e ↦
        (appended, ground (arith, v.bits p, v.size, room p v h e), rw e (appended-Holds h e), refl)
  ]

pub union_all-Holds :
    (ps : List ℕ) {b : BitMap} {xs : List ℕ}
    → Holds b xs
    → Below b.total_size ps
    → (b' : BitMap) × (union_all ps b ≡ some b')
      × Holds b' (add_all ps xs)
      × (b'.total_size ≡ b.total_size)
unfolding union_all
union_all-Holds [] {b} v h = (b, refl, v, refl)
union_all-Holds (p ∷ ps) {b} {xs} v h =
    let (b₁, e₁, v₁, t₁) = union_at-Holds p v h.0 in
    let (b₂, e₂, v₂, t₂) = union_all-Holds ps v₁ (rw t₁ h.1) in (b₂, rw e₁ e₂, v₂, t₂ ∙ t₁)

pub has-add_all : (ps xs : List ℕ) (q : ℕ) → has (add_all ps xs) q ≡ (has xs q || has ps q)
has-add_all [] xs q = ground arith
has-add_all (p ∷ ps) xs q = ground (arith, has-add_all ps (add p xs) q, has-append xs (p ∷ []) q)

-- Union of two bitmaps over the same lines.
pub union-Holds :
    {b t : BitMap} {xs ys : List ℕ}
    → Holds b xs
    → Holds t ys
    → t.total_size ≡ b.total_size
    → (b' : BitMap) × (union (some t) b ≡ some b') × Holds b' (add_all ys xs)
unfolding union
union-Holds {b} {t} {xs} {ys} v w e =
    let (b', r, h, _) = union_all-Holds ys v (rw e at w.bounded) in (b', rw (w.size, w.prefix) r, h)
