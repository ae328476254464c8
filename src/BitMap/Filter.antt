-- ===== src/BitMap/Filter.antt =====
-- The in-place loops of BitMap: `compact` (Inset, Complement and the pruning searches) and Reverse.
use log_grep.Prelude.{
  ℕ, zero, suc, ◌+◌, ◌≤◌, ◌≡◌, refl, Bool, false, ◌||◌, Bool-cases, inl, inr, some, List, [], ◌∷◌,
  ◌++◌, length, length-append, get_or, set, length-set, take, drop, append-nil, append_assoc, arith,
}
use log_grep.BitMap.{BitMap, entries, rounds, inset_at, reset_at, reset_size, compact}
use log_grep.BitMap.Sets.{has, Distinct, Below, kept, has-append, length_of_Distinct}
use log_grep.BitMap.Holds.{Holds}
use log_grep.BitMap.Update.{take_append_set}

drop-set : (cells : List ℕ) (w i v : ℕ) → w ≤ i → drop (suc i) (set cells w v) ≡ drop (suc i) cells
drop-set [] w i v h = refl
drop-set (c ∷ cells) zero i v h = refl
drop-set (c ∷ cells) (suc w) zero v h = absurd (omega arith)
drop-set (c ∷ cells) (suc w) (suc i) v h = drop-set cells w i v (omega arith)

-- The first of the cells from `i` on is the entry at `i`.
drop_head :
    (cells : List ℕ) (i r : ℕ) (rs : List ℕ)
    → take (suc (length rs)) (drop i cells) ≡ r ∷ rs
    → (get_or cells i 0 ≡ r) × (take (length rs) (drop (suc i) cells) ≡ rs)
drop_head [] zero r rs h = ground arith
drop_head [] (suc i) r rs h = ground arith
drop_head (c ∷ cells) zero r rs h = ground arith
drop_head (c ∷ cells) (suc i) r rs h = drop_head cells i r rs h

Distinct-middle :
    (ks rs : List ℕ) (r : ℕ)
    → Distinct (ks ++ r ∷ rs)
    → (has ks r ≡ false) × (has rs r ≡ false) × Distinct (ks ++ rs)
Distinct-middle [] rs r d = (refl, d.0, d.1)
Distinct-middle (k ∷ ks) rs r d =
    ground (arith, Distinct-middle ks rs r, has-append ks (r ∷ rs) k, has-append ks rs k)

Below-middle : (n : ℕ) (ks rs : List ℕ) (r : ℕ) → Below n (ks ++ r ∷ rs) → Below n (ks ++ rs)
Below-middle n [] rs r h = h.1
Below-middle n (k ∷ ks) rs r h = (h.0, Below-middle n ks rs r h.1)

-- The state of the loop at round `i`: `ks` is kept at the front, `rs` is still to be looked at.
record Compacting (i : ℕ) (ks rs : List ℕ) (b : BitMap) : Type 0 where
  size : b.size ≡ entries (length ks)
  cells : length b.index ≡ b.total_size
  front : take (length ks) b.index ≡ ks
  todo : take (length rs) (drop i b.index) ≡ rs
  behind : length ks ≤ i
  ahead : i + length rs ≤ length b.index
  bits : (p : ℕ) → b.bitmap p ≡ (has ks p || has rs p)
  distinct : Distinct (ks ++ rs)
  bounded : Below b.total_size (ks ++ rs)

module _ {i r : ℕ} {ks rs : List ℕ} {b : BitMap} (v : Compacting i ks (r ∷ rs) b) where
  kept_on : BitMap
  kept_on = record b { index = set b.index (length ks) r; size = entries (suc (length ks)) }

  keep-Compacting : Compacting (suc i) (ks ++ r ∷ []) rs kept_on
  unfolding kept_on
  keep-Compacting = record {
    size = ground (arith, length-append ks (r ∷ []));
    cells = ground (arith, length-set b.index (length ks) r, v.cells);
    front =
        ground
          (arith, length-append ks (r ∷ []), take_append_set b.index ks r v.front (omega arith));
    todo = rw (drop-set b.index (length ks) i r v.behind) (drop_head b.index i r rs v.todo).1;
    behind = omega (arith, v.behind, length-append {0} ks (r ∷ []));
    ahead = omega (arith, v.ahead, length-set {0} b.index (length ks) r);
    bits = λ p. ground (arith, v.bits p, has-append ks (r ∷ []) p);
    distinct = rw (append_assoc ks (r ∷ []) rs) v.distinct;
    bounded = rw (append_assoc ks (r ∷ []) rs) v.bounded;
  }

  drop-Compacting : Compacting (suc i) ks rs (reset_at r b)
  unfolding reset_at
  drop-Compacting =
      let (k, h, d) = Distinct-middle ks rs r v.distinct in
      record {
        size = v.size;
        cells = v.cells;
        front = v.front;
        todo = (drop_head b.index i r rs v.todo).1;
        behind = omega (arith, v.behind);
        ahead = omega (arith, v.ahead);
        bits = λ p. ground (arith, v.bits p);
        distinct = d;
        bounded = Below-middle b.total_size ks rs r v.bounded;
      }

  inset_at-kept_on : inset_at r b ≡ some kept_on
  unfolding inset_at kept_on
  inset_at-kept_on = ground (arith, v.size, v.behind, v.ahead)

-- The loop keeps, in their order, the entries that pass the test, and no others.
compact-Compacting :
    (keep : ℕ → Bool) (rs : List ℕ) (i : ℕ) (ks : List ℕ) (b : BitMap)
    → Compacting i ks rs b
    → (b' : BitMap) × (compact (λ e next. keep e) (length rs) i b ≡ some b')
      × Holds b' (ks ++ kept keep rs)
      × (b'.total_size ≡ b.total_size)
unfolding compact kept_on reset_at
compact-Compacting keep [] i ks b v = (
  b,
  refl,
  rw (append-nil ks) (record {
    size = v.size;
    cells = v.cells;
    prefix = v.front;
    bits = λ p. ground (arith, v.bits p);
    distinct = rw (append-nil ks) at v.distinct;
    bounded = rw (append-nil ks) at v.bounded;
  }),
  refl,
)
compact-Compacting keep (r ∷ rs) i ks b v = elim (Bool-cases (keep r)) [
  | inl e ↦
      let (b', q, h, t) =
        compact-Compacting keep rs (suc i) (ks ++ r ∷ []) (kept_on v) (keep-Compacting v) in
      (
        b',
        rw ((drop_head b.index i r rs v.todo).0, e, inset_at-kept_on v) q,
        rw e (rw (append_assoc ks (r ∷ []) (kept keep rs)) at h),
        t,
      )
  | inr e ↦
      let (b', q, h, t) =
        compact-Compacting keep rs (suc i) ks (reset_at r b) (drop-Compacting v) in
      (b', rw ((drop_head b.index i r rs v.todo).0, e) q, rw e h, t)
]

-- Started on a bitmap that holds `xs`, with the count reset, the loop leaves the members of `xs`
-- that pass the test.
pub compact-Holds :
    (keep : ℕ → Bool) {b : BitMap} {xs : List ℕ}
    → Holds b xs
    → (b' : BitMap) × (compact (λ e next. keep e) (rounds b.size) 0 (reset_size b) ≡ some b')
      × Holds b' (kept keep xs)
      × (b'.total_size ≡ b.total_size)
unfolding reset_size
compact-Holds keep {b} {xs} v = rw v.size (
    compact-Compacting keep xs 0 [] (reset_size b) (record {
      size = refl;
      cells = v.cells;
      front = refl;
      todo = v.prefix;
      behind = omega arith;
      ahead = omega (arith, v.cells, length_of_Distinct b.total_size xs v.distinct v.bounded);
      bits = v.bits;
      distinct = v.distinct;
      bounded = v.bounded;
    }))
