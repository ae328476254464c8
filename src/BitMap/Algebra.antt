-- ===== src/BitMap/Algebra.antt =====
-- The operations of BitMap (cmdline_loggrep/LogStructure.h) as operations on sets of lines.
use log_grep.Prelude.{
  ℕ, ◌<◌, ◌≡◌, refl, Bool, true, false, not, ◌||◌, ◌&&◌, Bool-cases, inl, inr, Option, none, some,
  List, [], ◌∷◌, length, arith, ltb, ltb→lt,
}
use log_grep.BitMap.{BitMap, full, union, inset, complement, reverse, reset, set_size, size_is}
use log_grep.BitMap.Sets.{has, has-kept, length_of_Distinct}
use log_grep.BitMap.Holds.{Holds, member, member_of_Holds, reset-Holds}
use log_grep.BitMap.Update.{has-add_all, union-Holds}
use log_grep.BitMap.Filter.{compact-Holds}
use log_grep.BitMap.Reverse.{has-missing, reverse-Holds}

-- A bitmap in use: it stands at the full mark, or holds a list.
pub data IsValid (b : BitMap) : Type 0 where
  all : b.size ≡ full → length b.index ≡ b.total_size → IsValid b
  some_of : {xs : List ℕ} → Holds b xs → IsValid b

-- a set of lines, cut down to the lines below `n`
abbrev pub on_lines : ℕ → (ℕ → Bool) → ℕ → Bool
on_lines n S p = ltb p n && S p

agree_on_lines :
    (n : ℕ) (S T : ℕ → Bool)
    → ((p : ℕ) → p < n → S p ≡ T p)
    → (p : ℕ) → on_lines n S p ≡ on_lines n T p
agree_on_lines n S T h p = elim (Bool-cases (ltb p n)) [
  | inl e ↦ rw (e, h p (ltb→lt p n e))
  | inr e ↦ rw e
]

-- The call succeeds, leaves a valid bitmap, and its members below the line count are those of `S`.
abbrev pub Yields : ℕ → (ℕ → Bool) → Option BitMap → Type 0
Yields n S r =
    (b : BitMap) × (r ≡ some b) × IsValid b × ((p : ℕ) → on_lines n (member b) p ≡ on_lines n S p)

pub has_of_full :
    {t : BitMap} {ys : List ℕ}
    → Holds t ys
    → length ys ≡ t.total_size
    → (p : ℕ) → p < t.total_size
    → has ys p ≡ true
has_of_full {t} {ys} w e p l = elim (Bool-cases (has ys p)) [
  | inl h ↦ h
  | inr h ↦
      absurd
        (omega (arith, length_of_Distinct t.total_size (p ∷ ys) (h, w.distinct) (l, w.bounded)))
]

has_of_empty : (ys : List ℕ) (p : ℕ) → length ys ≡ 0 → has ys p ≡ false
has_of_empty [] p h = refl
has_of_empty (y ∷ ys) p h = absurd (omega arith)

-- Union(BitMap*) of two counted bitmaps over the same lines never writes outside `Index`, and leaves
-- a valid bitmap whose members are those of either.
pub union_refines :
    {b t : BitMap} {xs ys : List ℕ}
    → Holds b xs
    → Holds t ys
    → t.total_size ≡ b.total_size
    → Yields b.total_size (λ p. member b p || member t p) (union (some t) b)
union_refines {b} {t} {xs} {ys} v w e =
    let (b', q, h) = union-Holds v w e in
    (
      b',
      q,
      some_of h,
      agree_on_lines _ _ _ λ p l. ground (
        arith,
        member_of_Holds h p,
        member_of_Holds v p,
        member_of_Holds w p,
        has-add_all ys xs p,
      ),
    )

-- Union onto the full mark: a member of the other bitmap whose bit is not set yet is written to
-- Index[-99], outside the array. Here it is the first member.
pub union-full :
    (b : BitMap) {t : BitMap} {ys : List ℕ} (y : ℕ)
    → b.size ≡ full
    → Holds t (y ∷ ys)
    → b.bitmap y ≡ false
    → union (some t) b ≡ none
unfolding union
union-full b {t} {ys} y e w h = rw (w.size, w.prefix) (ground arith)

-- Inset(BitMap*) into a counted bitmap leaves the members of both, whether the other bitmap is
-- counted or at the full mark.
pub inset_refines :
    {b t : BitMap} {xs : List ℕ}
    → Holds b xs
    → IsValid t
    → Yields b.total_size (λ p. member b p && member t p) (inset t b)
unfolding inset
inset_refines {b} {t} {xs} v (all e c) =
    (b, ground arith, some_of v, agree_on_lines _ _ _ λ p l. ground (arith, member_of_Holds v p))
inset_refines {b} {t} {xs} v (some_of {xs = []} w) =
    let r = reset-Holds b v.cells in
    (
      reset b,
      ground (arith, w.size),
      some_of r,
      agree_on_lines _ _ _
          λ p l. ground (arith, member_of_Holds r p, member_of_Holds v p, member_of_Holds w p),
    )
inset_refines {b} {t} {xs} v (some_of {xs = y ∷ ys} w) =
    let (b', q, h, u) = compact-Holds t.bitmap v in
    (
      b',
      ground (arith, w.size, q),
      some_of h,
      agree_on_lines _ _ _ λ p l. ground (
        arith,
        member_of_Holds h p,
        member_of_Holds v p,
        member_of_Holds w p,
        w.bits p,
        has-kept t.bitmap xs p,
      ),
    )

-- Complement(BitMap*) on a counted bitmap leaves its members that the other bitmap, over the same
-- lines, lacks.
pub complement_refines :
    {b t : BitMap} {xs : List ℕ}
    → Holds b xs
    → IsValid t
    → t.total_size ≡ b.total_size
    → Yields b.total_size (λ p. member b p && not (member t p)) (complement t b)
unfolding complement
complement_refines {b} {t} {xs} v (all e c) s =
    let r = reset-Holds b v.cells in
    (
      reset b,
      ground arith,
      some_of r,
      agree_on_lines _ _ _ λ p l. ground (arith, member_of_Holds r p, member_of_Holds v p),
    )
complement_refines {b} {t} {xs} v (some_of {xs = ys} w) s =
    elim (Bool-cases (size_is t.size b.total_size)) [
      | inl e ↦
          let r = reset-Holds b v.cells in
          (
            reset b,
            ground arith,
            some_of r,
            agree_on_lines _ _ _ λ p l. ground (
              arith,
              member_of_Holds r p,
              member_of_Holds v p,
              member_of_Holds w p,
              has_of_full w (ground (arith, w.size)) p,
            ),
          )
      | inr e ↦ elim (Bool-cases (size_is t.size 0)) [
        | inl z ↦ (
          b,
          ground (arith, w.size),
          some_of v,
          agree_on_lines _ _ _ λ p l.
              ground (arith, member_of_Holds v p, member_of_Holds w p, w.size, has_of_empty ys p),
        )
        | inr z ↦
            let (b', q, h, u) = compact-Holds (λ x. not (t.bitmap x)) v in
            (
              b',
              ground (arith, w.size, q),
              some_of h,
              agree_on_lines _ _ _ λ p l. ground (
                arith,
                member_of_Holds h p,
                member_of_Holds v p,
                member_of_Holds w p,
                w.bits p,
                has-kept (λ x. not (t.bitmap x)) xs p,
              ),
            )
      ]
    ]

-- Reverse swaps the lines below the line count that are members with those that are not: the full
-- mark becomes the empty bitmap, and the empty bitmap the full mark.
pub reverse_refines :
    {b : BitMap} → IsValid b → Yields b.total_size (λ p. not (member b p)) (reverse b)
unfolding reverse set_size
reverse_refines {b} (all e c) =
    let r = reset-Holds b c in
    (
      reset b,
      ground arith,
      some_of r,
      agree_on_lines _ _ _ λ p l. ground (arith, member_of_Holds r p),
    )
reverse_refines {b} (some_of {xs = []} v) = (
  set_size b,
  ground (arith, v.size),
  all refl v.cells,
  agree_on_lines _ _ _ λ p l. ground (arith, member_of_Holds v p),
)
reverse_refines {b} (some_of {xs = x ∷ xs} v) =
    let (b', q, h, u) = reverse-Holds v (omega arith) in
    (
      b',
      q,
      some_of h,
      agree_on_lines _ _ _ λ p l.
          ground
            (arith, member_of_Holds h p, member_of_Holds v p, has-missing (x ∷ xs) b.total_size p),
    )
