-- ===== src/Logic/Entries.antt =====
-- SearchByLogic_norm and SearchByLogic_not (cmdline_loggrep/LogStore_API.cpp) for one pattern, as
-- operations on the set of its lines that are left.
use log_grep.Prelude.{
  ℕ, ◌≤◌, ◌<◌, ◌≡◌, refl, subst, ◌∙◌, inl, inr, Bool, true, false, not, ◌&&◌, Bool-cases,
  if◌then◌else◌, Option, none, some, ◌>>=◌, List, [], ◌∷◌, length, arith,
}
use log_grep.Bytes.{Bytes}
use log_grep.BitMap.{BitMap, new, reset, size_is, be_size_ful, reverse}
use log_grep.BitMap.Sets.{has}
use log_grep.BitMap.Holds.{Holds, member, member_of_Holds, new-Holds, reset-Holds}
use log_grep.BitMap.Algebra.{IsValid, all, some_of, on_lines, reverse_refines, has_of_full}
use log_grep.BitMap.Total.{complement-total, reverse-total, complement_by_wider}
use log_grep.Logic.{
  LogPattern, Query, single, multi, axb, Searches, in_pattern, ref_map, Entry, unless_empty,
  norm_entry, not_entry,
}

-- the lines of a pattern that an entry leaves: all for a key that is not there, none for NULL
abbrev pub lines : Entry → ℕ → Bool
lines none p = true
lines (some none) p = false
lines (some (some b)) p = member b p

abbrev pub IsEntry : ℕ → Entry → Type 0
IsEntry n none = Unit
IsEntry n (some none) = Unit
IsEntry n (some (some b)) = IsValid b × (b.total_size ≡ n)

-- The call succeeds, and leaves an entry with the lines of `S`, of those below `n`.
abbrev pub Leaves : ℕ → (ℕ → Bool) → Option (Option BitMap) → Type 0
Leaves n S r =
    (e : Option BitMap) × (r ≡ some e)
    × IsEntry n (some e)
    × ((p : ℕ) → on_lines n (lines (some e)) p ≡ on_lines n S p)

abbrev pub is_axb : Query → Bool
is_axb (single w) = false
is_axb (multi args) = false
is_axb (axb w v) = true

-- What the logic relies on: a search in a pattern, with an empty bitmap, leaves the lines of the pattern
-- that match; one among the lines of a counted bitmap leaves those of its lines that match, and
-- lists them.
pub record AreAnswers (s : Searches) (hits : Query → LogPattern → ℕ → Bool) : Type 0 where
  pub whole :
      (q : Query) (pat : LogPattern) (b : BitMap)
      → Holds b []
      → b.total_size ≡ pat.count
      → (b' : BitMap) × (in_pattern s q pat b ≡ some b')
        × IsValid b'
        × (b'.total_size ≡ pat.count)
        × ((p : ℕ) → on_lines pat.count (member b') p ≡ on_lines pat.count (hits q pat) p)
  pub among :
      (q : Query) (pat : LogPattern) (b ref : BitMap) (xs : List ℕ)
      → is_axb q ≡ false
      → Holds b []
      → pat.count ≤ b.total_size
      → Holds ref xs
      → ref.total_size ≡ pat.count
      → (b' : BitMap) × (ys : List ℕ) × (ref_map s q pat b ref ≡ some b')
        × Holds b' ys
        × (b'.total_size ≡ b.total_size)
        × ((p : ℕ) → has ys p ≡ (has xs p && hits q pat p))

-- What an empty bitmap leaves is NULL's lines.
unless_empty-Leaves :
    (n : ℕ) (S : ℕ → Bool) (b : BitMap)
    → IsValid b
    → b.total_size ≡ n
    → ((p : ℕ) → on_lines n (member b) p ≡ on_lines n S p)
    → Leaves n S (some (unless_empty b))
unfolding unless_empty
unless_empty-Leaves n S b (all e c) total agree =
    let keeps : size_is b.size 0 ≡ false = rw e refl in
    rw keeps (some b, refl, (all e c, total), agree)
unless_empty-Leaves n S b (some_of {xs = []} h) total agree =
    let gone : size_is b.size 0 ≡ true = rw h.size refl in
    rw gone (none, refl, tt, λ p. ground (arith, agree p, member_of_Holds h p))
unless_empty-Leaves n S b (some_of {xs = x ∷ xs} h) total agree =
    let keeps : size_is b.size 0 ≡ false = rw h.size (ground arith) in
    rw keeps (some b, refl, (some_of h, total), agree)

-- The test for all lines, in both of its forms.
full_member :
    (b : BitMap) → IsValid b → be_size_ful b ≡ true → (p : ℕ) → p < b.total_size → member b p ≡ true
unfolding be_size_ful
full_member b (all e c) f p lt = rw e refl
full_member b (some_of {xs = xs} h) f p lt =
    let len : length xs ≡ b.total_size = let z = h.size in ground arith in
    ground (arith, member_of_Holds h p, has_of_full h len p lt)

counted_of : (b : BitMap) → IsValid b → be_size_ful b ≡ false → (xs : List ℕ) × Holds b xs
unfolding be_size_ful
counted_of b (all e c) f = absurd (ground arith)
counted_of b (some_of {xs = xs} h) f = (xs, h)

cells_of : (b : BitMap) → IsValid b → length b.index ≡ b.total_size
cells_of b (all e c) = c
cells_of b (some_of h) = h.cells

empty_member :
    (b : BitMap) (xs : List ℕ) → Holds b xs → size_is b.size 0 ≡ true → (p : ℕ) → member b p ≡ false
empty_member b [] h z p = member_of_Holds h p
empty_member b (x ∷ xs) h z p = let e = h.size in absurd (ground arith)

-- All lines cut down to those of `S`.
cut_all :
    (n p : ℕ) (M S T : ℕ → Bool)
    → (p < n → M p ≡ true)
    → on_lines n T p ≡ on_lines n S p
    → on_lines n T p ≡ on_lines n (λ p. M p && S p) p
cut_all n p M S T h e = ground (arith, h)

new-total : (n : ℕ) → (new n).total_size ≡ n
unfolding new
new-total n = refl

reset-total : (b : BitMap) → (reset b).total_size ≡ b.total_size
unfolding reset
reset-total b = refl

-- AND with a query that has no star: of each pattern the lines are left that were left before and match
-- the query, whether the pattern was not searched yet, has no lines left, all or some.
pub norm_entry-Leaves :
    (s : Searches) (hits : Query → LogPattern → ℕ → Bool) (q : Query) (pat : LogPattern)
    (entry : Entry)
    → AreAnswers s hits
    → is_axb q ≡ false
    → IsEntry pat.count entry
    → Leaves pat.count (λ p. lines entry p && hits q pat p) (norm_entry s q pat entry)
unfolding norm_entry
norm_entry-Leaves s hits q pat none ans plain ok =
    let (b, found, valid, total, agree) =
      ans.whole q pat (new pat.count) (new-Holds pat.count) (new-total pat.count) in
    rw (found, norm_entry) (unless_empty-Leaves pat.count (hits q pat) b valid total agree)
norm_entry-Leaves s hits q pat (some none) ans plain ok = (none, refl, tt, λ p. refl)
norm_entry-Leaves s hits q pat (some (some b)) ans plain (valid, total) =
    elim (Bool-cases (be_size_ful b)) [
      | inl f ↦
          let start = reset-Holds b (cells_of b valid) in
          let (b', found, valid', total', agree) =
            ans.whole q pat (reset b) start (reset-total b ∙ total) in
          let every =
            λ (p : ℕ) (lt : p < pat.count). full_member b valid f p (omega (arith, total)) in
          rw (f, found)
            (unless_empty-Leaves pat.count (λ p. member b p && hits q pat p) b' valid' total'
              (λ p. cut_all pat.count p (member b) (hits q pat) (member b') (every p) (agree p)))
      | inr f ↦
          let (xs, h) = counted_of b valid f in
          elim (Bool-cases (size_is b.size 0)) [
            | inl z ↦ rw (f, z) (none, refl, tt, λ p. ground (arith, empty_member b xs h z p))
            | inr z ↦
                let (b', ys, found, h', total', agree) =
                  ans.among q pat (new pat.count) b xs plain (new-Holds pat.count)
                    (omega (arith, new-total pat.count)) h total in
                rw (f, z, found)
                  (unless_empty-Leaves pat.count (λ p. member b p && hits q pat p) b' (some_of h')
                    (total' ∙ new-total pat.count)
                    (λ p. ground (arith, agree p, member_of_Holds h p, member_of_Holds h' p)))
          ]
    ]

-- The lines that are left when those of `T` are taken from all.
cut_rest :
    (n p : ℕ) (M S T R : ℕ → Bool)
    → (p < n → M p ≡ true)
    → on_lines n T p ≡ on_lines n S p
    → on_lines n R p ≡ on_lines n (λ p. not (T p)) p
    → on_lines n R p ≡ on_lines n (λ p. M p && not (S p)) p
cut_rest n p M S T R h e r = ground (arith, h)

-- The branch of NOT where all lines of the pattern were left, behind the search.
reversed-Leaves :
    (n : ℕ) (M S : ℕ → Bool) (b : BitMap)
    → IsValid b
    → b.total_size ≡ n
    → ((p : ℕ) → p < n → M p ≡ true)
    → ((p : ℕ) → on_lines n (member b) p ≡ on_lines n S p)
    → Leaves n
        (λ p. M p && not (S p))
        (if be_size_ful b then some none else reverse b >>= λ b'. some (some b'))
reversed-Leaves n M S b valid total every agree = elim (Bool-cases (be_size_ful b)) [
  | inl f ↦
      let all_of = λ (p : ℕ) (lt : p < n). full_member b valid f p (omega (arith, total)) in
      rw f (none, refl, tt, λ p. ground (arith, all_of p, agree p))
  | inr f ↦
      let (b', turned, valid', agree') = reverse_refines valid in
      let total' = reverse-total valid turned ∙ total in
      rw (f, turned)
        (
          some b',
          refl,
          (valid', total'),
          λ p. cut_rest n p M S (member b) (member b') (every p) (agree p) (
              subst (λ m. on_lines m (member b') p ≡ on_lines m (λ p. not (member b p)) p) total
                (agree' p)),
        )
]

-- NOT with a query that has no star, of a pattern that was searched before: the lines are left that were
-- left before and do not match the query.
pub not_entry-Leaves :
    (s : Searches) (exchange : BitMap) (hits : Query → LogPattern → ℕ → Bool) (q : Query)
    (pat : LogPattern) (left : Option BitMap)
    → AreAnswers s hits
    → is_axb q ≡ false
    → length exchange.index ≡ exchange.total_size
    → pat.count ≤ exchange.total_size
    → IsEntry pat.count (some left)
    → Leaves pat.count
        (λ p. lines (some left) p && not (hits q pat p))
        (not_entry s exchange q pat (some left))
unfolding not_entry
not_entry-Leaves s exchange hits q pat none ans plain cells wide ok = (none, refl, tt, λ p. refl)
not_entry-Leaves s exchange hits q pat (some b) ans plain cells wide (valid, total) =
    elim (Bool-cases (be_size_ful b)) [
      | inl f ↦
          let start = reset-Holds b (cells_of b valid) in
          let (b', found, valid', total', agree) =
            ans.whole q pat (reset b) start (reset-total b ∙ total) in
          let every =
            λ (p : ℕ) (lt : p < pat.count). full_member b valid f p (omega (arith, total)) in
          rw (f, found)
            (reversed-Leaves pat.count (member b) (hits q pat) b' valid' total' every agree)
      | inr f ↦
          let (xs, h) = counted_of b valid f in
          elim (Bool-cases (size_is b.size 0)) [
            | inl z ↦
                rw (f, z)
                  (some b, refl, (valid, total), λ p. ground (arith, empty_member b xs h z p))
            | inr z ↦
                let start = reset-Holds exchange cells in
                let (t, ys, found, h', total', agree) =
                  ans.among q pat (reset exchange) b xs plain start
                    (omega (arith, reset-total exchange)) h total in
                let (b', cut, valid'', agree') =
                  complement_by_wider h h' (λ p e. ground (arith, agree p)) in
                let total'' = complement-total t h cut ∙ total in
                rw (f, z, found, cut)
                  (unless_empty-Leaves pat.count (λ p. member b p && not (hits q pat p)) b' valid''
                    total''
                    (λ p.
                      let below =
                        subst
                          (λ m.
                            on_lines m (member b') p
                            ≡ on_lines m (λ p. member b p && not (member t p)) p)
                          total (agree' p) in
                      ground (arith, below, agree p, member_of_Holds h p, member_of_Holds h' p)))
          ]
    ]

-- AND with a query that has a star, of a pattern some of whose lines are left: the search among them is
-- commented out, so the pattern has no lines left, whatever matches.
pub norm_entry-axb :
    (s : Searches) (w v : Bytes) (pat : LogPattern) (b : BitMap)
    → be_size_ful b ≡ false
    → norm_entry s (axb w v) pat (some (some b)) ≡ some none
unfolding norm_entry ref_map unless_empty new
norm_entry-axb s w v pat b some_left = elim (Bool-cases (size_is b.size 0)) [
  | inl z ↦ rw (some_left, z) refl
  | inr z ↦ rw (some_left, z) refl
]
