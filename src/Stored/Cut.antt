-- ===== src/Stored/Cut.antt =====
-- SubPattern::extract (compression/SubPattern.cpp): a part is what stands at its place.
use log_grep.Prelude.{
  ℕ, zero, suc, ◌+◌, ◌-◌, ◌≤◌, ◌<◌, ◌≡◌, refl, sym, ◌∙◌, true, ◌||◌, ◌==◌, ltb, leb, Bool-cases,
  inl, inr, Option, none, some, [], length, length-take, length-drop, take, drop, arith,
}
use log_grep.Bytes.{Bytes, at, same_bytes, at-take, at-drop}
use log_grep.Template.{slice}
use log_grep.Stored.{
  Kind, constant, fixed, variable, SubPattern, const_check, variable_length, read_part, extract_as,
  extract,
}

const_check-stands :
    (log : Bytes) (idx : ℕ) (c : Bytes) (w n : ℕ)
    → const_check log idx c w n ≡ true
    → (k : ℕ) → w ≤ k
    → k < w + n
    → (idx + k < length log) × (at c k ≡ at log (idx + k))
unfolding const_check
const_check-stands log idx c w zero h k le lt = absurd (omega arith)
const_check-stands log idx c w (suc n) h k le lt = elim (Bool-cases (w == k)) [
  | inl e ↦ let it : w ≡ k = ground arith in rw (← it) (ground arith, ground arith)
  | inr e ↦
      let ne : suc w ≤ k = ground arith in
      const_check-stands log idx c (suc w) n (ground arith) k ne (omega arith)
]

variable_length-inside :
    (log : Bytes) (idx : ℕ) (next : Bytes) (fuel l : ℕ)
    → idx + l ≤ length log
    → idx + variable_length log idx next fuel l ≤ length log
unfolding variable_length
variable_length-inside log idx next zero l le = le
variable_length-inside log idx next (suc fuel) l le =
    let rest = variable_length-inside log idx next fuel (suc l) in ground (arith, rest)

-- With no constant behind it a variable part takes the rest of the value.
pub variable_length-open :
    (log : Bytes) (idx fuel l : ℕ)
    → idx + l ≤ length log
    → length log < idx + l + fuel
    → idx + variable_length log idx [] fuel l ≡ length log
unfolding variable_length
variable_length-open log idx zero l le enough = absurd (omega arith)
variable_length-open log idx (suc fuel) l le enough =
    let rest = variable_length-open log idx fuel (suc l) in ground (arith, rest)

-- the bytes of a part that was read: a constant's own, or what was made ready
abbrev pub part : Kind → Bytes → Bytes
part (constant c n) ready = c
part (fixed n) ready = ready
part (variable next) ready = ready

-- The length of a constant is that of its bytes.
abbrev pub IsKind : Kind → Type 0
IsKind (constant c n) = n ≡ length c
IsKind (fixed n) = Unit
IsKind (variable next) = Unit

constant_slice :
    (log : Bytes) (idx : ℕ) (c : Bytes) (n : ℕ)
    → n ≡ length c
    → idx ≤ length log
    → const_check log idx c 0 n ≡ true
    → (idx + n ≤ length log) × (c ≡ slice log idx (idx + n))
constant_slice log idx c n len le h =
    let stands = const_check-stands log idx c 0 n h in
    let inside : idx + n ≤ length log = elim (Bool-cases (n == 0)) [
      | inl z ↦ let e : n ≡ 0 = ground arith in omega arith
      | inr z ↦ let last = (stands (n - 1) (omega arith) (ground arith)).0 in ground arith
    ] in
    let whole : idx + n - idx ≡ n = omega arith in
    let len' : length (take n (drop idx log)) ≡ n =
      omega (arith, length-take n (drop idx log), length-drop idx log) in
    (
      inside,
      rw whole (
          same_bytes c (take n (drop idx log)) (omega arith) (λ k lt.
            (stands k (omega arith) (omega arith)).1
            ∙ sym (at-drop idx log k)
            ∙ sym (at-take n (drop idx log) k (omega arith)))),
    )

-- What extract says of the bytes from `idx` on.
abbrev pub IsReadAs : Kind → Bytes → ℕ → SubPattern → SubPattern × Option ℕ → Type 0
IsReadAs k log idx p (p', none) = (p'.kind ≡ p.kind) × (p'.rows ≡ p.rows)
IsReadAs k log idx p (p', some j) =
    (p'.kind ≡ p.kind)
    × (p'.rows ≡ p.rows)
    × (idx ≤ j)
    × (j ≤ length log)
    × (part k p'.ready_add ≡ slice log idx j)

extract_as-IsReadAs :
    (k : Kind) (p : SubPattern) (log : Bytes) (idx : ℕ)
    → IsKind k
    → idx ≤ length log
    → IsReadAs k log idx p (extract_as k p log idx)
unfolding extract_as read_part
extract_as-IsReadAs (constant c n) p log idx len le =
    elim (Bool-cases (const_check log idx c 0 n)) [
      | inl e ↦
          let (inside, same) = constant_slice log idx c n len le e in
          rw e (refl, refl, omega arith, inside, same)
      | inr e ↦ rw e (refl, refl)
    ]
extract_as-IsReadAs (fixed n) p log idx ok le =
    let whole : idx + n - idx ≡ n = omega arith in
    elim (Bool-cases (leb (length log) idx || ltb (length log) (idx + n))) [
      | inl e ↦ rw e (refl, refl)
      | inr e ↦ rw e (refl, refl, omega arith, ground arith, rw whole refl)
    ]
extract_as-IsReadAs (variable next) p log idx ok le =
    let l = variable_length log idx next (suc (length log)) 0 in
    let whole : idx + l - idx ≡ l = omega arith in
    elim (Bool-cases (leb (length log) idx || ltb (length log) (idx + l))) [
      | inl e ↦ rw e (refl, refl)
      | inr e ↦ rw e (refl, refl, omega arith, ground arith, rw whole refl)
    ]

-- A part that is read starts at the place, ends inside the value, and is what stands between the two.
pub extract-IsReadAs :
    (p : SubPattern) (log : Bytes) (idx : ℕ)
    → IsKind p.kind
    → idx ≤ length log
    → IsReadAs p.kind log idx p (extract p log idx)
unfolding extract
extract-IsReadAs p log idx ok le = extract_as-IsReadAs p.kind p log idx ok le
