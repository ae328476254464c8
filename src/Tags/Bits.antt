-- ===== src/Tags/Bits.antt =====
-- Laws of the bitwise operations on stamps, which are below 64, by running through all of them.
use Prim.Native.Nat.{bit_or, bit_and}
use log_grep.Prelude.{
  ℕ, zero, suc, ◌+◌, ◌<◌, ◌≡◌, refl, Bool, true, false, ◌&&◌, ◌||◌, ◌==◌, ltb, if◌then◌else◌,
  ltb→lt, not, arith,
}

-- The test holds at the `n` stamps from `a` on.
stamps_from : (ℕ → Bool) → ℕ → ℕ → Bool
stamps_from test a zero = true
stamps_from test a (suc n) = if test a then stamps_from test (suc a) n else false

stamp_passes :
    (test : ℕ → Bool) (a n k : ℕ) → stamps_from test a n ≡ true → k < n → test (a + k) ≡ true
unfolding stamps_from
stamp_passes test a zero k passed lt = absurd (omega arith)
stamp_passes test a (suc n) zero passed lt = let e : a + 0 ≡ a = omega arith in rw e (ground arith)
stamp_passes test a (suc n) (suc k) passed lt =
    let e : a + suc k ≡ suc a + k = omega arith in
    rw e (stamp_passes test (suc a) n k (ground arith) (omega arith))

-- a test of all pairs of stamps
all_pairs : (ℕ → ℕ → Bool) → Bool
all_pairs test = stamps_from (λ a. stamps_from (test a) 0 64) 0 64

pairs_sound : (p : ℕ → ℕ → Bool) → all_pairs p ≡ true → (a b : ℕ) → a < 64 → b < 64 → p a b ≡ true
unfolding all_pairs
pairs_sound p passed a b ha hb =
    let ea : 0 + a ≡ a = omega arith in
    let eb : 0 + b ≡ b = omega arith in
    let at_a = stamp_passes (λ a. stamps_from (p a) 0 64) 0 64 a passed ha in
    let at_b = stamp_passes (p a) 0 64 b (rw (← ea) at_a) hb in rw (← eb) at_b

-- every class of `a` is one of `b`: the test of the stamp filter
abbrev pub within : ℕ → ℕ → Bool
within a b = bit_and a b == a

or_bound_table : all_pairs (λ a b. ltb (bit_or a b) 64) ≡ true
unfolding all_pairs stamps_from
or_bound_table = refl

pub bit_or-lt : (a b : ℕ) → a < 64 → b < 64 → bit_or a b < 64
bit_or-lt a b ha hb = ltb→lt _ _ (pairs_sound (λ a b. ltb (bit_or a b) 64) or_bound_table a b ha hb)

zero_table : all_pairs (λ a b. within 0 b) ≡ true
unfolding all_pairs stamps_from
zero_table = refl

pub within-zero : (b : ℕ) → b < 64 → within 0 b ≡ true
within-zero b hb = pairs_sound (λ a b. within 0 b) zero_table 0 b (omega arith) hb

-- the stamp `t` has the class `c`
abbrev pub contains : ℕ → ℕ → Bool
contains t c = bit_and t c == c

-- `c` is a class: a stamp joined from two has it if one of them does.
abbrev pub IsClass : ℕ → Type 0
IsClass c = (a b : ℕ) → a < 64 → b < 64 → contains (bit_or a b) c ≡ (contains a c || contains b c)

beq : Bool → Bool → Bool
beq true b = b
beq false b = not b

beq_sound : (a b : Bool) → beq a b ≡ true → a ≡ b
unfolding beq
beq_sound a b h = ground arith

class_test : ℕ → ℕ → ℕ → Bool
unfolding beq
class_test c a b = beq (contains (bit_or a b) c) (contains a c || contains b c)

IsClass-sound : (c : ℕ) → all_pairs (class_test c) ≡ true → IsClass c
unfolding class_test
IsClass-sound c h a b ha hb = beq_sound _ _ (pairs_sound (class_test c) h a b ha hb)

pub digit-IsClass : IsClass 1
unfolding all_pairs stamps_from class_test
digit-IsClass = IsClass-sound 1 refl

pub upper_hex-IsClass : IsClass 2
unfolding all_pairs stamps_from class_test
upper_hex-IsClass = IsClass-sound 2 refl

pub lower_hex-IsClass : IsClass 4
unfolding all_pairs stamps_from class_test
lower_hex-IsClass = IsClass-sound 4 refl

pub upper-IsClass : IsClass 8
unfolding all_pairs stamps_from class_test
upper-IsClass = IsClass-sound 8 refl

pub lower-IsClass : IsClass 16
unfolding all_pairs stamps_from class_test
lower-IsClass = IsClass-sound 16 refl

pub symbol-IsClass : IsClass 32
unfolding all_pairs stamps_from class_test
symbol-IsClass = IsClass-sound 32 refl

implies : Bool → Bool → Bool
implies true b = b
implies false b = true

-- `a` is within `b`, class by class
classwise : ℕ → ℕ → Bool
unfolding implies
classwise a b =
    implies (contains a 1) (contains b 1)
    && implies (contains a 2) (contains b 2)
    && implies (contains a 4) (contains b 4)
    && implies (contains a 8) (contains b 8)
    && implies (contains a 16) (contains b 16)
    && implies (contains a 32) (contains b 32)

classwise_table : all_pairs (λ a b. implies (classwise a b) (within a b)) ≡ true
unfolding all_pairs stamps_from classwise
classwise_table = refl

implies_sound : (a b : Bool) → implies a b ≡ true → a ≡ true → b ≡ true
unfolding implies
implies_sound true b h e = h
implies_sound false b h e = ground arith

implies_of : (a b : Bool) → (a ≡ true → b ≡ true) → implies a b ≡ true
unfolding implies
implies_of true b h = h refl
implies_of false b h = refl

-- A stamp is within another if it is so class by class.
pub within_of_classes :
    (a b : ℕ)
    → a < 64
    → b < 64
    → ((c : ℕ) → IsClass c → contains a c ≡ true → contains b c ≡ true)
    → within a b ≡ true
unfolding classwise
within_of_classes a b ha hb h =
    implies_sound (classwise a b) (within a b)
      (pairs_sound (λ a b. implies (classwise a b) (within a b)) classwise_table a b ha hb)
      (ground (
        arith,
        implies_of _ _ (h 1 digit-IsClass),
        implies_of _ _ (h 2 upper_hex-IsClass),
        implies_of _ _ (h 4 lower_hex-IsClass),
        implies_of _ _ (h 8 upper-IsClass),
        implies_of _ _ (h 16 lower-IsClass),
        implies_of _ _ (h 32 symbol-IsClass),
      ))

-- every class of `a` is one of `b`
abbrev pub Covers : ℕ → ℕ → Type 0
Covers a b = (c : ℕ) → IsClass c → contains a c ≡ true → contains b c ≡ true

pub Covers-or_left : (a b t : ℕ) → b < 64 → t < 64 → Covers a b → Covers a (bit_or b t)
Covers-or_left a b t hb ht h c isc e = ground (arith, h c isc e, isc b t hb ht)

pub Covers-or_right : (b t : ℕ) → b < 64 → t < 64 → Covers t (bit_or b t)
Covers-or_right b t hb ht c isc e = ground (arith, isc b t hb ht)

or_zero_table : all_pairs (λ a b. bit_or 0 b == b) ≡ true
unfolding all_pairs stamps_from
or_zero_table = refl

pub Covers-zero : (b : ℕ) → b < 64 → Covers 0 b
Covers-zero b hb c isc e =
    let same : (bit_or 0 b == b) ≡ true =
      pairs_sound (λ a b. bit_or 0 b == b) or_zero_table 0 b (omega arith) hb in
    let or : bit_or 0 b ≡ b = ground arith in
    let both : contains b c ≡ (contains 0 c || contains b c) =
      rw or at (isc 0 b (omega arith) hb) in
    ground arith
