-- ===== src/Template/Columns/Names.antt =====
-- The names of the columns (POS_TEMPLATE, POS_VAR of compression/constant.h) as numbers.
use Prim.Native.Nat.{bit_or, bit_or-bitwise, digits}
use log_grep.Prelude.{ℕ, zero, suc, ◌+◌, ◌*◌, ◌/◌, ◌%◌, ◌^◌, ◌≤◌, ◌<◌, ◌≡◌, refl, ap, max, arith}
use log_grep.Template.Columns.{var_name}

abbrev or_digits : ℕ → ℕ → ℕ → ℕ
or_digits n a b = digits (λ b. b) max n a b

or_digits_fuel : (n m a b : ℕ) → a ≤ n → a ≤ m → or_digits n a b ≡ or_digits m a b
or_digits_fuel zero zero a b p q = refl
or_digits_fuel zero (suc m) zero b p q = refl
or_digits_fuel zero (suc m) (suc a) b p q = absurd (omega arith)
or_digits_fuel (suc n) zero zero b p q = refl
or_digits_fuel (suc n) zero (suc a) b p q = absurd (omega arith)
or_digits_fuel (suc n) (suc m) zero b p q = refl
or_digits_fuel (suc n) (suc m) (suc a) b p q =
    omega (arith, or_digits_fuel n m (suc a / 2) (b / 2) (omega arith) (omega arith))

zero-bit_or : (b : ℕ) → bit_or 0 b ≡ b
zero-bit_or b = bit_or-bitwise 0 b

bit_or_step : (a b : ℕ) → bit_or a b ≡ bit_or (a / 2) (b / 2) * 2 + max (a % 2) (b % 2)
bit_or_step zero b = omega (arith, zero-bit_or b, zero-bit_or (b / 2))
bit_or_step (suc a) b = omega (
  arith,
  bit_or-bitwise (suc a) b,
  bit_or-bitwise (suc a / 2) (b / 2),
  or_digits_fuel a (suc a / 2) (suc a / 2) (b / 2) (omega arith) (omega arith),
)

bit_or-zero : (n a : ℕ) → a ≤ n → bit_or a 0 ≡ a
bit_or-zero n zero h = zero-bit_or 0
bit_or-zero zero (suc a) h = absurd (omega arith)
bit_or-zero (suc n) (suc a) h =
    omega (arith, bit_or_step (suc a) 0, bit_or-zero n (suc a / 2) (omega arith))

-- `e` shifted left by `k`, by doubling
abbrev shifted : ℕ → ℕ → ℕ
shifted zero e = e
shifted (suc k) e = 2 * shifted k e

bit_or-shifted : (k e b : ℕ) → b < shifted k 1 → bit_or (shifted k e) b ≡ shifted k e + b
bit_or-shifted zero e zero lt = omega (arith, bit_or-zero e e (omega arith))
bit_or-shifted zero e (suc b) lt = absurd (omega arith)
bit_or-shifted (suc k) e b lt =
    let half : 2 * shifted k e / 2 ≡ shifted k e = omega arith in
    omega (
      arith,
      bit_or_step (2 * shifted k e) b,
      bit_or-shifted k e (b / 2) (omega arith),
      half,
      ap (λ h. bit_or h (b / 2)) half,
    )

-- A column's name for one of the first 256 variables of a template: 16 bits of the template's number.
pub var_name_sum : (eid i : ℕ) → i < 256 → var_name eid i ≡ eid % 65536 * 65536 + i * 256
unfolding var_name
var_name_sum eid i lt =
    let high : eid * 2 ^ 16 % 2 ^ 32 ≡ shifted 16 (eid % 65536) = omega arith in
    let low : i * 2 ^ 8 % 2 ^ 32 ≡ i * 256 = omega arith in
    rw (high, low) (omega (arith, bit_or-shifted 16 (eid % 65536) (i * 256) (omega arith)))

pub var_name-variable :
    (eid i eid' i' : ℕ)
    → i < 256
    → i' < 256
    → var_name eid i ≡ var_name eid' i'
    → (eid % 65536 ≡ eid' % 65536) × (i ≡ i')
var_name-variable eid i eid' i' lt lt' same = (
  omega (arith, var_name_sum eid i lt, var_name_sum eid' i' lt', same),
  omega (arith, var_name_sum eid i lt, var_name_sum eid' i' lt', same),
)

-- The columns of the first 256 variables of the templates with numbers below 65536 have different
-- names; the name is an `int` of 32 bits.
pub var_name-distinct :
    (eid i eid' i' : ℕ)
    → eid < 65536
    → eid' < 65536
    → i < 256
    → i' < 256
    → var_name eid i ≡ var_name eid' i'
    → (eid ≡ eid') × (i ≡ i')
var_name-distinct eid i eid' i' few few' lt lt' same =
    let both = var_name-variable eid i eid' i' lt lt' same in (omega arith, both.1)
