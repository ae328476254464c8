-- ===== src/BitMap/Holds.antt =====
-- What a bitmap stands for: the list of its members in the order in which they were found.
use log_grep.Prelude.{
  ℕ, ◌≤◌, ◌<◌, ◌≡◌, refl, Bool, true, false, if◌then◌else◌, List, [], ◌∷◌, length, take,
  length-replicate, arith,
}
use log_grep.BitMap.{BitMap, entries, new, reset, is_full}
use log_grep.BitMap.Sets.{has, Distinct, Below, length_of_Distinct}

-- A counted bitmap whose bitset and whose entries both say `xs`.
pub record Holds (b : BitMap) (xs : List ℕ) : Type 0 where
  pub size : b.size ≡ entries (length xs)
  pub cells : length b.index ≡ b.total_size
  pub prefix : take (length xs) b.index ≡ xs
  pub bits : (p : ℕ) → b.bitmap p ≡ has xs p
  pub distinct : Distinct xs
  pub bounded : Below b.total_size xs

-- The set of lines that the query engine reads off a bitmap: at the full mark it is every line.
abbrev pub member : BitMap → ℕ → Bool
member b p = if is_full b.size then true else b.bitmap p

-- Membership in a bitmap that holds `xs` is membership in `xs`.
pub member_of_Holds : {b : BitMap} {xs : List ℕ} → Holds b xs → (p : ℕ) → member b p ≡ has xs p
member_of_Holds v p = ground (arith, v.size, v.bits p)

pub new-Holds : (n : ℕ) → Holds (new n) []
unfolding new
new-Holds n = record {
  size = refl;
  cells = length-replicate n 0;
  prefix = refl;
  bits = λ p. refl;
  distinct = tt;
  bounded = tt;
}

pub reset-Holds : (b : BitMap) → length b.index ≡ b.total_size → Holds (reset b) []
unfolding reset
reset-Holds b h = record {
  size = refl;
  cells = h;
  prefix = refl;
  bits = λ p. refl;
  distinct = tt;
  bounded = tt;
}

-- A line that is missing leaves a free cell in `Index`.
pub room :
    {b : BitMap} {xs : List ℕ} (p : ℕ)
    → Holds b xs
    → p < b.total_size
    → has xs p ≡ false
    → length xs < length b.index
room {b} {xs} p v h e =
    omega (arith, v.cells, length_of_Distinct b.total_size (p ∷ xs) (e, v.distinct) (h, v.bounded))

pub length-le-total : {b : BitMap} {xs : List ℕ} → Holds b xs → length xs ≤ b.total_size
length-le-total {b} {xs} v = length_of_Distinct b.total_size xs v.distinct v.bounded
