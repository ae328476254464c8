-- ===== src/Stored/Restore.antt =====
-- The values of a variable, read back from the patterns and the outliers that proc of
-- compression/main.cpp leaves.
use log_grep.Prelude.{
  ℕ, zero, suc, ◌+◌, ◌<◌, ◌≡◌, refl, ap₂, ◌∙◌, Bool, true, false, if◌then◌else◌, Option, none, some,
  List, [], ◌∷◌, ◌++◌, get_elem?, find, arith,
}
use log_grep.Bytes.{Bytes}
use log_grep.Stored.{SubPattern, split_value, split_values}
use log_grep.Stored.Rows.{line_of, AreRows, EndsOpen}
use log_grep.Stored.Values.{IsSplit, split_value-IsSplit}

AreBelow : ℕ → List (ℕ × Bytes) → Type 0
AreBelow k [] = Unit
AreBelow k ((j, v) ∷ m) = (j < k) × AreBelow k m

AreBelow-suc : (k : ℕ) (m : List (ℕ × Bytes)) → AreBelow k m → AreBelow (suc k) m
unfolding AreBelow
AreBelow-suc k [] h = tt
AreBelow-suc k ((j, v) ∷ m) h = (omega (arith, h.0), AreBelow-suc k m h.1)

AreBelow-behind :
    (k : ℕ) (v : Bytes) (m : List (ℕ × Bytes))
    → AreBelow k m
    → AreBelow (suc k) (m ++ ((k, v) ∷ []))
unfolding AreBelow
AreBelow-behind k v [] h = (omega arith, tt)
AreBelow-behind k v ((j, u) ∷ m) h = (omega (arith, h.0), AreBelow-behind k v m h.1)

find-AreBelow : (k : ℕ) (m : List (ℕ × Bytes)) → AreBelow k m → find k m ≡ none
unfolding AreBelow
find-AreBelow k [] h = refl
find-AreBelow k ((j, u) ∷ m) h = ground (arith, h.0, find-AreBelow k m h.1)

find-behind :
    (k : ℕ) (v : Bytes) (m : List (ℕ × Bytes)) → AreBelow k m → find k (m ++ ((k, v) ∷ [])) ≡ some v
unfolding AreBelow
find-behind k v [] h = ground arith
find-behind k v ((j, u) ∷ m) h = ground (arith, h.0, find-behind k v m h.1)

find-behind_ne :
    (j k : ℕ) (v : Bytes) (m : List (ℕ × Bytes)) → j < k → find j (m ++ ((k, v) ∷ [])) ≡ find j m
find-behind_ne j k v [] lt = ground arith
find-behind_ne j k v ((i, u) ∷ m) lt = ground (arith, find-behind_ne j k v m lt)

abbrev outlier_or : Option Bytes → Option Bytes → Option Bytes
outlier_or none line = line
outlier_or (some v) line = some v

-- the value `k`, out of the outliers or the rows of the patterns
unfoldable pub restore_value : ℕ → List SubPattern × List (ℕ × Bytes) → Option Bytes
unfolding line_of
restore_value k (pool, outlier) = outlier_or (find k outlier) (line_of k pool)

restore-outlier :
    (k : ℕ) (pool : List SubPattern) (m : List (ℕ × Bytes)) (v : Bytes)
    → find k m ≡ some v
    → restore_value k (pool, m) ≡ some v
unfolding restore_value
restore-outlier k pool m v e = rw (restore_value, e) refl

restore-line :
    (k : ℕ) (pool : List SubPattern) (m : List (ℕ × Bytes))
    → find k m ≡ none
    → restore_value k (pool, m) ≡ line_of k pool
unfolding restore_value
restore-line k pool m e = rw (restore_value, e) refl

restore-same :
    (j : ℕ) (pool pool' : List SubPattern) (m m' : List (ℕ × Bytes))
    → find j m' ≡ find j m
    → line_of j pool' ≡ line_of j pool
    → restore_value j (pool', m') ≡ restore_value j (pool, m)
unfolding restore_value
restore-same j pool pool' m m' e e' = ap₂ outlier_or e e'

-- One round of proc's loop.
IsRound :
    ℕ → Bytes → List SubPattern → List (ℕ × Bytes) → List SubPattern → List (ℕ × Bytes) → Type 0
IsRound k v pool m pool' m' =
    AreRows (suc k) pool'
    × EndsOpen pool'
    × AreBelow (suc k) m'
    × (restore_value k (pool', m') ≡ some v)
    × ((j : ℕ) → j < k → restore_value j (pool', m') ≡ restore_value j (pool, m))

split_value-IsRound :
    (k : ℕ) (v : Bytes) (pool : List SubPattern) (m : List (ℕ × Bytes)) (success : Bool)
    (pool' : List SubPattern)
    → AreBelow k m
    → IsSplit k v pool (pool', success)
    → IsRound k v pool m pool' (if success then m else m ++ ((k, v) ∷ []))
unfolding IsSplit IsRound
split_value-IsRound k v pool m true pool' below (rows, ends, line, before) = (
  rows,
  ends,
  AreBelow-suc k m below,
  restore-line k pool' m (find-AreBelow k m below) ∙ line refl,
  λ j lt. restore-same j pool pool' m m refl (before j lt),
)
split_value-IsRound k v pool m false pool' below (rows, ends, line, before) = (
  rows,
  ends,
  AreBelow-behind k v m below,
  restore-outlier k pool' (m ++ ((k, v) ∷ [])) v (find-behind k v m below),
  λ j lt.
      restore-same j pool pool' m (m ++ ((k, v) ∷ [])) (find-behind_ne j k v m lt) (before j lt),
)

at_next :
    (f : ℕ → Option Bytes) (k : ℕ) (u : Bytes) (vs : List Bytes)
    → f k ≡ some u
    → ((j : ℕ) (v : Bytes) → get_elem? vs j ≡ some v → f (suc k + j) ≡ some v)
    → (j : ℕ) (v : Bytes) → get_elem? (u ∷ vs) j ≡ some v
    → f (k + j) ≡ some v
at_next f k u vs here later zero v e = let on : k + 0 ≡ k = omega arith in rw on (here ∙ e)
at_next f k u vs here later (suc j) v e =
    let on : k + suc j ≡ suc k + j = omega arith in rw on (later j v e)

rounds :
    (vs : List Bytes) (pool : List SubPattern) (k : ℕ) (m : List (ℕ × Bytes))
    → AreRows k pool
    → EndsOpen pool
    → AreBelow k m
    → (((j : ℕ) → j < k → restore_value j (split_values pool k m vs) ≡ restore_value j (pool, m))
        × ((j : ℕ) (v : Bytes)
            → get_elem? vs j ≡ some v
            → restore_value (k + j) (split_values pool k m vs) ≡ some v))
unfolding split_values IsRound
rounds [] pool k m rows ends below = ((λ j lt. refl), λ j v e. absurd (ground arith))
rounds (u ∷ vs) pool k m rows ends below =
    let (pool', success) = split_value pool u in
    let (rows', ends', below', here, before) =
      split_value-IsRound k u pool m success pool' below (split_value-IsSplit pool k u rows ends) in
    let m' = if success then m else m ++ ((k, u) ∷ []) in
    let (early, late) = rounds vs pool' (suc k) m' rows' ends' below' in
    (
      (λ j lt. early j (omega arith) ∙ before j lt),
      at_next (λ i. restore_value i (split_values pool' (suc k) m' vs)) k u vs
          (early k (omega arith) ∙ here) late,
    )

-- The values of a variable, cut by patterns that hold no row yet and whose constants have their own
-- length, and of which the last is a variable part with nothing behind it: each value comes back from
-- the outliers or from its row.
pub split_values-restore_value :
    (pool : List SubPattern) (vs : List Bytes)
    → AreRows 0 pool
    → EndsOpen pool
    → (j : ℕ) (v : Bytes) → get_elem? vs j ≡ some v
    → restore_value j (split_values pool 0 [] vs) ≡ some v
unfolding AreBelow
split_values-restore_value pool vs rows ends j v e =
    let start : 0 + j ≡ j = omega arith in rw (← start) ((rounds vs pool 0 [] rows ends tt).1 j v e)
