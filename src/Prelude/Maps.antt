-- ===== src/Prelude/Maps.antt =====
-- A std::map from numbers, as the list of its entries. Nothing that is modelled depends on their order.
use Prim.Native.Nat.{ℕ}
use mathlib.Core.Path.{◌≡◌}
use mathlib.Core.Logic.{◌≢◌}
use mathlib.Core.Option.{Option, none, some}
use mathlib.Core.List.{List, [], ◌∷◌}
use native.Mathlib.Omega.{arith}
use log_grep.Prelude.Tests.{◌==◌, if◌then◌else◌}

module _ {ℓ} {A : Type ℓ} where
  -- `find`, with the entry's value
  abbrev pub find : ℕ → List (ℕ × A) → Option A
  find k [] = none
  find k ((j, a) ∷ m) = if k == j then some a else find k m

  -- `m[k] = v`
  abbrev pub put : ℕ → A → List (ℕ × A) → List (ℕ × A)
  put k v [] = (k, v) ∷ []
  put k v ((j, a) ∷ m) = if k == j then (k, v) ∷ m else (j, a) ∷ put k v m

  pub find-put_self : (k : ℕ) (v : A) (m : List (ℕ × A)) → find k (put k v m) ≡ some v
  find-put_self k v [] = ground arith
  find-put_self k v ((j, a) ∷ m) = ground (arith, find-put_self k v m)

  pub find-put_ne : (k i : ℕ) (v : A) (m : List (ℕ × A)) → i ≢ k → find i (put k v m) ≡ find i m
  find-put_ne k i v [] h = ground arith
  find-put_ne k i v ((j, a) ∷ m) h = ground (arith, find-put_ne k i v m h)
