-- ===== src/Prelude/Counting.antt =====
-- How many items of a list, and how many values of a map, pass a test.
use Prim.Native.Nat.{ℕ, ◌+◌}
use mathlib.Core.Path.{◌≡◌, refl}
use mathlib.Core.Bool.{Bool, true, false}
use mathlib.Core.List.{List, [], ◌∷◌, ◌++◌}
use mathlib.Core.Option.{some}
use native.Mathlib.Omega.{arith}
use gravity.Prelude.Key.{Key}
use gravity.Prelude.Maps.{Map, lookup, has, place, insert, erase}
use gravity.Prelude.Unique.{Unique}

abbrev pub tick : Bool → ℕ
tick true = 1
tick false = 0

abbrev pub tally {ℓ} : {A : Type ℓ} → (A → Bool) → List A → ℕ
tally p [] = 0
tally p (x ∷ xs) = tick (p x) + tally p xs

pub tally-append {ℓ} :
    {A : Type ℓ} (p : A → Bool) (xs ys : List A) → tally p (xs ++ ys) ≡ tally p xs + tally p ys
tally-append p [] ys = omega arith
tally-append p (x ∷ xs) ys = omega (arith, tally-append p xs ys)

module _ {ℓ κ} {K : Type ℓ} {V : Type κ} ⦃e : Key K⦄ (p : V → Bool) where
  abbrev pub tally_values : Map K V → ℕ
  tally_values [] = 0
  tally_values ((k, v) ∷ m) = tick (p v) + tally_values m

  tally_values-place :
      (k : K) (v : V) (m : Map K V) → tally_values (place k v m) ≡ tick (p v) + tally_values m
  unfolding place
  tally_values-place k v [] = refl
  tally_values-place k v ((j, w) ∷ m) = ground (arith, tally_values-place k v m)

  pub tally_values-insert :
      (k : K) (v : V) (m : Map K V)
      → has k m ≡ false
      → tally_values (insert k v m) ≡ tick (p v) + tally_values m
  unfolding insert
  tally_values-insert k v m h = ground (arith, h, tally_values-place k v m)

  tally_values-erase_absent :
      (k : K) (m : Map K V) → has k m ≡ false → tally_values (erase k m) ≡ tally_values m
  unfolding erase lookup
  tally_values-erase_absent k [] h = refl
  tally_values-erase_absent k ((j, w) ∷ m) h = ground (arith, h, tally_values-erase_absent k m)

  pub tally_values-erase :
      (k : K) (v : V) (m : Map K V)
      → Unique m
      → lookup k m ≡ some v
      → tally_values m ≡ tick (p v) + tally_values (erase k m)
  unfolding erase lookup
  tally_values-erase k v [] u h = absurd (ground (arith, h))
  tally_values-erase k v ((j, w) ∷ m) u h =
      ground (arith, h, u, e.beq_iff j k, tally_values-erase_absent k m, tally_values-erase k v m)
