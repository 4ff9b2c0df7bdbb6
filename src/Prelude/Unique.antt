-- ===== src/Prelude/Unique.antt =====
-- Maps whose keys differ, which is what the operations keep.
use mathlib.Core.Path.{◌≡◌, refl}
use mathlib.Core.Bool.{false}
use mathlib.Core.List.{[], ◌∷◌}
use native.Mathlib.Omega.{arith}
use gravity.Prelude.Key.{Key, ◌==◌}
use gravity.Prelude.Maps.{Map, lookup, has, place, replace, insert, erase, lookup-erase}

module _ {ℓ κ} {K : Type ℓ} {V : Type κ} ⦃e : Key K⦄ where
  abbrev pub Unique : Map K V → Type 0
  Unique [] = Unit
  Unique ((k, v) ∷ m) = (has k m ≡ false) × Unique m

  has-place-false :
      (k j : K) (v : V) (m : Map K V)
      → has j m ≡ false
      → (k == j) ≡ false
      → has j (place k v m) ≡ false
  unfolding lookup place
  has-place-false k j v [] h n = ground arith
  has-place-false k j v ((i, w) ∷ m) h n = ground (arith, has-place-false k j v m)

  place-Unique : (k : K) (v : V) (m : Map K V) → has k m ≡ false → Unique m → Unique (place k v m)
  unfolding lookup place
  place-Unique k v [] h u = (refl, tt)
  place-Unique k v ((j, w) ∷ m) h u =
      ground (arith, place-Unique k v m, has-place-false k j v m, e.beq_iff k j, e.beq_iff j k)

  has-replace-false :
      (k j : K) (v : V) (m : Map K V) → has j m ≡ false → has j (replace k v m) ≡ false
  unfolding lookup replace
  has-replace-false k j v [] h = refl
  has-replace-false k j v ((i, w) ∷ m) h = ground (arith, has-replace-false k j v m)

  replace-Unique : (k : K) (v : V) (m : Map K V) → Unique m → Unique (replace k v m)
  unfolding replace
  replace-Unique k v [] u = tt
  replace-Unique k v ((j, w) ∷ m) u =
      ground (arith, replace-Unique k v m, has-replace-false k j v m)

  pub insert-Unique : (k : K) (v : V) (m : Map K V) → Unique m → Unique (insert k v m)
  unfolding insert
  insert-Unique k v m u = ground (arith, place-Unique k v m, replace-Unique k v m)

  pub erase-Unique : (k : K) (m : Map K V) → Unique m → Unique (erase k m)
  unfolding erase
  erase-Unique k [] u = tt
  erase-Unique k ((j, w) ∷ m) u = ground (arith, erase-Unique k m, lookup-erase k j m)
