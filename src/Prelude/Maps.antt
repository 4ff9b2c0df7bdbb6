-- ===== src/Prelude/Maps.antt =====
-- std::map and std::set: entries in the order of their keys, as the source's loops meet them.
use mathlib.Core.Path.{◌≡◌, refl, ap, ◌∙◌}
use mathlib.Core.Bool.{Bool, true, false}
use mathlib.Core.List.{List, [], ◌∷◌}
use mathlib.Core.Option.{Option, none, some}
use native.Mathlib.Omega.{arith}
use gravity.Prelude.Key.{Key, ◌==◌}
use gravity.Prelude.Lists.{or_else, is_some}
use gravity.Prelude.Tests.{if◌then◌else◌}

abbrev pub Map {ℓ κ} : Type ℓ → Type κ → Type (ℓ ⊔ κ)
Map K V = List (K × V)

module _ {ℓ κ} {K : Type ℓ} {V : Type κ} ⦃e : Key K⦄ where
  -- m.find(k), m.at(k)
  unfoldable pub lookup : K → Map K V → Option V
  lookup k [] = none
  lookup k ((j, v) ∷ m) = if j == k then some v else lookup k m

  -- m.count(k) > 0, m.find(k) != m.end()
  abbrev pub has : K → Map K V → Bool
  has k m = is_some (lookup k m)

  -- the value that m[k] reads
  abbrev pub get_or : V → K → Map K V → V
  get_or d k m = or_else d (lookup k m)

  -- a new entry, before the first greater key
  unfoldable pub place : K → V → Map K V → Map K V
  place k v [] = (k, v) ∷ []
  place k v ((j, w) ∷ m) = if e.before k j then (k, v) ∷ (j, w) ∷ m else (j, w) ∷ place k v m

  unfoldable pub replace : K → V → Map K V → Map K V
  replace k v [] = []
  replace k v ((j, w) ∷ m) = if j == k then (j, v) ∷ m else (j, w) ∷ replace k v m

  -- m[k] = v
  unfoldable pub insert : K → V → Map K V → Map K V
  insert k v m = if has k m then replace k v m else place k v m

  -- what reading m[k] leaves: a missing key gets the default value
  unfoldable pub touch : V → K → Map K V → Map K V
  touch d k m = if has k m then m else place k d m

  -- m.erase(k)
  unfoldable pub erase : K → Map K V → Map K V
  erase k [] = []
  erase k ((j, v) ∷ m) = let rest = erase k m in if j == k then rest else (j, v) ∷ rest

  lookup-place :
      (k j : K) (v : V) (m : Map K V)
      → lookup k m ≡ none
      → lookup j (place k v m) ≡ (if k == j then some v else lookup j m)
  unfolding lookup place
  lookup-place k j v [] h = refl
  lookup-place k j v ((i, w) ∷ m) h =
      ground (arith, e.beq_iff i k, e.beq_iff i j, e.beq_iff k j, lookup-place k j v m)

  lookup-replace :
      (k j : K) (v : V) (m : Map K V)
      → has k m ≡ true
      → lookup j (replace k v m) ≡ (if k == j then some v else lookup j m)
  unfolding lookup replace
  lookup-replace k j v [] h = cc
  lookup-replace k j v ((i, u) ∷ m) h =
      ground (arith, e.beq_iff i k, e.beq_iff i j, e.beq_iff k j, lookup-replace k j v m)

  pub lookup-insert :
      (k j : K) (v : V) (m : Map K V)
      → lookup j (insert k v m) ≡ (if k == j then some v else lookup j m)
  unfolding insert
  lookup-insert k j v m = ground (arith, lookup-place k j v m, lookup-replace k j v m)

  pub lookup-insert_key :
      (k j : K) (v : V) (m : Map K V) → (k == j) ≡ true → lookup j (insert k v m) ≡ some v
  lookup-insert_key k j v m h = lookup-insert k j v m ∙ ap (λ c. if c then some v else lookup j m) h

  pub lookup-insert_apart :
      (k j : K) (v : V) (m : Map K V) → (k == j) ≡ false → lookup j (insert k v m) ≡ lookup j m
  lookup-insert_apart k j v m h =
      lookup-insert k j v m ∙ ap (λ c. if c then some v else lookup j m) h

  pub lookup-touch :
      (d : V) (k j : K) (m : Map K V)
      → lookup j (touch d k m) ≡ (if k == j then some (get_or d k m) else lookup j m)
  unfolding touch
  lookup-touch d k j m = ground (arith, lookup-place k j d m, e.beq_iff k j)

  pub lookup-erase :
      (k j : K) (m : Map K V) → lookup j (erase k m) ≡ (if k == j then none else lookup j m)
  unfolding lookup erase
  lookup-erase k j [] = ground arith
  lookup-erase k j ((i, v) ∷ m) =
      ground (arith, lookup-erase k j m, e.beq_iff i k, e.beq_iff i j, e.beq_iff k j)

  pub get_or-insert :
      (d : V) (k j : K) (v : V) (m : Map K V)
      → get_or d j (insert k v m) ≡ (if k == j then v else get_or d j m)
  get_or-insert d k j v m = ground (arith, lookup-insert k j v m)

  pub get_or-touch : (d : V) (k j : K) (m : Map K V) → get_or d j (touch d k m) ≡ get_or d j m
  get_or-touch d k j m = ground (arith, lookup-touch d k j m, e.beq_iff k j)

  pub get_or-erase :
      (d : V) (k j : K) (m : Map K V)
      → get_or d j (erase k m) ≡ (if k == j then d else get_or d j m)
  get_or-erase d k j m = ground (arith, lookup-erase k j m)

-- std::set as the keys of a map
abbrev pub Set {ℓ} : Type ℓ → Type ℓ
Set K = Map K (Unit {0})
