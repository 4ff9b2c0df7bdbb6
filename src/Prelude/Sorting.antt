-- ===== src/Prelude/Sorting.antt =====
-- std::list::sort and std::sort by a number: the stable order. Its contract is that the items are
-- the same and that the numbers ascend.
use Prim.Native.Nat.{ℕ, ◌≤◌}
use mathlib.Core.Bool.{Bool, true, false}
use mathlib.Core.List.{List, [], ◌∷◌, Perm}
use mathlib.Core.List.Perm
use native.Mathlib.Omega.{arith}
use gravity.Prelude.Tests.{leb, if◌then◌else◌}

module _ {ℓ} {A : Type ℓ} (key : A → ℕ) where
  unfoldable pub insert_by : A → List A → List A
  insert_by x [] = x ∷ []
  insert_by x (y ∷ ys) =
      let rest = insert_by x ys in if leb (key x) (key y) then x ∷ y ∷ ys else y ∷ rest

  unfoldable pub sort_by : List A → List A
  unfolding insert_by
  sort_by [] = []
  sort_by (x ∷ xs) = insert_by x (sort_by xs)

  -- Neighbours ascend.
  abbrev pub IsSortedBy : List A → Type 0
  IsSortedBy [] = Unit
  IsSortedBy (x ∷ []) = Unit
  IsSortedBy (x ∷ y ∷ ys) = (key x ≤ key y) × IsSortedBy (y ∷ ys)

  if-Perm :
      (c : Bool) (x y : A) (ys rest : List A)
      → Perm (y ∷ rest) (x ∷ y ∷ ys)
      → Perm (if c then x ∷ y ∷ ys else y ∷ rest) (x ∷ y ∷ ys)
  if-Perm true x y ys rest p = Perm.rfl
  if-Perm false x y ys rest p = p

  insert_by-Perm : (x : A) (ys : List A) → Perm (insert_by x ys) (x ∷ ys)
  unfolding insert_by
  insert_by-Perm x [] = Perm.rfl
  insert_by-Perm x (y ∷ ys) =
      if-Perm (leb (key x) (key y)) x y ys (insert_by x ys)
        (Perm.trans (Perm.cons y (insert_by-Perm x ys)) (Perm.swap x y ys))

  pub sort_by-Perm : (xs : List A) → Perm (sort_by xs) xs
  unfolding sort_by
  sort_by-Perm [] = Perm.rfl
  sort_by-Perm (x ∷ xs) = Perm.trans (insert_by-Perm x (sort_by xs)) (Perm.cons x (sort_by-Perm xs))

  pub insert_by-IsSortedBy : (x : A) (ys : List A) → IsSortedBy ys → IsSortedBy (insert_by x ys)
  unfolding insert_by
  insert_by-IsSortedBy x [] s = tt
  insert_by-IsSortedBy x (y ∷ []) s = ground arith
  insert_by-IsSortedBy x (y ∷ z ∷ ys) s = ground (arith, insert_by-IsSortedBy x (z ∷ ys))

  pub sort_by-IsSortedBy : (xs : List A) → IsSortedBy (sort_by xs)
  unfolding sort_by
  sort_by-IsSortedBy [] = tt
  sort_by-IsSortedBy (x ∷ xs) = insert_by-IsSortedBy x (sort_by xs) (sort_by-IsSortedBy xs)
