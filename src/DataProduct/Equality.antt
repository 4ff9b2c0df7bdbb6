-- ===== src/DataProduct/Equality.antt =====
-- What operator== compares.
use gravity.Prelude.{ℕ, ◌≡◌, refl, ◌↔◌, true, List, [], ◌∷◌, length, nat_eq_iff, arith}
use gravity.Prelude.Key.{string_key}
use gravity.DataProduct.{Product, same_bytes, same_product}

same_bytes_lem :
    (xs ys : List ℕ) → length xs ≡ length ys → (same_bytes (length xs) xs ys ≡ true) ↔ (xs ≡ ys)
unfolding same_bytes
same_bytes_lem [] [] e = (λ h. refl, λ h. refl)
same_bytes_lem [] (y ∷ ys) e = absurd (omega (arith, e))
same_bytes_lem (x ∷ xs) [] e = absurd (omega (arith, e))
same_bytes_lem (x ∷ xs) (y ∷ ys) e =
    ground (arith, same_bytes_lem xs ys (omega (arith, e)), nat_eq_iff x y)

-- Two products are equal to operator== exactly when they have the same id and the same data;
-- nothing else of them counts.
pub same_product_lem :
    (p q : Product)
    → (same_product p q ≡ true)
      ↔ ((p.data_product_id ≡ q.data_product_id) × (p.contents ≡ q.contents))
unfolding same_product
same_product_lem p q = ground (
  arith,
  same_bytes_lem p.contents q.contents,
  nat_eq_iff (length p.contents) (length q.contents),
  string_key.beq_iff p.data_product_id q.data_product_id,
)
