-- ===== src/DataProduct.antt =====
-- GravityDataProduct (src/api/cpp/GravityDataProduct.cpp) over the message GravityDataProductPB.
-- A field that is not set reads as its default.
use gravity.Prelude.{
  ℕ, zero, suc, String, Bool, true, false, not, List, [], ◌∷◌, length, nat_eq, if◌then◌else◌,
}
use gravity.Prelude.Key.{◌==◌, string_key}
pub mod Equality

-- GravityDataProductPB
pub record Product : Type 0 where
  pub timestamp : ℕ
  pub data_product_id : String
  pub software_version : String
  pub contents : List ℕ
  pub component_id : String
  pub domain : String
  pub future_response : Bool
  pub future_socket_url : String
  pub received_timestamp : ℕ
  pub is_cached : Bool
  pub is_relayed : Bool
  pub protocol : String
  pub type_name : String
  pub registration_time : ℕ

-- GravityDataProduct(dataProductID)
abbrev pub new_product : String → Product
new_product id = record {
  timestamp = 0;
  data_product_id = id;
  software_version = "";
  contents = [];
  component_id = "";
  domain = "";
  future_response = false;
  future_socket_url = "";
  received_timestamp = 0;
  is_cached = false;
  is_relayed = false;
  protocol = "";
  type_name = "";
  registration_time = 0;
}

-- memcmp of the first bytes is 0
unfoldable pub same_bytes : ℕ → List ℕ → List ℕ → Bool
same_bytes zero xs ys = true
same_bytes (suc n) (x ∷ xs) (y ∷ ys) =
    let rest = same_bytes n xs ys in if nat_eq x y then rest else false
same_bytes (suc n) xs ys = false

-- operator==
unfoldable pub same_product : Product → Product → Bool
unfolding same_bytes
same_product p q =
    if not (nat_eq (length p.contents) (length q.contents))
    then false
    else if not (p.data_product_id == q.data_product_id)
    then false
    else same_bytes (length p.contents) p.contents q.contents
