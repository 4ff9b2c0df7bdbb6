-- ===== src/Node/Owners.antt =====
-- The urls that a node keeps: each has an instance and one owner.
use gravity.Prelude.{ℕ, ◌≡◌, String, true, false, List, some, arith}
use gravity.Prelude.Key.{string_key}
use gravity.Prelude.Maps.{lookup, has, get_or, lookup-insert, lookup-erase}
use gravity.Node.State.{Node}
use gravity.Node.Publishers.{add_product, remove_product}
use gravity.Node.Services.{add_service, remove_service}

-- Each url that the node keeps has an instance and one owner, and the lock is free.
pub record UrlsOwned (n : Node) : Type 0 where
  pub free : n.service_manager_locked ≡ false
  pub product_instance :
      (id url : String) → lookup id n.publish_map ≡ some url → has url n.url_instance_map ≡ true
  pub service_instance :
      (id url : String) → lookup id n.service_map ≡ some url → has url n.url_instance_map ≡ true
  pub products_apart :
      (i j url : String)
      → lookup i n.publish_map ≡ some url
      → lookup j n.publish_map ≡ some url
      → i ≡ j
  pub services_apart :
      (i j url : String)
      → lookup i n.service_map ≡ some url
      → lookup j n.service_map ≡ some url
      → i ≡ j
  pub kinds_apart :
      (i j url : String) → lookup i n.publish_map ≡ some url → lookup j n.service_map ≡ some url → ⊥

pub add_product-UrlsOwned :
    (id url : String) (time : ℕ) (n : Node)
    → has url n.url_instance_map ≡ false
    → UrlsOwned n
    → UrlsOwned (add_product id url time n)
add_product-UrlsOwned id url time n fresh h = record {
  free = h.free;
  product_instance = λ j u e. ground (
    arith,
    e,
    fresh,
    lookup-insert id j url n.publish_map,
    lookup-insert url u time n.url_instance_map,
    h.product_instance j u,
    string_key.beq_iff url u,
  );
  service_instance = λ j u e.
      ground (arith, e, lookup-insert url u time n.url_instance_map, h.service_instance j u);
  products_apart = λ i j u e f. ground (
    arith,
    e,
    f,
    fresh,
    lookup-insert id i url n.publish_map,
    lookup-insert id j url n.publish_map,
    h.product_instance i u,
    h.product_instance j u,
    h.products_apart i j u,
    string_key.beq_iff id i,
    string_key.beq_iff id j,
  );
  services_apart = h.services_apart;
  kinds_apart = λ i j u e f. ground (
    arith,
    e,
    f,
    fresh,
    lookup-insert id i url n.publish_map,
    h.kinds_apart i j u,
    h.service_instance j u,
  );
}

pub add_service-UrlsOwned :
    (id url : String) (time : ℕ) (n : Node)
    → has url n.url_instance_map ≡ false
    → UrlsOwned n
    → UrlsOwned (add_service id url time n)
add_service-UrlsOwned id url time n fresh h = record {
  free = h.free;
  product_instance = λ j u e.
      ground (arith, e, lookup-insert url u time n.url_instance_map, h.product_instance j u);
  service_instance = λ j u e. ground (
    arith,
    e,
    fresh,
    lookup-insert id j url n.service_map,
    lookup-insert url u time n.url_instance_map,
    h.service_instance j u,
    string_key.beq_iff url u,
  );
  products_apart = h.products_apart;
  services_apart = λ i j u e f. ground (
    arith,
    e,
    f,
    fresh,
    lookup-insert id i url n.service_map,
    lookup-insert id j url n.service_map,
    h.service_instance i u,
    h.service_instance j u,
    h.services_apart i j u,
    string_key.beq_iff id i,
    string_key.beq_iff id j,
  );
  kinds_apart = λ i j u e f. ground (
    arith,
    e,
    f,
    fresh,
    lookup-insert id j url n.service_map,
    h.kinds_apart i j u,
    h.product_instance i u,
  );
}

-- the url that a map has for a key that it has
pub kept_url :
    (id : String) (m : List (String × String))
    → has id m ≡ true
    → lookup id m ≡ some (get_or "" id m)
kept_url id m h = ground (arith, h)

pub remove_product-UrlsOwned :
    (id : String) (n : Node)
    → has id n.publish_map ≡ true
    → UrlsOwned n
    → UrlsOwned (remove_product id n)
remove_product-UrlsOwned id n known h =
    let v = get_or "" id n.publish_map in
    let mine = kept_url id n.publish_map known in
    record {
      free = h.free;
      product_instance = λ j u e. ground (
        arith,
        e,
        mine,
        lookup-erase id j n.publish_map,
        lookup-erase v u n.url_instance_map,
        h.product_instance j u,
        h.products_apart id j u,
        string_key.beq_iff v u,
        string_key.beq_iff id j,
      );
      service_instance = λ j u e. ground (
        arith,
        e,
        mine,
        lookup-erase v u n.url_instance_map,
        h.service_instance j u,
        h.kinds_apart id j u,
        string_key.beq_iff v u,
      );
      products_apart = λ i j u e f. ground (
        arith,
        e,
        f,
        lookup-erase id i n.publish_map,
        lookup-erase id j n.publish_map,
        h.products_apart i j u,
      );
      services_apart = h.services_apart;
      kinds_apart =
          λ i j u e f. ground (arith, e, f, lookup-erase id i n.publish_map, h.kinds_apart i j u);
    }

pub remove_service-UrlsOwned :
    (id : String) (n : Node)
    → has id n.service_map ≡ true
    → UrlsOwned n
    → UrlsOwned (remove_service id n)
remove_service-UrlsOwned id n known h =
    let v = get_or "" id n.service_map in
    let mine = kept_url id n.service_map known in
    record {
      free = h.free;
      product_instance = λ j u e. ground (
        arith,
        e,
        mine,
        lookup-erase v u n.url_instance_map,
        h.product_instance j u,
        h.kinds_apart j id u,
        string_key.beq_iff v u,
      );
      service_instance = λ j u e. ground (
        arith,
        e,
        mine,
        lookup-erase id j n.service_map,
        lookup-erase v u n.url_instance_map,
        h.service_instance j u,
        h.services_apart id j u,
        string_key.beq_iff v u,
        string_key.beq_iff id j,
      );
      products_apart = h.products_apart;
      services_apart = λ i j u e f. ground (
        arith,
        e,
        f,
        lookup-erase id i n.service_map,
        lookup-erase id j n.service_map,
        h.services_apart i j u,
      );
      kinds_apart =
          λ i j u e f. ground (arith, e, f, lookup-erase id j n.service_map, h.kinds_apart i j u);
    }
