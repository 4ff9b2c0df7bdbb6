-- ===== src/Node/Urlkeeping.antt =====
-- A history of registrations and removals whose urls are new, and the lock of the service manager.
use gravity.Prelude.{
  ℕ, ◌≡◌, sym, ap, ◌∙◌, subst, String, true, false, not, List, [], ◌∷◌, Option, is_some, if_cases,
  if_true, arith,
}
use gravity.Prelude.Key.{string_key, beq_refl}
use gravity.Prelude.Maps.{has, erase, lookup-erase}
use gravity.DataProduct.{Product}
use gravity.Node.State.{GravityReturnCode, success, TransportType, Node, seconds}
use gravity.Node.World.{Opening, World, get_ip}
use gravity.Node.Publishers.{
  Registering, endpoint, finish_product, announce_product, register_new,
  register_data_product_internal, unregister_data_product, publish, is_reserved,
}
use gravity.Node.Services.{
  remove_service, url_of, finish_service, announce_service, register_new_service, register_service,
  unregister_service,
}
use gravity.Node.Registering.{opened}
use gravity.Node.Owners.{
  UrlsOwned, add_product-UrlsOwned, add_service-UrlsOwned, kept_url, remove_product-UrlsOwned,
  remove_service-UrlsOwned,
}

-- the calls that change what the node keeps of urls, and publish
pub data Call : Type 0 where
  register_product : Registering → String → Call
  unregister_product : String → Call
  register_service_call : TransportType → String → ℕ → Call
  unregister_service_call : String → Call
  publish_product : Product → String → ℕ → Call

module _ {W R : Type 0} (world : World W R) where
  abbrev pub call : Call → Node → W → Node × W
  call (register_product o id) n w =
      let r = register_data_product_internal world o id n w in (r.1, r.2)
  call (unregister_product id) n w = let r = unregister_data_product world id n w in (r.1, r.2)
  call (register_service_call t id server) n w =
      let r = register_service world t id server n w in (r.1, r.2)
  call (unregister_service_call id) n w = let r = unregister_service world id n w in (r.1, r.2)
  call (publish_product p f t) n w = let r = publish world p f t n w in (r.1, r.2)

  unfoldable pub run : List Call → Node → W → Node × W
  run [] n w = (n, w)
  run (c ∷ cs) n w = let r = call c n w in run cs r.0 r.1

  -- what the service manager answers at the time of the clock
  abbrev pub opened_service : TransportType → String → ℕ → Node → W → String × W
  opened_service t id server n w =
      let opening : Opening = record {
        id = id;
        transport = t;
        endpoint = endpoint (get_ip world n) id t;
      } in
      world.service_register opening (seconds (world.now w).0) server (world.now w).1

  -- The url that a manager gives for a registration is none that the node keeps.
  abbrev pub IsFresh : Call → Node → W → Type 0
  IsFresh (register_product o id) n w = has (opened world o id n w).0 n.url_instance_map ≡ false
  IsFresh (register_service_call t id server) n w =
      has (opened_service t id server n w).0 n.url_instance_map ≡ false
  IsFresh _ n w = Unit

  abbrev pub AllFresh : List Call → Node → W → Type 0
  AllFresh [] n w = Unit
  AllFresh (c ∷ cs) n w = let r = call c n w in IsFresh c n w × AllFresh cs r.0 r.1

  finish_product-UrlsOwned :
      (id url : String) (time : ℕ) (n : Node) (a : GravityReturnCode × W)
      → has url n.url_instance_map ≡ false
      → UrlsOwned n
      → UrlsOwned (finish_product world id url time n a).1
  finish_product-UrlsOwned id url time n (success, w) fresh h =
      add_product-UrlsOwned id url time n fresh h
  finish_product-UrlsOwned id url time n (c, w) fresh h = h

  finish_service-UrlsOwned :
      (id url : String) (time : ℕ) (n : Node) (a : GravityReturnCode × W)
      → has url n.url_instance_map ≡ false
      → UrlsOwned n
      → UrlsOwned (finish_service world id url time n a).1
  finish_service-UrlsOwned id url time n (success, w) fresh h =
      add_service-UrlsOwned id url time n fresh h
  finish_service-UrlsOwned id url time n (c, w) fresh h = h

  -- a service that the node has can be unregistered
  pub unregister_service-owned :
      (id : String) (n : Node) (w : W)
      → UrlsOwned n
      → n.initialized ≡ true
      → has id n.service_map ≡ true
      → (unregister_service world id n w).1 ≡ remove_service id n
  unfolding unregister_service
  unregister_service-owned id n w h ready known =
      let instanced = h.service_instance id (url_of id n) (kept_url id n.service_map known) in
      ground (arith, h.free, ready, known, instanced)

  abbrev NodeOwned : {A : Type 0} → A × Node × W → Type 0
  NodeOwned r = UrlsOwned r.1

  call-UrlsOwned :
      (c : Call) (n : Node) (w : W) → IsFresh c n w → UrlsOwned n → UrlsOwned (call c n w).0
  unfolding register_data_product_internal register_new unregister_data_product register_service
      register_new_service unregister_service publish
  call-UrlsOwned (register_product o id) n w fresh h =
      if_cases (NodeOwned {A = GravityReturnCode}) (not n.initialized) _ _ (λ a. h)
        (λ a.
          if_cases (NodeOwned {A = GravityReturnCode}) (is_reserved o.allow_reserved_ids id n) _ _
            (λ b. h)
            (λ b.
              if_cases (NodeOwned {A = GravityReturnCode}) (has id n.publish_map) _ _ (λ c. h)
                (λ c.
                  let m = opened world o id n w in
                  finish_product-UrlsOwned id m.0 (world.now w).0 n
                    (announce_product world o id m.0 (world.now w).0 n m.1) fresh h)))
  call-UrlsOwned (unregister_product id) n w fresh h =
      if_cases (NodeOwned {A = GravityReturnCode}) (not n.initialized) _ _ (λ a. h)
        (λ a.
          if_cases (NodeOwned {A = GravityReturnCode}) (not (has id n.publish_map)) _ _ (λ b. h)
            (λ b. remove_product-UrlsOwned id n (ground (arith, b)) h))
  call-UrlsOwned (register_service_call t id server) n w fresh h =
      if_cases (NodeOwned {A = Option GravityReturnCode}) (not n.initialized) _ _ (λ a. h)
        (λ a.
          if_cases (NodeOwned {A = Option GravityReturnCode}) n.service_manager_locked _ _ (λ b. h)
            (λ b.
              if_cases (NodeOwned {A = Option GravityReturnCode}) (has id n.service_map) _ _
                (λ c. h)
                (λ c.
                  let m = opened_service t id server n w in
                  finish_service-UrlsOwned id m.0 (world.now w).0 n
                    (announce_service world id m.0 (world.now w).0 n m.1) fresh h)))
  call-UrlsOwned (unregister_service_call id) n w fresh h =
      if_cases (NodeOwned {A = Option GravityReturnCode}) (not n.initialized) _ _ (λ a. h)
        (λ a.
          if_cases (NodeOwned {A = Option GravityReturnCode}) n.service_manager_locked _ _ (λ b. h)
            (λ b.
              if_cases (NodeOwned {A = Option GravityReturnCode}) (not (has id n.service_map)) _ _
                (λ c. h)
                (λ c.
                  let known : has id n.service_map ≡ true = ground (arith, c) in
                  if_cases (NodeOwned {A = Option GravityReturnCode})
                    (not (has (url_of id n) n.url_instance_map)) _ _
                    (λ d. absurd (
                      ground (
                        arith,
                        d,
                        h.service_instance id (url_of id n) (kept_url id n.service_map known),
                      )))
                    (λ d. remove_service-UrlsOwned id n known h))))
  call-UrlsOwned (publish_product p f t) n w fresh h =
      if_cases (NodeOwned {A = GravityReturnCode}) (not n.initialized) _ _ (λ a. h)
        (λ a. record {
          free = h.free;
          product_instance = h.product_instance;
          service_instance = h.service_instance;
          products_apart = h.products_apart;
          services_apart = h.services_apart;
          kinds_apart = h.kinds_apart;
        })

  run-UrlsOwned :
      (cs : List Call) (n : Node) (w : W) → AllFresh cs n w → UrlsOwned n → UrlsOwned (run cs n w).0
  unfolding run
  run-UrlsOwned [] n w fresh h = h
  run-UrlsOwned (c ∷ cs) n w fresh h =
      run-UrlsOwned cs (call c n w).0 (call c n w).1 fresh.1 (call-UrlsOwned c n w fresh.0 h)

  -- After any history of registrations, removals and publications from a state in which each url
  -- has an instance and one owner, in which every url that a manager gave was new: the lock of the
  -- service manager is free, and each service that the node has can be unregistered, which leaves
  -- the node without it and the lock free.
  pub run-unregister_service :
      (cs : List Call) (n : Node) (w : W)
      → UrlsOwned n
      → AllFresh cs n w
      → let r = run cs n w in
        (r.0.service_manager_locked ≡ false)
        × ((id : String) (v : W)
            → r.0.initialized ≡ true
            → has id r.0.service_map ≡ true
            → let m = (unregister_service world id r.0 v).1 in
              (has id m.service_map ≡ false) × (m.service_manager_locked ≡ false))
  run-unregister_service cs n w h fresh =
      let r = run cs n w in
      let o = run-UrlsOwned cs n w fresh h in
      (
        o.free,
        λ id v ready known.
            subst
              (λ (m : Node). (has id m.service_map ≡ false) × (m.service_manager_locked ≡ false))
              (sym (unregister_service-owned id r.0 v o ready known))
              (gone id r.0.service_map, o.free),
      )
    where
      gone : (id : String) (m : List (String × String)) → has id (erase id m) ≡ false
      gone id m = ap is_some (lookup-erase id id m ∙ if_true _ _ _ (beq_refl id))
