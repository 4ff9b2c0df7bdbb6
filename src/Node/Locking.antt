-- ===== src/Node/Locking.antt =====
-- Two services at one url, and the lock of the service manager.
use gravity.Prelude.{
  ℕ, ◌≡◌, refl, sym, ap, ◌∙◌, subst, String, true, false, none, some, or_else, is_some, if_true,
  if_false, arith,
}
use gravity.Prelude.Key.{◌==◌, string_key, beq_refl}
use gravity.Prelude.Maps.{lookup, has, erase, lookup-erase}
use gravity.Node.State.{registration_conflict, TransportType, Node}
use gravity.Node.World.{World}
use gravity.Node.Services.{url_of, remove_service, register_service, unregister_service}

module _ {W R : Type 0} (world : World W R) where
  -- a call whose lock stays taken waits
  pub waits :
      (transport : TransportType) (id : String) (server : ℕ) (n : Node) (w : W)
      → n.initialized ≡ true
      → n.service_manager_locked ≡ true
      → ((register_service world transport id server n w).0 ≡ none)
        × ((unregister_service world id n w).0 ≡ none)
  unfolding register_service unregister_service
  waits transport id server n w ready locked = ground (arith, ready, locked)

  -- the early return, and what it leaves behind
  early_return :
      (id : String) (n : Node) (w : W)
      → n.initialized ≡ true
      → n.service_manager_locked ≡ false
      → has id n.service_map ≡ true
      → has (url_of id n) n.url_instance_map ≡ false
      → ((unregister_service world id n w).0 ≡ some registration_conflict)
        × ((unregister_service world id n w).1 ≡ record n { service_manager_locked = true })
  unfolding unregister_service
  early_return id n w ready free known gone = ground (arith, ready, free, known, gone)

  -- every later registration and removal of a service waits
  abbrev pub IsStuck : Node → Type 0
  IsStuck n =
      (transport : TransportType) (id : String) (server : ℕ) (v : W)
      → ((register_service world transport id server n v).0 ≡ none)
        × ((unregister_service world id n v).0 ≡ none)

  module _ (a b : String) (n : Node) (ready : n.initialized ≡ true)
      (free : n.service_manager_locked ≡ false) (known : has a n.service_map ≡ true)
      (other : has b n.service_map ≡ true) (apart : (a == b) ≡ false)
      (same : url_of a n ≡ url_of b n)
      (instanced : has (url_of a n) n.url_instance_map ≡ true) where
    removed : (w : W) → (unregister_service world a n w).1 ≡ remove_service a n
    unfolding unregister_service
    removed w = ground (arith, ready, free, known, instanced)

    still_known : lookup b (erase a n.service_map) ≡ lookup b n.service_map
    still_known = lookup-erase a b n.service_map ∙ if_false (a == b) _ _ apart

    instance_gone :
        has (url_of b (remove_service a n)) (erase (url_of a n) n.url_instance_map) ≡ false
    instance_gone =
        ap (λ u. has u (erase (url_of a n) n.url_instance_map))
          (ap (or_else "") still_known ∙ sym same)
        ∙ ap is_some (
            lookup-erase (url_of a n) (url_of a n) n.url_instance_map
            ∙ if_true (url_of a n == url_of a n) _ _ (beq_refl (url_of a n)))

    -- When two services have one url, and the one was unregistered, then the other one cannot be:
    -- it stays in the map, the call reports a conflict, and every later registration and removal
    -- of a service waits for ever for the lock that the call left taken.
    pub unregister-shared_url :
        (w : W)
        → let r = unregister_service world a n w in
          let s = unregister_service world b r.1 r.2 in
          (s.0 ≡ some registration_conflict) × (has b s.1.service_map ≡ true) × IsStuck s.1
    unregister-shared_url w =
        let r = unregister_service world a n w in
        let kept : has b (remove_service a n).service_map ≡ true = ap is_some still_known ∙ other in
        let e = early_return b (remove_service a n) r.2 ready free kept instance_gone in
        subst
          (λ (m : Node).
            let s = unregister_service world b m r.2 in
            (s.0 ≡ some registration_conflict) × (has b s.1.service_map ≡ true) × IsStuck s.1)
          (sym (removed w))
          (
            e.0,
            ap (λ (m : Node). has b m.service_map) e.1 ∙ kept,
            subst IsStuck (sym e.1)
                (λ transport id server v. waits transport id server _ v ready refl),
          )
