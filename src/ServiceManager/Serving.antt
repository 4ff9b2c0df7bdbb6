-- ===== src/ServiceManager/Serving.antt =====
-- Who answers a request after a service was registered or unregistered.
use gravity.Prelude.{
  ℕ, ◌≡◌, ap, ◌∙◌, String, Bool, true, false, not, ◌&&◌, Option, none, some, is_some, nat_eq,
  if◌then◌else◌, arith,
}
use gravity.Prelude.Key.{◌==◌, string_key, nat_key, beq_refl}
use gravity.Prelude.Maps.{
  lookup, has, touch, lookup-insert, lookup-erase, get_or-insert, get_or-erase,
}
use gravity.PollItems.{is_polled}
use gravity.DataProduct.{Product, new_product}
use gravity.Ports.{Url, bound_url}
use gravity.ServiceManager.{
  Details, Manager, Addition, add_bound, add_service, remove_service, time_of, service_request,
  respond, details_of,
}
use gravity.ServiceManager.Invariant.{Inv, remove_service-Inv}

-- the request carries another registration time than the service's
abbrev pub is_stale : ℕ → Product → Bool
is_stale time q = not (nat_eq q.registration_time 0) && not (nat_eq q.registration_time time)

module _ (provide : ℕ → String → Product → Option Product) (component domain : String) where
  -- the product that the provider, or the check of the time, gives, with the node's stamp
  abbrev stamped : ℕ → Details → Product → Manager → Option (Product × Manager)
  stamped time d q t =
      elim (if is_stale time q
        then some (new_product d.service_id)
        else provide d.server d.service_id q) [
          | none ↦ none
          | some p ↦
              some (
                record p { component_id = component; domain = domain; registration_time = time },
                t,
              )
        ]

  service_request_found :
      (socket : ℕ) (q : Product) (s : Manager) (d : Details) (time : ℕ)
      → lookup socket s.service_map_by_socket ≡ some d
      → time_of d.service_id s ≡ time
      → (t : Manager) × (service_request provide component domain socket q s ≡ stamped time d q t)
  unfolding service_request
  service_request_found socket q s d time found known = (
    touched,
    ap (λ o. respond provide component domain o q s) found ∙ ap (λ n. stamped n d q touched) known,
  )
    where
      touched : Manager
      touched = record s {
        service_registration_time_map = touch 0 d.service_id s.service_registration_time_map;
      }

  -- When a service's url could be bound, a request on its new socket is answered by its provider,
  -- unless the request carries another registration time, which is answered with an empty product
  -- of the service; the answer has the node's component and domain and the service's time. A null
  -- pointer from the provider is followed.
  pub service_request-add_service :
      (can_bind : Url → Bool) (a : Addition) (s : Manager) (url : Url) (q : Product)
      → bound_url can_bind a.binding ≡ some url
      → (t : Manager) × (service_request provide component domain s.next_socket q
            (add_service can_bind a s).1
          ≡ (elim (if is_stale a.registration_time q
              then some (new_product a.service_id)
              else provide a.server a.service_id q) [
                | none ↦ none
                | some p ↦ some (
                  record p {
                    component_id = component;
                    domain = domain;
                    registration_time = a.registration_time;
                  },
                  t,
                )
              ]))
  unfolding service_request add_service add_bound
  service_request-add_service can_bind a s url q bound =
      let d = details_of a url s.next_socket in
      let t = (add_bound a (some url) s).1 in
      let found : lookup s.next_socket t.service_map_by_socket ≡ some d = ground (
        arith,
        lookup-insert s.next_socket s.next_socket d s.service_map_by_socket,
        beq_refl s.next_socket,
      ) in
      let known : time_of a.service_id t ≡ a.registration_time = ground (
        arith,
        get_or-insert 0 a.service_id a.service_id a.registration_time
            s.service_registration_time_map,
        beq_refl a.service_id,
      ) in
      let (u, e) = service_request_found s.next_socket q t d a.registration_time found known in
      (
        u,
        ap (λ o. service_request provide component domain s.next_socket q (add_bound a o s).1) bound
            ∙ e,
      )

-- Unregistering a service stops the poll of its socket, and leaves every other service with its
-- socket, which is polled and leads to it, and its registration time.
pub remove_service_lem :
    (id : String) (x : Details) (s : Manager)
    → Inv s
    → lookup id s.service_map_by_service_id ≡ some x
    → (is_polled x.socket (remove_service id s).poll_items ≡ false)
      × (lookup id (remove_service id s).service_map_by_service_id ≡ none)
      × ((j : String) (d : Details)
          → (id == j) ≡ false
          → lookup j s.service_map_by_service_id ≡ some d
          → (is_polled d.socket (remove_service id s).poll_items ≡ true)
            × (lookup d.socket (remove_service id s).service_map_by_socket ≡ some d)
            × (time_of j (remove_service id s) ≡ time_of j s))
remove_service_lem id x s h there =
    let t = remove_service id s in
    let after = remove_service-Inv id s h in
    (
      after.polled x.socket ∙ removed.0,
      removed.1,
      λ j d other e.
          let kept : lookup j t.service_map_by_service_id ≡ some d = stays j other ∙ e in
          let l = after.linked j d kept in
          (after.polled d.socket ∙ ap is_some l.0, l.0, time_stays j other),
    )
  where
    removed :
        (has x.socket (remove_service id s).service_map_by_socket ≡ false)
        × (lookup id (remove_service id s).service_map_by_service_id ≡ none)
    removed =
        unfold remove_service in
        ground (
          arith,
          there,
          lookup-erase x.socket x.socket s.service_map_by_socket,
          lookup-erase id id s.service_map_by_service_id,
          beq_refl x.socket,
          beq_refl id,
        )

    stays :
        (j : String)
        → (id == j) ≡ false
        → lookup j (remove_service id s).service_map_by_service_id
          ≡ lookup j s.service_map_by_service_id
    stays j other =
        unfold remove_service in
        ground (arith, there, other, lookup-erase id j s.service_map_by_service_id)

    time_stays : (j : String) → (id == j) ≡ false → time_of j (remove_service id s) ≡ time_of j s
    time_stays j other =
        unfold remove_service in
        ground (arith, there, other, get_or-erase 0 id j s.service_registration_time_map)
