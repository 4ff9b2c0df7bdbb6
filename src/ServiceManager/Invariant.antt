-- ===== src/ServiceManager/Invariant.antt =====
-- The maps and the poll items agree, so that a request always finds its service.
use gravity.Prelude.{
  ℕ, ◌≤◌, ◌≡◌, ◌≢◌, refl, sym, ap, subst, ◌∙◌, String, Bool, true, false, Bool-cases, inl, inr,
  List, [], ◌∷◌, Option, none, some, is_some, not, ◌&&◌, if◌then◌else◌, if_true, if_false, arith,
  nat_eq, nat_eq_iff,
}
use gravity.Prelude.Key.{◌==◌, string_key, nat_key, beq_refl}
use gravity.Prelude.Maps.{Map, lookup, has, insert, erase, touch, lookup-insert, lookup-erase}
use gravity.PollItems.{without, is_polled, is_polled-append, is_polled-without}
use gravity.DataProduct.{Product, new_product}
use gravity.Ports.{Url, bound_url}
use gravity.ServiceManager.{
  Details, Manager, Addition, details_of, add_bound, add_service, remove_service, time_of, answer,
  respond, service_request, Event, register, unregister, request_at, step, run, init,
}

-- The details that a service id has are the details of their socket, and name the id.
abbrev pub Linked : Map ℕ Details → String → Details → Type 0
Linked by_socket id d = (lookup d.socket by_socket ≡ some d) × (d.service_id ≡ id)

pub record Inv (s : Manager) : Type 0 where
  pub polled : (k : ℕ) → is_polled k s.poll_items ≡ has k s.service_map_by_socket
  pub fresh : (k : ℕ) → s.next_socket ≤ k → has k s.service_map_by_socket ≡ false
  pub linked :
      (id : String) (d : Details)
      → lookup id s.service_map_by_service_id ≡ some d
      → Linked s.service_map_by_socket id d

some_is :
    (d x : Details) (id : String)
    → x.service_id ≡ id
    → some x ≡ some d
    → (x ≡ d) × (d.service_id ≡ id)
some_is d x id e f =
    let g : x ≡ d = ground (arith, f) in (g, ap (λ (y : Details). y.service_id) (sym g) ∙ e)

new_linked :
    (a : Addition) (url : Url) (s : Manager)
    → Inv s
    → (id : String) (d : Details)
    → lookup id (insert a.service_id (details_of a url s.next_socket) s.service_map_by_service_id)
      ≡ some d
    → Linked (insert s.next_socket (details_of a url s.next_socket) s.service_map_by_socket) id d
new_linked a url s h id d e = elim (Bool-cases (a.service_id == id)) [
  | inl same ↦
      (let f : some new ≡ some d =
          sym (
            lookup-insert a.service_id id new s.service_map_by_service_id
            ∙ ap (λ c. if c then some new else lookup id s.service_map_by_service_id) same)
          ∙ e in
        let id_eq : new.service_id ≡ id = (string_key.beq_iff a.service_id id).0 same in
        let there : lookup s.next_socket (insert s.next_socket new s.service_map_by_socket)
            ≡ some new =
          ground (
            arith,
            lookup-insert s.next_socket s.next_socket new s.service_map_by_socket,
            beq_refl s.next_socket,
          ) in
        subst (Linked (insert s.next_socket new s.service_map_by_socket) id)
          (some_is d new id id_eq f).0 (there, id_eq))
  | inr other ↦
      let before : lookup id s.service_map_by_service_id ≡ some d =
        sym (
          lookup-insert a.service_id id new s.service_map_by_service_id
          ∙ ap (λ c. if c then some new else lookup id s.service_map_by_service_id) other)
        ∙ e in
      let l = h.linked id d before in
      (
        ground (
          arith,
          l.0,
          h.fresh s.next_socket,
          lookup-insert s.next_socket d.socket new s.service_map_by_socket,
          nat_eq_iff s.next_socket d.socket,
        ),
        l.1,
      )
]
  where
    new : Details
    new = details_of a url s.next_socket

add_bound-Inv : (a : Addition) (o : Option Url) (s : Manager) → Inv s → Inv (add_bound a o s).1
unfolding add_bound
add_bound-Inv a none s h = record {
  polled = h.polled;
  fresh = λ k n. h.fresh k (omega (arith, n));
  linked = h.linked;
}
add_bound-Inv a (some url) s h =
    let new = details_of a url s.next_socket in
    record {
      polled = λ k. ground (
        arith,
        h.polled k,
        is_polled-append k s.next_socket s.poll_items,
        lookup-insert s.next_socket k new s.service_map_by_socket,
      );
      fresh = λ k n. ground (
        arith,
        n,
        h.fresh k,
        lookup-insert s.next_socket k new s.service_map_by_socket,
        nat_eq_iff s.next_socket k,
      );
      linked = λ id d e. new_linked a url s h id d e;
    }

removed_linked :
    (id : String) (x : Details) (s : Manager)
    → Inv s
    → lookup id s.service_map_by_service_id ≡ some x
    → (j : String) (d : Details) → lookup j (erase id s.service_map_by_service_id) ≡ some d
    → Linked (erase x.socket s.service_map_by_socket) j d
removed_linked id x s h there j d e =
    let b : (lookup j s.service_map_by_service_id ≡ some d) × ((id == j) ≡ false) =
      ground (arith, e, lookup-erase id j s.service_map_by_service_id) in
    let l = h.linked j d b.0 in
    let lx = h.linked id x there in
    let apart : x.socket ≢ d.socket = λ same.
      let both : some x ≡ some d =
        sym lx.0 ∙ ap (λ k. lookup k s.service_map_by_socket) same ∙ l.0 in
      let i : d.service_id ≡ id = (some_is d x id lx.1 both).1 in
      let t : (id == j) ≡ true = (string_key.beq_iff id j).1 (sym i ∙ l.1) in
      ground (arith, t, b.1) in
    (
      ground (
        arith,
        l.0,
        apart,
        lookup-erase x.socket d.socket s.service_map_by_socket,
        nat_eq_iff x.socket d.socket,
      ),
      l.1,
    )

pub remove_service-Inv : (id : String) (s : Manager) → Inv s → Inv (remove_service id s)
unfolding remove_service
remove_service-Inv id s h = go (lookup id s.service_map_by_service_id) refl
  where
    go :
        (o : Option Details)
        → lookup id s.service_map_by_service_id ≡ o
        → Inv (elim o [
          | none ↦ s
          | some details ↦ record s {
            service_map_by_socket = erase details.socket s.service_map_by_socket;
            service_map_by_service_id = erase id s.service_map_by_service_id;
            service_registration_time_map = erase id s.service_registration_time_map;
            poll_items = without details.socket s.poll_items;
          }
        ])
    go none e = h
    go (some x) e = record {
      polled = λ k. ground (
        arith,
        h.polled k,
        is_polled-without k x.socket s.poll_items,
        lookup-erase x.socket k s.service_map_by_socket,
      );
      fresh = λ k n. ground (arith, h.fresh k n, lookup-erase x.socket k s.service_map_by_socket);
      linked = removed_linked id x s h e;
    }

pub add_service-Inv :
    (can_bind : Url → Bool) (a : Addition) (s : Manager) → Inv s → Inv (add_service can_bind a s).1
unfolding add_service
add_service-Inv can_bind a s h = add_bound-Inv a (bound_url can_bind a.binding) s h

pub init-Inv : Inv init
unfolding lookup
init-Inv = record {
  polled = λ k. refl;
  fresh = λ k n. refl;
  linked = λ id d e. absurd (ground (arith, e));
}

-- A provider returns a product.
abbrev pub Provides : (ℕ → String → Product → Option Product) → Type 0
Provides provide =
    (server : ℕ) (id : String) (q : Product) → (p : Product) × (provide server id q ≡ some p)

module _ (provide : ℕ → String → Product → Option Product) (component domain : String)
    (provides : Provides provide) where
  answer-total :
      (d : Details) (q : Product) (s : Manager)
      → (p : Product) × (answer provide component domain d q s ≡ some p)
  unfolding answer
  answer-total d q s =
      let (p, e) = provides d.server d.service_id q in
      elim (Bool-cases (
        not (nat_eq q.registration_time 0)
        && not (nat_eq q.registration_time (time_of d.service_id s)))) [
          | inl stale ↦ (new_product d.service_id, if_true _ _ _ stale)
          | inr current ↦ (p, if_false _ _ _ current ∙ e)
        ]

  respond-total :
      (d : Details) (q : Product) (s : Manager)
      → Inv s
      → (r : Product) × (t : Manager) × (respond provide component domain (some d) q s
          ≡ some (r, t))
        × Inv t
  unfolding respond
  respond-total d q s h =
      let (p, e) = answer-total d q s in
      let t : Manager = record s {
        service_registration_time_map = touch 0 d.service_id s.service_registration_time_map;
      } in
      let stamp : Product → Product = λ r. record r {
        component_id = component;
        domain = domain;
        registration_time = time_of d.service_id s;
      } in
      (
        stamp p,
        t,
        ap (λ (o : Option Product). elim o [ none ↦ none | some r ↦ some (stamp r, t) ]) e,
        record { polled = h.polled; fresh = h.fresh; linked = h.linked },
      )

  service_request_total :
      (socket : ℕ) (q : Product) (s : Manager)
      → Inv s
      → is_polled socket s.poll_items ≡ true
      → (r : Product) × (t : Manager) × (service_request provide component domain socket q s
          ≡ some (r, t))
        × Inv t
  unfolding service_request
  service_request_total socket q s h here =
      go (lookup socket s.service_map_by_socket) (sym (h.polled socket) ∙ here)
    where
      go :
          (o : Option Details)
          → is_some o ≡ true
          → (r : Product) × (t : Manager) × (respond provide component domain o q s ≡ some (r, t))
            × Inv t
      go none e = absurd (ground (arith, e))
      go (some d) e = respond-total d q s h

  step_total :
      (e : Event) (s : Manager)
      → Inv s
      → (t : Manager) × (step provide component domain e s ≡ some t) × Inv t
  unfolding step
  step_total (register can_bind a) s h = (_, refl, add_service-Inv can_bind a s h)
  step_total (unregister id) s h = (_, refl, remove_service-Inv id s h)
  step_total (request_at socket q) s h = elim (Bool-cases (is_polled socket s.poll_items)) [
    | inl here ↦
        let (r, t, e, inv) = service_request_total socket q s h here in
        (t, ground (arith, here, e), inv)
    | inr absent ↦ (s, ground (arith, absent), h)
  ]

  run_total :
      (es : List Event) (s : Manager)
      → Inv s
      → (t : Manager) × (run provide component domain es s ≡ some t) × Inv t
  unfolding run
  run_total [] s h = (s, refl, h)
  run_total (e ∷ es) s h =
      let (t, f, inv) = step_total e s h in
      let (u, g, last) = run_total es t inv in (u, ground (arith, f, g), last)

  -- From its start, whatever is registered, unregistered and requested, if the providers return
  -- products, the service manager never follows a null pointer: exactly the sockets that are polled have a service, and the service
  -- that an id has is the one of its socket.
  pub run-init_total :
      (es : List Event) → (t : Manager) × (run provide component domain es init ≡ some t) × Inv t
  run-init_total es = run_total es init init-Inv
