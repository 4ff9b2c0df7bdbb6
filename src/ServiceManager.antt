-- ===== src/ServiceManager.antt =====
-- The services of a node (src/api/cpp/GravityServiceManager.cpp): their sockets, and the requests
-- that come on them.
pub mod Invariant
pub mod Serving
mod Tests
use gravity.Prelude.{
  ℕ, zero, suc, ◌+◌, ◌-◌, String, Bool, true, false, not, ◌&&◌, List, [], ◌∷◌, ◌++◌, Option, none,
  some, nat_eq, if◌then◌else◌,
}
use gravity.Prelude.Key.{◌==◌, string_key, nat_key}
use gravity.PollItems.{without, is_polled}
use gravity.DataProduct.{Product, new_product}
use gravity.Ports.{Url, Endpoint, bound_url}
use gravity.Prelude.Maps.{Map, lookup, has, get_or, insert, erase, touch}

-- struct ServiceDetails: the socket stands for its poll item, the server for the address of the
-- provider. Nothing writes to the details that two maps share.
pub record Details : Type 0 where
  pub service_id : String
  pub url : Url
  pub socket : ℕ
  pub server : ℕ

-- class GravityServiceManager, with the sockets made so far and the poll items behind the node's
pub record Manager : Type 0 where
  pub next_socket : ℕ
  pub service_map_by_socket : Map ℕ Details
  pub service_map_by_service_id : Map String Details
  pub service_registration_time_map : Map String ℕ
  pub poll_items : List ℕ

-- what addService reads
pub record Addition : Type 0 where
  pub service_id : String
  pub binding : Endpoint
  pub registration_time : ℕ
  pub server : ℕ

abbrev pub details_of : Addition → Url → ℕ → Details
details_of a url socket = record {
  service_id = a.service_id;
  url = url;
  socket = socket;
  server = a.server;
}

unfoldable pub add_bound : Addition → Option Url → Manager → Option Url × Manager
add_bound a none s = (none, record s { next_socket = s.next_socket + 1 })
add_bound a (some url) s =
    let details = details_of a url s.next_socket in
    (
      some url,
      record {
        next_socket = s.next_socket + 1;
        service_map_by_socket = insert s.next_socket details s.service_map_by_socket;
        service_map_by_service_id = insert a.service_id details s.service_map_by_service_id;
        service_registration_time_map =
            insert a.service_id a.registration_time s.service_registration_time_map;
        poll_items = s.poll_items ++ s.next_socket ∷ [];
      },
    )

-- addService: the url is the answer, and the empty text if nothing was bound
unfoldable pub add_service : (Url → Bool) → Addition → Manager → Option Url × Manager
unfolding bound_url add_bound
add_service can_bind a s = add_bound a (bound_url can_bind a.binding) s

-- removeService
unfoldable pub remove_service : String → Manager → Manager
remove_service id s = elim (lookup id s.service_map_by_service_id) [
  | none ↦ s
  | some details ↦ record s {
    service_map_by_socket = erase details.socket s.service_map_by_socket;
    service_map_by_service_id = erase id s.service_map_by_service_id;
    service_registration_time_map = erase id s.service_registration_time_map;
    poll_items = without details.socket s.poll_items;
  }
]

-- what the poll brings
pub data Event : Type 0 where
  register : (Url → Bool) → Addition → Event
  unregister : String → Event
  request_at : ℕ → Product → Event

-- the registration time that the service has; operator[] makes a missing one
abbrev pub time_of : String → Manager → ℕ
time_of id s = get_or 0 id s.service_registration_time_map

-- The provider at an address, which is the application's, and the node's component and domain; a
-- provider that returns a null pointer gives none.
module _ (provide : ℕ → String → Product → Option Product) (component domain : String) where
  unfoldable pub answer : Details → Product → Manager → Option Product
  answer details request s =
      if not (nat_eq request.registration_time 0)
        && not (nat_eq request.registration_time (time_of details.service_id s))
      then some (new_product details.service_id)
      else provide details.server details.service_id request

  -- the response is stamped with the node's component and domain and the service's time; a null
  -- response is followed
  unfoldable pub respond : Option Details → Product → Manager → Option (Product × Manager)
  unfolding answer
  respond none request s = none
  respond (some details) request s = elim (answer details request s) [
    | none ↦ none
    | some response ↦ some (
      record response {
        component_id = component;
        domain = domain;
        registration_time = time_of details.service_id s;
      },
      record s {
        service_registration_time_map = touch 0 details.service_id s.service_registration_time_map;
      },
    )
  ]

  -- a request on a polled socket; none stands for a null pointer that is followed
  unfoldable pub service_request : ℕ → Product → Manager → Option (Product × Manager)
  unfolding respond
  service_request socket request s = respond (lookup socket s.service_map_by_socket) request s

  unfoldable pub step : Event → Manager → Option Manager
  unfolding add_service remove_service service_request
  step (register can_bind a) s = some (add_service can_bind a s).1
  step (unregister id) s = some (remove_service id s)
  step (request_at socket request) s =
      if is_polled socket s.poll_items
      then (elim (service_request socket request s) [ none ↦ none | some r ↦ some r.1 ])
      else some s

  unfoldable pub run : List Event → Manager → Option Manager
  unfolding step
  run [] s = some s
  run (e ∷ es) s = elim (step e s) [ none ↦ none | some t ↦ run es t ]

abbrev pub init : Manager
init = record {
  next_socket = 0;
  service_map_by_socket = [];
  service_map_by_service_id = [];
  service_registration_time_map = [];
  poll_items = [];
}
