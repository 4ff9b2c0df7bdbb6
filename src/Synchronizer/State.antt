-- ===== src/Synchronizer/State.antt =====
-- The state of the synchronizer, and the requests that it makes up for its own directory.
use gravity.Prelude.{
  ℕ, String, Bool, true, false, List, [], ◌∷◌, ◌++◌, Option, none, some, if◌then◌else◌,
}
use gravity.Prelude.Key.{string_key, nat_key}
use gravity.Prelude.Maps.{Map}
use gravity.Directory.Messages.{
  RegistrationType, data_product, service, ChangeType, added, removed, ProductLocations,
  ProductChange, ProviderMap,
}
use gravity.Directory.State.{seconds}
use gravity.Directory.Requests.{Request, registration_request, unregistration_request}

-- struct SyncDomainDetails
pub record Details : Type 0 where
  pub domain : String
  pub ip_address : String
  pub socket : ℕ
  pub initialized : Bool
  pub provider_map : ProviderMap
  pub registration_time : ℕ

-- The objects that the two maps share, by the number of their allocation; the sockets by the
-- number of their creation; the poll items behind the first two; the queue of updates; and what
-- was sent: lookups to other directories, and requests to our own, oldest first.
pub record Sync : Type 0 where
  pub objects : Map ℕ Details
  pub next_object : ℕ
  pub next_socket : ℕ
  pub sync_map : Map String ℕ
  pub socket_map : Map ℕ ℕ
  pub poll_items : List ℕ
  pub registration_updates : List Request
  pub pending_response : Bool
  pub lookups : List (ℕ × String)
  pub requests : List Request

-- the accessor change() of a map that has none gives the default message
abbrev pub change_of : ProviderMap → ProductChange
change_of m = elim m.change [
  | none ↦ record {
    product_id = "";
    url = "";
    registration_type = data_product;
    change_type = removed;
    component_id = "";
    timestamp = 0;
  }
  | some change ↦ change
]

abbrev pub empty_map : ProviderMap
empty_map = record { service_providers = []; data_providers = []; change = none; domain = "" }

-- createRegistrationRequest
abbrev pub registration_update : String → String → String → String → RegistrationType → ℕ → Request
registration_update product_id url component_id domain kind timestamp =
    registration_request (record {
      id = product_id;
      url = url;
      kind = kind;
      component_id = some component_id;
      domain = some domain;
      timestamp = some timestamp;
      is_relay = none;
      ip_address = none;
    })

-- createUnregistrationRequest
abbrev pub unregistration_update : String → String → String → RegistrationType → ℕ → Request
unregistration_update product_id url domain kind reg_time = unregistration_request (record {
  id = product_id;
  url = url;
  kind = kind;
  domain = some domain;
  registration_time = reg_time;
})

unfoldable pub push : List Request → Sync → Sync
push us s = record s { registration_updates = s.registration_updates ++ us }

-- the loop over the urls of one provider: component_id(j) and timestamp(j) fail where the lists
-- are shorter, which none stands for
unfoldable pub url_registrations :
    String → String → RegistrationType → List String → List String → List ℕ → Option (List Request)
url_registrations id domain kind [] cs ts = some []
url_registrations id domain kind (url ∷ us) [] ts = none
url_registrations id domain kind (url ∷ us) (c ∷ cs) [] = none
url_registrations id domain kind (url ∷ us) (c ∷ cs) (t ∷ ts) =
    elim (url_registrations id domain kind us cs ts) [
      | none ↦ none
      | some rest ↦ some (registration_update id url c domain kind t ∷ rest)
    ]

unfoldable pub registrations :
    String → RegistrationType → List ProductLocations → Option (List Request)
unfolding url_registrations
registrations domain kind [] = some []
registrations domain kind (p ∷ ps) =
    elim (url_registrations p.product_id domain kind p.urls p.component_ids p.timestamps) [
      | none ↦ none
      | some first ↦ (elim (registrations domain kind ps) [
        | none ↦ none
        | some rest ↦ some (first ++ rest)
      ])
    ]

-- the first update from a directory: all its providers
unfoldable pub initial_updates : String → ProviderMap → Option (List Request)
unfolding registrations
initial_updates domain m = elim (registrations domain service m.service_providers) [
  | none ↦ none
  | some services ↦ (elim (registrations domain data_product m.data_providers) [
    | none ↦ none
    | some products ↦ some (services ++ products)
  ])
]

abbrev pub is_added : ChangeType → Bool
is_added removed = false
is_added added = true

-- a later update: the one change
unfoldable pub incremental_update : String → ProductChange → Request
incremental_update domain c =
    if is_added c.change_type
    then registration_update c.product_id c.url c.component_id domain c.registration_type
        c.timestamp
    else unregistration_update c.product_id c.url domain c.registration_type (seconds c.timestamp)

-- the loops of the Remove command, over the urls of services and of data products alike
unfoldable pub url_removals : String → String → RegistrationType → ℕ → List String → List Request
url_removals id domain kind time [] = []
url_removals id domain kind time (url ∷ us) =
    unregistration_update id url domain kind time ∷ url_removals id domain kind time us

unfoldable pub removals : String → RegistrationType → ℕ → List ProductLocations → List Request
unfolding url_removals
removals domain kind time [] = []
removals domain kind time (p ∷ ps) =
    url_removals p.product_id domain kind time p.urls ++ removals domain kind time ps

unfoldable pub domain_removals : String → Details → List Request
unfolding removals
domain_removals domain details =
    let kind = (change_of details.provider_map).registration_type in
    let time = details.registration_time in
    removals domain kind time details.provider_map.service_providers
    ++ removals domain kind time details.provider_map.data_providers
