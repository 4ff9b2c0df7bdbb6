-- ===== src/Synchronizer/Told.antt =====
-- What the messages that reach the synchronizer have its directory register and unregister,
-- described message by message.
use gravity.Prelude.{
  ℕ, ◌/◌, ◌%◌, ◌^◌, String, Bool, false, not, ◌&&◌, List, [], ◌∷◌, ◌++◌, map, Option, none, some,
  if◌then◌else◌, nat_eq,
}
use gravity.Prelude.Key.{string_key, nat_key}
use gravity.Prelude.Maps.{lookup}
use gravity.Directory.Messages.{
  RegistrationType, data_product, service, added, removed, ProductLocations, ProviderMap,
}
use gravity.Directory.Requests.{
  Request, registration_request, unregistration_request, DomainCommand, add, update, remove,
}
use gravity.Synchronizer.State.{Details, Sync}
use gravity.Synchronizer.Remotes.{
  Content, lookup_answer, details_update, other_content, Remote, remote,
}
use gravity.Synchronizer.Loop.{Input, command_input, own_response, no_input, take_input, round}

-- what the synchronizer knows of a domain, and of the directory at a socket
abbrev pub known : String → Sync → Option Details
known domain s = elim (lookup domain s.sync_map) [ none ↦ none | some p ↦ lookup p s.objects ]

abbrev pub known_at : ℕ → Sync → Option Details
known_at socket s = elim (lookup socket s.socket_map) [ none ↦ none | some p ↦ lookup p s.objects ]

abbrev pub each : (ProductLocations → List Request) → List ProductLocations → List Request
each f [] = []
each f (p ∷ ps) = f p ++ each f ps

-- the removal of a provider's urls
abbrev pub withdrawn_from : String → RegistrationType → ℕ → ProductLocations → List Request
withdrawn_from domain kind time p =
    map
      (λ url. unregistration_request (record {
        id = p.product_id;
        url = url;
        kind = kind;
        domain = some domain;
        registration_time = time;
      }))
      p.urls

-- The removal of a domain: every url of its last map, with the type of its last change, or that of
-- a data product if there was none, and the registration time of the map's publisher.
abbrev pub withdrawn : String → Details → List Request
withdrawn domain d =
    let kind : RegistrationType = elim d.provider_map.change [
      | none ↦ data_product
      | some c ↦ c.registration_type
    ] in
    each (withdrawn_from domain kind d.registration_time) d.provider_map.service_providers
    ++ each (withdrawn_from domain kind d.registration_time) d.provider_map.data_providers

-- the registration of a provider's urls, with the components and the times at their places
abbrev pub announced_at :
    String → RegistrationType → String → List String → List String → List ℕ → List Request
announced_at domain kind id [] cs ts = []
announced_at domain kind id (u ∷ us) [] ts = []
announced_at domain kind id (u ∷ us) (c ∷ cs) [] = []
announced_at domain kind id (u ∷ us) (c ∷ cs) (t ∷ ts) =
    registration_request (record {
      id = id;
      url = u;
      kind = kind;
      component_id = some c;
      domain = some domain;
      timestamp = some t;
      is_relay = none;
      ip_address = none;
    })
    ∷ announced_at domain kind id us cs ts

abbrev pub announced_by : String → RegistrationType → ProductLocations → List Request
announced_by domain kind p =
    announced_at domain kind p.product_id p.urls p.component_ids p.timestamps

-- a map that is the first: all of it
abbrev pub announced : ProviderMap → List Request
announced m =
    each (announced_by m.domain service) m.service_providers
    ++ each (announced_by m.domain data_product) m.data_providers

-- a later map: the change that it names, or else the default message
abbrev pub changed : ProviderMap → Request
changed m = elim m.change [
  | none ↦ unregistration_request (record {
    id = "";
    url = "";
    kind = data_product;
    domain = some m.domain;
    registration_time = 0;
  })
  | some c ↦ (elim c.change_type [
    | added ↦ registration_request (record {
      id = c.product_id;
      url = c.url;
      kind = c.registration_type;
      component_id = some c.component_id;
      domain = some m.domain;
      timestamp = some c.timestamp;
      is_relay = none;
      ip_address = none;
    })
    | removed ↦ unregistration_request (record {
      id = c.product_id;
      url = c.url;
      kind = c.registration_type;
      domain = some m.domain;
      registration_time = c.timestamp / 1_000_000 % 2 ^ 32;
    })
  ])
]

abbrev pub told_by_map : ProviderMap → Details → List Request
told_by_map m d = if d.initialized then changed m ∷ [] else announced m

abbrev pub of_known : (Details → List Request) → Option Details → List Request
of_known f none = []
of_known f (some d) = f d

abbrev pub told_by_content : Content → Sync → List Request
told_by_content (lookup_answer r) s = []
told_by_content (details_update m) s = of_known (told_by_map m) (known m.domain s)
told_by_content other_content s = []

-- a message with bytes of another registration than the socket's directory has
abbrev pub is_other : Remote → Option Details → Bool
is_other m none = false
is_other m (some d) = m.has_bytes && not (nat_eq d.registration_time m.registration_time)

abbrev pub told_by_remote : ℕ → Remote → Sync → List Request
told_by_remote socket m s =
    if is_other m (known_at socket s) then [] else told_by_content m.content s

abbrev pub told_by_command : DomainCommand → Sync → List Request
told_by_command (add domain ip) s = []
told_by_command (update domain ip) s = []
told_by_command (remove domain) s = of_known (withdrawn domain) (known domain s)

abbrev pub told_by_input : Input → Sync → List Request
told_by_input (command_input c) s = told_by_command c s
told_by_input own_response s = []
told_by_input no_input s = []

abbrev pub after : Option Sync → (Sync → List Request) → List Request
after none f = []
after (some s) f = f s

abbrev pub told_by_remotes : List (ℕ × Remote) → Sync → List Request
told_by_remotes [] s = []
told_by_remotes ((socket, m) ∷ rest) s =
    told_by_remote socket m s ++ after (remote socket m s) (told_by_remotes rest)

-- Over rounds: the command, then the messages of other directories in the order of the poll.
abbrev pub told : List (Input × List (ℕ × Remote)) → Sync → List Request
told [] s = []
told ((i, ms) ∷ rest) s =
    (told_by_input i s ++ after (take_input i s) (told_by_remotes ms))
    ++ after (round i ms s) (told rest)
