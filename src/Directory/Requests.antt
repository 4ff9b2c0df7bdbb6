-- ===== src/Directory/Requests.antt =====
-- The requests that the directory serves, and its main loop.
use gravity.Prelude.{
  String, true, false, not, ◌&&◌, List, [], ◌∷◌, if◌then◌else◌, Option, none, some, or_else, map,
}
use gravity.Prelude.Key.{◌==◌, string_key}
use gravity.Prelude.Maps.{Set, insert, erase, touch}
use gravity.Directory.Messages.{
  Registration, Unregistration, LookupRequest, Response, nothing, publisher_list, service_location,
  domain_name, provider_map, registered_publishers, domain_update, ChangeType, removed, added,
  data_product, service, ServiceLookupResponse,
}
use gravity.Directory.State.{Directory, instance_of, service_of, seconds, publish}
use gravity.Directory.Locations.{get_providers}
use gravity.Directory.Publishers.{add_publishers}
use gravity.Directory.Register.{handle_register}
use gravity.Directory.Unregister.{handle_unregister}

-- the domain of a lookup: an empty one is our own too
abbrev pub lookup_domain : Directory → Option String → String
lookup_domain s none = s.domain
lookup_domain s (some domain) = if domain == "" then s.domain else domain

abbrev pub service_response : Directory → String → String → ServiceLookupResponse
service_response s domain id = record {
  lookup_id = id;
  url = or_else "" (service_of s domain id);
  domain_id = domain;
  registration_time = elim (service_of s domain id) [
    | none ↦ none
    | some url ↦ some (seconds (instance_of s url))
  ];
}

-- a service that is found leaves its url among the registered ones
unfoldable pub lookup_service : String → String → Directory → Response × Directory
lookup_service id domain s = (
  service_location (service_response s domain id),
  elim (service_of s domain id) [
    | none ↦ s
    | some url ↦ record s { registration_instance_map = touch 0 url s.registration_instance_map }
  ],
)

-- handleLookup
unfoldable pub handle_lookup : LookupRequest → Directory → Response × Directory
unfolding add_publishers lookup_service
handle_lookup q s =
    let domain = lookup_domain s q.domain_id in
    elim q.kind [
      | data_product ↦
          let (response, t) = add_publishers q.lookup_id domain s in (publisher_list response, t)
      | service ↦ lookup_service q.lookup_id domain s
    ]

-- the requests of the main socket, by the data product id that names their type
pub data Request : Type 0 where
  lookup_request : LookupRequest → Request
  registration_request : Registration → Request
  unregistration_request : Unregistration → Request
  get_domain : Request
  unknown_request : Request

-- request(dataProduct)
unfoldable pub request : Request → Directory → Response × Directory
unfolding handle_lookup handle_register handle_unregister
request (lookup_request q) s = handle_lookup q s
request (registration_request r) s = handle_register r s
request (unregistration_request u) s = handle_unregister u s
request get_domain s = (domain_name s.domain, s)
request unknown_request s = (nothing, s)

-- the requests of the directory's own service
pub data ServiceRequest : Type 0 where
  get_providers_request get_domain_request other_request : ServiceRequest

-- request(serviceID, request)
unfoldable pub service_request : String → ServiceRequest → Directory → Response × Directory
unfolding get_providers
service_request service_id get_providers_request s =
    let (providers, t) = get_providers s in
    if service_id == "DirectoryService" then (provider_map providers, t) else (nothing, s)
service_request service_id get_domain_request s =
    if service_id == "DirectoryService" then (domain_name s.domain, s) else (nothing, s)
service_request service_id other_request s = (nothing, s)

-- announce the products whose changes came before there was a way to
unfoldable pub send_updates : Set String → Directory → Directory
unfolding add_publishers publish
send_updates [] s = s
send_updates ((id, _) ∷ rest) s =
    let (response, t) = add_publishers id s.domain s in
    send_updates rest (publish (registered_publishers response id) t)

unfoldable pub process_pending : Directory → Directory
unfolding send_updates
process_pending s =
    if not s.registered_publishers_processed && s.registered_publishers_ready
    then record (send_updates s.register_updates_to_send s) {
      register_updates_to_send = [];
      registered_publishers_processed = true;
    }
    else s

-- one request of the main socket, inside the locked block of the loop
unfoldable pub serve : Request → Directory → Response × Directory
unfolding request process_pending
serve q s = let (response, t) = request q s in (response, process_pending t)

-- publishDomainUpdateMessage; the url is not part of the message
unfoldable pub publish_domain_update : String → ChangeType → Directory → Directory
unfolding publish
publish_domain_update domain kind s =
    publish
      (domain_update (record {
        known_domains = map (λ entry. entry.0) s.domain_map;
        update_domain = domain;
        kind = kind;
      }))
      s

-- what the UDP receiver reports, and what the main loop passes on to the synchronizer
pub data DomainCommand : Type 0 where
  add update : String → String → DomainCommand
  remove : String → DomainCommand

unfoldable pub domain_command : DomainCommand → Directory → DomainCommand × Directory
unfolding publish_domain_update
domain_command (add domain url) s =
    let t = record s { domain_map = insert domain url s.domain_map } in
    (add domain url, publish_domain_update domain added t)
domain_command (update domain url) s =
    (update domain url, record s { domain_map = insert domain url s.domain_map })
domain_command (remove domain) s =
    let t = record s { domain_map = erase domain s.domain_map } in
    (remove domain, publish_domain_update domain removed t)

-- One round of the main loop, or one request of the thread that serves the directory's service:
-- the lock keeps them apart, so a history is a sequence of such steps.
pub data Event : Type 0 where
  main_request : Request → Event
  own_request : String → ServiceRequest → Event
  from_receiver : DomainCommand → Event

unfoldable pub step : Event → Directory → Directory
unfolding serve service_request domain_command
step (main_request q) s = (serve q s).1
step (own_request id q) s = (service_request id q s).1
step (from_receiver c) s = (domain_command c s).1

unfoldable pub run : List Event → Directory → Directory
unfolding step
run [] s = s
run (e ∷ es) s = run es (step e s)

-- the state that start() enters its loop with
abbrev pub init : String → Directory
init domain = record {
  domain = domain;
  data_product_map = [];
  service_map = [];
  url_to_component_map = [];
  registration_instance_map = [];
  domain_map = [];
  registered_publishers_ready = false;
  registered_publishers_processed = false;
  register_updates_to_send = [];
  published = [];
}
