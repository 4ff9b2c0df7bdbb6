-- ===== src/Synchronizer/Tests.antt =====
-- A synchronizer that hears of a domain, subscribes to it and registers its providers.
use gravity.Prelude.{ℕ, ◌+◌, ◌≤◌, ◌≡◌, refl, true, List, [], ◌∷◌, ◌++◌, none, some, length}
use gravity.Prelude.Maps.{get_or, insert, place, replace, lookup, erase}
use gravity.Prelude.Key.{string_key}
use gravity.Directory.Messages.{Publisher, ProductLocations, ProviderMap, service, added}
use gravity.Directory.State.{Directory, service_of}
use gravity.Directory.Locations.{own_locations}
use gravity.Directory.Requests.{Request, add, init as directory_init}
use gravity.Synchronizer.State.{
  Details, Sync, domain_removals, initial_updates, registration_update,
}
use gravity.Synchronizer.Remotes.{Remote, lookup_answer, details_update}
use gravity.Synchronizer.Loop.{Input, command_input, no_input, run, init}
use gravity.Synchronizer.Told.{told}
use gravity.Synchronizer.History.{history, run-history}
use gravity.Synchronizer.Sending.{responses, answered_rounds, run-init, run-answered_rounds}
use gravity.Synchronizer.Updates.{service_updates, product_updates, initial_updates-own_locations}
use gravity.Synchronizer.Removal.{handle_all, service_of-domain_removals}

abbrev details_publisher : Publisher
details_publisher = record {
  url = "tcp://lab:2";
  is_relay = none;
  component_id = none;
  ip_address = none;
  registration_time = 8;
}

abbrev zoom_at : ProductLocations
zoom_at = record {
  product_id = "Zoom";
  urls = "tcp://lab:3" ∷ [];
  component_ids = "Camera" ∷ [];
  domain_ids = "Lab" ∷ [];
  timestamps = 9_000_000 ∷ [];
}

abbrev providers : ProviderMap
providers = record {
  service_providers = zoom_at ∷ [];
  data_providers = [];
  change = none;
  domain = "Lab";
}

-- the socket 0 asks, and the socket 1 subscribes
abbrev from_lab : List (Input × List (ℕ × Remote))
from_lab =
    (command_input (add "Lab" "tcp://lab:1"), [])
    ∷ (
      no_input,
      (
        0,
        record {
          has_bytes = true;
          registration_time = 0;
          domain = "Lab";
          content = lookup_answer (record {
            lookup_id = "DOMAIN_DETAILS";
            domain_id = "Lab";
            publishers = details_publisher ∷ [];
          });
        },
      )
          ∷ [],
    )
    ∷ (
      no_input,
      (
        1,
        record {
          has_bytes = true;
          registration_time = 8;
          domain = "Lab";
          content = details_update providers;
        },
      )
          ∷ [],
    )
    ∷ []

abbrev lab : Details
lab = record {
  domain = "Lab";
  ip_address = "tcp://lab:1";
  socket = 1;
  initialized = true;
  provider_map = providers;
  registration_time = 8;
}

abbrev zoom : Request
zoom = registration_update "Zoom" "tcp://lab:3" "Camera" "Lab" service 9_000_000

-- the state after it
abbrev synced : Sync
synced = record {
  objects = (0, lab) ∷ [];
  next_object = 1;
  next_socket = 2;
  sync_map = ("Lab", 0) ∷ [];
  socket_map = (1, 0) ∷ [];
  poll_items = 1 ∷ [];
  registration_updates = [];
  pending_response = true;
  lookups = (0, "Lab") ∷ [];
  requests = zoom ∷ [];
}

run-from_lab : run from_lab init ≡ some synced
unfolding run lookup insert place erase replace
run-from_lab = refl

run-history_example : history synced ≡ history init ++ told from_lab init
run-history_example = run-history from_lab init synced run-from_lab

run-init_example : length synced.requests ≤ responses from_lab + 1
run-init_example = run-init from_lab synced run-from_lab

abbrev waiting : Sync
waiting = record synced { registration_updates = zoom ∷ zoom ∷ [] }

run-answered_rounds_example :
    (t : Sync) × (run (answered_rounds 2) waiting ≡ some t)
    × (t.registration_updates ≡ [])
    × (t.requests ≡ waiting.requests ++ zoom ∷ zoom ∷ [])
run-answered_rounds_example = run-answered_rounds (zoom ∷ zoom ∷ []) waiting refl

abbrev directory : Directory
directory = handle_all (zoom ∷ []) (directory_init "Lab")

initial_updates-own_locations_example :
    initial_updates directory.domain
      (own_locations "Zoom" "tcp://lab:3" 9_000_000 added service directory)
    ≡ some (
        service_updates directory directory.domain
          (get_or [] directory.domain directory.service_map)
        ++ product_updates directory directory.domain
            (get_or [] directory.domain directory.data_product_map))
initial_updates-own_locations_example =
    initial_updates-own_locations directory "Zoom" "tcp://lab:3" 9_000_000 added service

service_of-domain_removals_example :
    service_of (handle_all (domain_removals "Lab" lab) directory) "Lab" "Zoom"
    ≡ service_of directory "Lab" "Zoom"
service_of-domain_removals_example =
    service_of-domain_removals "Lab" lab directory refl "Lab" "Zoom"
