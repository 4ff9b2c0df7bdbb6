-- ===== src/Directory/Tests.antt =====
-- Runs of the directory on concrete requests.
use gravity.Prelude.{
  ℕ, ◌≡◌, ◌≢◌, refl, String, true, false, not, ◌&&◌, List, [], ◌∷◌, none, some, or_else, nat_eq,
  if◌then◌else◌, arith,
}
use gravity.Prelude.Key.{◌==◌, string_key}
use gravity.Prelude.Maps.{lookup, insert, place, replace, touch}
use gravity.Directory.Messages.{
  Publisher, Registration, Unregistration, RegistrationType, data_product, service, publisher_list,
  service_location, directory_response, success,
}
use gravity.Directory.State.{Directory, publishers_of, service_of, instance_of, seconds}
use gravity.Directory.Publishers.{find_url}
use gravity.Directory.Register.{accepted, is_duplicate, handle_register, domain_or}
use gravity.Directory.Unregister.{handle_unregister}
use gravity.Directory.Requests.{
  registration_request, Event, main_request, own_request, handle_lookup, get_providers_request, run,
  init,
}
use gravity.Directory.Purged.{WellFormed}
use gravity.Directory.Keeping.{keep}
use gravity.Directory.Described.{described, handle_register-described, handle_unregister-described}
use gravity.Directory.Invariant.{Inv, run-init-Inv}
use gravity.Directory.Lookups.{asks, lookup-register_data}
use gravity.Directory.RoundTrips.{
  removal, lookup-register_service, unregister-register_service, unregister-register_data,
}
use gravity.Directory.Staleness.{stale_accepted}
use gravity.Directory.Takeover.{unregister_other_provider}

abbrev registers : RegistrationType → String → String → ℕ → Registration
registers kind id url timestamp = record {
  id = id;
  url = url;
  kind = kind;
  component_id = some "Camera";
  domain = none;
  timestamp = some timestamp;
  is_relay = none;
  ip_address = none;
}

abbrev image : Registration
image = registers data_product "Image" "tcp://camera:1" 5_000_000

abbrev zoom : Registration
zoom = registers service "Zoom" "tcp://camera:2" 6_000_000

abbrev zoom_elsewhere : Registration
zoom_elsewhere = registers service "Zoom" "tcp://spare:2" 8_000_000

abbrev history : List Event
history =
    main_request (registration_request image)
    ∷ main_request (registration_request zoom)
    ∷ own_request "DirectoryService" get_providers_request
    ∷ main_request (registration_request zoom_elsewhere)
    ∷ []

abbrev busy : Directory
busy = run history (init "Lab")

abbrev restarted : Registration
restarted = registers data_product "Depth" "tcp://camera:1" 9_000_000

run-init-Inv_example : Inv (run history (init "Lab"))
run-init-Inv_example = run-init-Inv "Lab" history

busy-WellFormed : WellFormed busy
busy-WellFormed = run-init-Inv_example.well_formed

handle_register-described_example :
    publishers_of (handle_register restarted busy).1 "Lab" "Image"
    ≡ described restarted busy "Lab" "Image"
handle_register-described_example =
    handle_register-described restarted busy busy-WellFormed "Lab" "Image"

abbrev image_publisher : Publisher
image_publisher = record {
  url = "tcp://camera:1";
  is_relay = none;
  component_id = some "Camera";
  ip_address = none;
  registration_time = 5;
}

abbrev late : Registration
late = registers data_product "Image" "tcp://camera:1" 4_000_000

abbrev zoom_again : Registration
zoom_again = registers service "Zoom" "tcp://camera:3" 9_500_000

-- what the history leaves
record Facts (s : Directory) : Type 0 where
  image_there : find_url "tcp://camera:1" (publishers_of s "Lab" "Image") ≡ some image_publisher
  depth_new : is_duplicate restarted 9 (publishers_of s "Lab" "Depth") ≡ false
  restarted_accepted : accepted restarted s ≡ some 9_000_000
  zoom_accepted : accepted zoom_again s ≡ some 9_500_000
  zoom_there : service_of s "Lab" "Zoom" ≡ some "tcp://spare:2"
  zoom_known : lookup "tcp://camera:2" s.registration_instance_map ≡ some 6_000_000
  image_known : instance_of s "tcp://camera:1" ≡ 5_000_000
  domain_eq : s.domain ≡ "Lab"

busy-Facts : Facts busy
unfolding run find_url accepted lookup insert place replace touch
busy-Facts = record {
  image_there = refl;
  depth_new = refl;
  restarted_accepted = refl;
  zoom_accepted = refl;
  zoom_there = refl;
  zoom_known = refl;
  image_known = refl;
  domain_eq = refl;
}

abbrev image_removal : Unregistration
image_removal = removal image data_product 5_000_000

abbrev zoom_removal : Unregistration
zoom_removal = removal zoom service 6_000_000

handle_unregister-described_example :
    publishers_of (handle_unregister image_removal busy).1 "Lab" "Image" ≡ (
      if (or_else busy.domain none == "Lab") && (image_removal.id == "Image")
      then keep
          (λ p. not (p.url == "tcp://camera:1" && nat_eq p.registration_time 5))
          (publishers_of busy "Lab" "Image")
      else publishers_of busy "Lab" "Image")
handle_unregister-described_example =
    handle_unregister-described image_removal busy busy-WellFormed "Lab" "Image"

lookup-register_data_example :
    (ps : List Publisher) × (p : Publisher) × ((handle_lookup
        (asks data_product "Depth" none)
        (handle_register restarted busy).1).0
      ≡ publisher_list
          (record { lookup_id = "Depth"; domain_id = domain_or busy none; publishers = ps }))
    × (find_url "tcp://camera:1" ps ≡ some p)
    × (p.registration_time ≡ seconds 9_000_000)
lookup-register_data_example =
    lookup-register_data restarted busy busy-WellFormed 9_000_000 busy-Facts.restarted_accepted refl
      none refl

image_is_not_depth : image.id ≢ restarted.id
image_is_not_depth e =
    let h : false ≡ true = (string_key.beq_iff image.id restarted.id).1 e in ground (arith, h)

depth_new_in_ours :
    is_duplicate restarted (seconds 9_000_000) (publishers_of busy (domain_or busy none) "Depth")
    ≡ false
depth_new_in_ours = ground (arith, busy-Facts.depth_new, busy-Facts.domain_eq)

lookup-register_service_example :
    (handle_lookup (asks service "Zoom" none) (handle_register zoom_again busy).1).0
    ≡ service_location (record {
      lookup_id = "Zoom";
      url = "tcp://camera:3";
      domain_id = domain_or busy none;
      registration_time = some (seconds 9_500_000);
    })
lookup-register_service_example =
    lookup-register_service zoom_again busy 9_500_000 busy-Facts.zoom_accepted refl none refl

unregister-register_service_example :
    ((handle_unregister
        (removal zoom_again service 9_500_000)
        (handle_register zoom_again busy).1).0
      ≡ directory_response "Zoom" success)
    × (service_of
          (handle_unregister
            (removal zoom_again service 9_500_000)
            (handle_register zoom_again busy).1).1
          (domain_or busy none)
          "Zoom"
        ≡ none)
unregister-register_service_example =
    unregister-register_service zoom_again busy 9_500_000 busy-Facts.zoom_accepted refl

unregister-register_data_example :
    ((handle_unregister
        (removal restarted data_product 9_000_000)
        (handle_register restarted busy).1).0
      ≡ directory_response "Depth" success)
    × (find_url "tcp://camera:1" (
          publishers_of
            (handle_unregister
              (removal restarted data_product 9_000_000)
              (handle_register restarted busy).1).1
            (domain_or busy none)
            "Depth")
        ≡ none)
unregister-register_data_example =
    unregister-register_data restarted busy busy-WellFormed 9_000_000 busy-Facts.restarted_accepted
      refl

image_in_ours :
    find_url "tcp://camera:1" (publishers_of busy busy.domain "Image") ≡ some image_publisher
image_in_ours = ground (arith, busy-Facts.image_there, busy-Facts.domain_eq)

stale_accepted_example : accepted late (handle_register restarted busy).1 ≡ some 4_000_000
stale_accepted_example =
    stale_accepted restarted busy 9_000_000 "Image" image_publisher busy-Facts.restarted_accepted
      refl image_is_not_depth image_in_ours depth_new_in_ours late 4_000_000 refl refl

zoom_in_ours : service_of busy (domain_or busy none) "Zoom" ≡ some "tcp://spare:2"
zoom_in_ours = ground (arith, busy-Facts.zoom_there, busy-Facts.domain_eq)

camera_is_not_spare : zoom.url ≢ zoom_elsewhere.url
camera_is_not_spare e =
    let h : false ≡ true = (string_key.beq_iff zoom.url zoom_elsewhere.url).1 e in ground (arith, h)

unregister_other_provider_example :
    ((handle_unregister zoom_removal busy).0 ≡ directory_response "Zoom" success)
    × (service_of (handle_unregister zoom_removal busy).1 (domain_or busy none) "Zoom" ≡ none)
unregister_other_provider_example =
    unregister_other_provider zoom_removal busy "tcp://spare:2" 6_000_000 refl zoom_in_ours
      busy-Facts.zoom_known refl camera_is_not_spare
