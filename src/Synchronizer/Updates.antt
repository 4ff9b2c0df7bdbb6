-- ===== src/Synchronizer/Updates.antt =====
-- The first update from another directory: what its whole provider map makes the synchronizer
-- register.
use gravity.Prelude.{ℕ, ◌≡◌, refl, String, List, [], ◌∷◌, ◌++◌, map, some}
use gravity.Prelude.Key.{string_key}
use gravity.Prelude.Maps.{Map, get_or}
use gravity.Directory.Messages.{Publisher, RegistrationType, data_product, service, ChangeType}
use gravity.Directory.State.{Directory, component_of, instance_of}
use gravity.Directory.Locations.{urls, service_locations, data_locations, own_locations}
use gravity.Directory.Requests.{Request}
use gravity.Synchronizer.State.{
  registration_update, url_registrations, registrations, initial_updates,
}

-- the registration of a url that another directory knows
abbrev pub known_update : Directory → String → RegistrationType → String → String → Request
known_update s domain kind id url =
    registration_update id url (component_of s url) domain kind (instance_of s url)

abbrev pub service_updates : Directory → String → Map String String → List Request
service_updates s domain [] = []
service_updates s domain ((id, url) ∷ m) =
    known_update s domain service id url ∷ service_updates s domain m

abbrev pub product_updates : Directory → String → Map String (List Publisher) → List Request
product_updates s domain [] = []
product_updates s domain ((id, infos) ∷ m) =
    map (known_update s domain data_product id) (urls infos) ++ product_updates s domain m

url_registrations_lem :
    (s : Directory) (domain id : String) (kind : RegistrationType) (us : List String)
    → url_registrations id domain kind us (map (component_of s) us) (map (instance_of s) us)
      ≡ some (map (known_update s domain kind id) us)
unfolding url_registrations
url_registrations_lem s domain id kind [] = refl
url_registrations_lem s domain id kind (url ∷ us) =
    rw (url_registrations_lem s domain id kind us) refl

registrations-service_locations :
    (s : Directory) (domain : String) (m : Map String String)
    → registrations domain service (service_locations s domain m)
      ≡ some (service_updates s domain m)
unfolding registrations url_registrations
registrations-service_locations s domain [] = refl
registrations-service_locations s domain ((id, url) ∷ m) =
    rw (registrations-service_locations s domain m) refl

registrations-data_locations :
    (s : Directory) (domain : String) (m : Map String (List Publisher))
    → registrations domain data_product (data_locations s domain m)
      ≡ some (product_updates s domain m)
unfolding registrations
registrations-data_locations s domain [] = refl
registrations-data_locations s domain ((id, infos) ∷ m) =
    rw (url_registrations_lem s domain id data_product (urls infos), registrations)
      (rw (registrations-data_locations s domain m) refl)

-- The provider map that a directory publishes is well formed for the synchronizer of another: its
-- first update reads past no list, and makes one registration for each service and each publisher
-- of the directory's own domain, with the component and the time that the directory knows.
pub initial_updates-own_locations :
    (s : Directory) (id url : String) (timestamp : ℕ) (change : ChangeType)
    (kind : RegistrationType)
    → initial_updates s.domain (own_locations id url timestamp change kind s)
      ≡ some (
          service_updates s s.domain (get_or [] s.domain s.service_map)
          ++ product_updates s s.domain (get_or [] s.domain s.data_product_map))
unfolding initial_updates own_locations
initial_updates-own_locations s id url timestamp change kind =
    rw
      (
        registrations-service_locations s s.domain (get_or [] s.domain s.service_map),
        initial_updates,
      )
      (rw (registrations-data_locations s s.domain (get_or [] s.domain s.data_product_map)) refl)
