-- ===== src/Directory/Unregister.antt =====
-- handleUnregister.
use gravity.Prelude.{
  ℕ, String, Bool, true, false, ◌&&◌, List, [], ◌∷◌, if◌then◌else◌, nat_eq, is_some,
}
use gravity.Prelude.Key.{◌==◌, string_key}
use gravity.Prelude.Maps.{has, get_or, erase, touch}
use gravity.Directory.Messages.{
  Publisher, Unregistration, RegistrationType, Response, directory_response, success,
  not_registered, removed, data_product, service,
}
use gravity.Directory.State.{
  Directory, publishers_of, service_of, instance_of, seconds, set_publishers, open_publishers,
  set_services,
}
use gravity.Directory.Locations.{update_product_locations}
use gravity.Directory.Publishers.{announce, drop_if_empty}
use gravity.Directory.Register.{domain_or}

abbrev pub is_registered_at : String → ℕ → Publisher → Bool
is_registered_at url time p = p.url == url && nat_eq p.registration_time time

-- whether a publisher has the url and the registration time
unfoldable pub has_registration : String → ℕ → List Publisher → Bool
has_registration url time [] = false
has_registration url time (p ∷ ps) =
    if is_registered_at url time p then true else has_registration url time ps

-- the list without the first such publisher
unfoldable pub erase_registration : String → ℕ → List Publisher → List Publisher
erase_registration url time [] = []
erase_registration url time (p ∷ ps) =
    if is_registered_at url time p then ps else p ∷ erase_registration url time ps

-- the end of both kinds of removal: tell our own domain, and forget the url's registration
unfoldable pub finish_removal : String → String → String → RegistrationType → Directory → Directory
unfolding update_product_locations
finish_removal id url domain kind s =
    let t =
      (if domain == s.domain
        then update_product_locations id url (instance_of s url) removed kind s
        else s) in
    record t { registration_instance_map = erase url t.registration_instance_map }

unfoldable pub remove_publisher : Unregistration → String → Directory → Directory
unfolding set_publishers drop_if_empty announce finish_removal
remove_publisher u domain s =
    let infos = erase_registration u.url u.registration_time (publishers_of s domain u.id) in
    let s1 = drop_if_empty domain u.id (set_publishers domain u.id infos s) in
    finish_removal u.id u.url domain data_product (announce u.id domain s1)

unfoldable pub unregister_data : Unregistration → String → Directory → Bool × Directory
unfolding open_publishers remove_publisher
unregister_data u domain s =
    let s1 = open_publishers domain u.id s in
    if has_registration u.url u.registration_time (publishers_of s domain u.id)
    then (true, remove_publisher u domain s1)
    else (false, s1)

unfoldable pub remove_service : Unregistration → String → Directory → Directory
unfolding set_services finish_removal
remove_service u domain s =
    finish_removal u.id u.url domain service
      (set_services domain (erase u.id (get_or [] domain s.service_map)) s)

-- the service is known, and the url has a registration at that time
abbrev pub is_service_registered : Unregistration → String → Directory → Bool
is_service_registered u domain s =
    is_some (service_of s domain u.id)
    && has u.url s.registration_instance_map
    && nat_eq (seconds (instance_of s u.url)) u.registration_time

unfoldable pub unregister_service : Unregistration → String → Directory → Bool × Directory
unfolding remove_service
unregister_service u domain s =
    let s1 = record s { service_map = touch [] domain s.service_map } in
    if is_service_registered u domain s then (true, remove_service u domain s1) else (false, s1)

unfoldable pub unregister_kind : Unregistration → String → Directory → Bool × Directory
unfolding unregister_data unregister_service
unregister_kind u domain s = elim u.kind [
  | data_product ↦ unregister_data u domain s
  | service ↦ unregister_service u domain s
]

-- handleUnregister
unfoldable pub handle_unregister : Unregistration → Directory → Response × Directory
unfolding unregister_kind
handle_unregister u s =
    let (found, t) = unregister_kind u (domain_or s u.domain) s in
    (directory_response u.id (if found then success else not_registered), t)
