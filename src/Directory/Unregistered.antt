-- ===== src/Directory/Unregistered.antt =====
-- What handleUnregister leaves of the provider maps, and what it answers.
use gravity.Prelude.{
  ℕ, ◌≡◌, refl, ◌∙◌, String, Bool, true, false, ◌&&◌, List, [], ◌∷◌, if◌then◌else◌, none, arith,
}
use gravity.Prelude.Key.{◌==◌, string_key}
use gravity.Prelude.Maps.{get_or, erase, touch, get_or-insert, lookup-erase, get_or-touch}
use gravity.Directory.Messages.{
  Publisher, Unregistration, RegistrationType, directory_response, success, not_registered,
  data_product, service, removed,
}
use gravity.Directory.State.{
  Directory, publishers_of, service_of, instance_of, set_publishers, open_publishers, set_services,
}
use gravity.Directory.Publishers.{announce, drop_if_empty}
use gravity.Directory.Register.{domain_or}
use gravity.Directory.Unregister.{
  has_registration, erase_registration, finish_removal, remove_publisher, unregister_data,
  is_service_registered, remove_service, unregister_service, unregister_kind, handle_unregister,
}
use gravity.Directory.View.{SameView-refl, open_publishers-SameView}
use gravity.Directory.SilentWrites.{
  if-SameView, announce-SameView, update_product_locations-SameView,
}
use gravity.Directory.Purge.{drop_if_empty-Aside, set_publishers-Aside}
use gravity.Directory.Purged.{publishers_of-set_publishers, publishers_of-drop_if_empty}

erase_registration-absent :
    (url : String) (time : ℕ) (ps : List Publisher)
    → has_registration url time ps ≡ false
    → erase_registration url time ps ≡ ps
unfolding has_registration erase_registration
erase_registration-absent url time [] h = refl
erase_registration-absent url time (p ∷ ps) h =
    ground (arith, erase_registration-absent url time ps)

publishers_of-finish_removal :
    (id url domain : String) (kind : RegistrationType) (s : Directory) (d i : String)
    → publishers_of (finish_removal id url domain kind s) d i ≡ publishers_of s d i
unfolding finish_removal
publishers_of-finish_removal id url domain kind s d i =
    (if-SameView (domain == s.domain)
        (update_product_locations-SameView id url (instance_of s url) removed kind s)
        (SameView-refl s)).same_publishers
      d i

service_of-finish_removal :
    (id url domain : String) (kind : RegistrationType) (s : Directory) (d i : String)
    → service_of (finish_removal id url domain kind s) d i ≡ service_of s d i
unfolding finish_removal
service_of-finish_removal id url domain kind s d i =
    (if-SameView (domain == s.domain)
        (update_product_locations-SameView id url (instance_of s url) removed kind s)
        (SameView-refl s)).same_services
      d i

publishers_of-remove_publisher :
    (u : Unregistration) (domain : String) (s : Directory) (d i : String)
    → publishers_of (remove_publisher u domain s) d i ≡ (
        if (domain == d) && (u.id == i)
        then erase_registration u.url u.registration_time (publishers_of s domain u.id)
        else publishers_of s d i)
unfolding remove_publisher
publishers_of-remove_publisher u domain s d i =
    let infos = erase_registration u.url u.registration_time (publishers_of s domain u.id) in
    let s0 = set_publishers domain u.id infos s in
    let s1 = drop_if_empty domain u.id s0 in
    publishers_of-finish_removal u.id u.url domain data_product (announce u.id domain s1) d i
    ∙ (announce-SameView u.id domain s1).same_publishers d i
    ∙ publishers_of-drop_if_empty domain u.id s0 d i
    ∙ publishers_of-set_publishers domain u.id infos s d i

service_of-remove_publisher :
    (u : Unregistration) (domain : String) (s : Directory) (d i : String)
    → service_of (remove_publisher u domain s) d i ≡ service_of s d i
unfolding remove_publisher
service_of-remove_publisher u domain s d i =
    let infos = erase_registration u.url u.registration_time (publishers_of s domain u.id) in
    let s0 = set_publishers domain u.id infos s in
    let s1 = drop_if_empty domain u.id s0 in
    service_of-finish_removal u.id u.url domain data_product (announce u.id domain s1) d i
    ∙ (announce-SameView u.id domain s1).same_services d i
    ∙ (drop_if_empty-Aside u.url domain u.id s0).same_services d i
    ∙ (set_publishers-Aside u.url domain u.id infos s).same_services d i

-- The publishers after handleUnregister.
abbrev pub unregistered : Unregistration → Directory → String → String → List Publisher
unregistered u s d i = elim u.kind [
  | data_product ↦
      if (domain_or s u.domain == d) && (u.id == i)
      then erase_registration u.url u.registration_time (publishers_of s d i)
      else publishers_of s d i
  | service ↦ publishers_of s d i
]

publishers_of-unregister_data :
    (u : Unregistration) (domain : String) (s : Directory) (d i : String)
    → publishers_of (unregister_data u domain s).1 d i ≡ (
        if (domain == d) && (u.id == i)
        then erase_registration u.url u.registration_time (publishers_of s d i)
        else publishers_of s d i)
unfolding unregister_data
publishers_of-unregister_data u domain s d i =
    let s1 = open_publishers domain u.id s in
    let v = open_publishers-SameView domain u.id s in
    ground (
      arith,
      v.same_publishers d i,
      v.same_publishers domain u.id,
      publishers_of-remove_publisher u domain s1 d i,
      erase_registration-absent u.url u.registration_time (publishers_of s domain u.id),
      string_key.beq_iff domain d,
      string_key.beq_iff u.id i,
    )

service_of-unregister_data :
    (u : Unregistration) (domain : String) (s : Directory) (d i : String)
    → service_of (unregister_data u domain s).1 d i ≡ service_of s d i
unfolding unregister_data
service_of-unregister_data u domain s d i =
    let s1 = open_publishers domain u.id s in
    ground (
      arith,
      (open_publishers-SameView domain u.id s).same_services d i,
      service_of-remove_publisher u domain s1 d i,
    )

publishers_of-unregister_service :
    (u : Unregistration) (domain : String) (s : Directory) (d i : String)
    → publishers_of (unregister_service u domain s).1 d i ≡ publishers_of s d i
unfolding unregister_service remove_service set_services
publishers_of-unregister_service u domain s d i =
    let s1 = record s { service_map = touch [] domain s.service_map } in
    let s2 = set_services domain (erase u.id (get_or [] domain s1.service_map)) s1 in
    ground (arith, publishers_of-finish_removal u.id u.url domain service s2 d i)

service_of-unregister_service :
    (u : Unregistration) (domain : String) (s : Directory) (d i : String)
    → service_of (unregister_service u domain s).1 d i ≡ (
        if is_service_registered u domain s && (domain == d) && (u.id == i)
        then none
        else service_of s d i)
unfolding unregister_service remove_service set_services
service_of-unregister_service u domain s d i =
    let s1 = record s { service_map = touch [] domain s.service_map } in
    let old = get_or [] domain s1.service_map in
    let s2 = set_services domain (erase u.id old) s1 in
    ground (
      arith,
      service_of-finish_removal u.id u.url domain service s2 d i,
      get_or-insert [] domain d (erase u.id old) s1.service_map,
      lookup-erase u.id i old,
      get_or-touch [] domain domain s.service_map,
      get_or-touch [] domain d s.service_map,
      string_key.beq_iff domain d,
    )

-- For every domain and product, handleUnregister takes the publisher with the url and the
-- registration time out of the list that it names, and no other; a service leaves the lists alone.
pub publishers_of-handle_unregister :
    (u : Unregistration) (s : Directory) (d i : String)
    → publishers_of (handle_unregister u s).1 d i ≡ unregistered u s d i
unfolding handle_unregister unregister_kind
publishers_of-handle_unregister u s d i = ground (
  arith,
  publishers_of-unregister_data u (domain_or s u.domain) s d i,
  publishers_of-unregister_service u (domain_or s u.domain) s d i,
)

abbrev pub is_service : RegistrationType → Bool
is_service data_product = false
is_service service = true

-- A service leaves the map exactly when the request is for one, the service is known, and the
-- url's registration has the time that the request gives.
pub service_of-handle_unregister :
    (u : Unregistration) (s : Directory) (d i : String)
    → service_of (handle_unregister u s).1 d i ≡ (
        if is_service u.kind
          && is_service_registered u (domain_or s u.domain) s
          && (domain_or s u.domain == d)
          && (u.id == i)
        then none
        else service_of s d i)
unfolding handle_unregister unregister_kind
service_of-handle_unregister u s d i = ground (
  arith,
  service_of-unregister_data u (domain_or s u.domain) s d i,
  service_of-unregister_service u (domain_or s u.domain) s d i,
)

abbrev pub is_found : Unregistration → Directory → Bool
is_found u s = elim u.kind [
  | data_product ↦
      has_registration u.url u.registration_time (publishers_of s (domain_or s u.domain) u.id)
  | service ↦ is_service_registered u (domain_or s u.domain) s
]

-- The answer is SUCCESS exactly when the provider was found.
pub handle_unregister_answer :
    (u : Unregistration) (s : Directory)
    → (handle_unregister u s).0
      ≡ directory_response u.id (if is_found u s then success else not_registered)
unfolding handle_unregister unregister_kind unregister_data unregister_service
handle_unregister_answer u s = ground arith
