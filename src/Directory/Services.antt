-- ===== src/Directory/Services.antt =====
-- The service providers: what registering one leaves, and what a lookup of it answers.
use gravity.Prelude.{
  ℕ, ◌≡◌, refl, ◌∙◌, String, not, ◌&&◌, [], if◌then◌else◌, Option, none, some, arith,
}
use gravity.Prelude.Key.{◌==◌, string_key, beq_refl}
use gravity.Prelude.Maps.{get_or, lookup, insert, get_or-insert, lookup-insert}
use gravity.Directory.Messages.{Registration, RegistrationType, data_product, service, added}
use gravity.Directory.State.{
  Directory, publishers_of, service_of, seconds, set_publishers, set_services, open_publishers,
  registered_publishers_id,
}
use gravity.Directory.Publishers.{announce, purge_obsolete_publishers}
use gravity.Directory.Register.{
  accepted, handle_register, domain_or, put_publisher, note_ready, set_instance, set_component,
  store_publisher, repeat_publisher, register_data, register_service, register_kind,
}
use gravity.Directory.View.{SameView-refl, open_publishers-SameView}
use gravity.Directory.SilentWrites.{
  if-SameView, announce-SameView, update_product_locations-SameView,
}
use gravity.Directory.Purge.{purge-Aside, set_publishers-Aside}

service_of-store_publisher :
    (r : Registration) (domain : String) (time : ℕ) (s : Directory) (d i : String)
    → service_of (store_publisher r domain time s) d i ≡ service_of s d i
unfolding store_publisher set_component
service_of-store_publisher r domain time s d i =
    let infos = put_publisher r (seconds time) (publishers_of s domain r.id) in
    let s0 = set_publishers domain r.id infos s in
    let s1 = set_component r.url r.component_id s0 in
    let s2 = announce r.id domain s1 in
    let s3 = purge_obsolete_publishers r.id r.url s2 in
    (if-SameView (domain == s.domain && not (r.id == registered_publishers_id))
        (update_product_locations-SameView r.id r.url time added data_product s3)
        (SameView-refl s3)).same_services
      d i
    ∙ (purge-Aside r.id r.url s2).same_services d i
    ∙ (announce-SameView r.id domain s1).same_services d i
    ∙ (set_publishers-Aside r.url domain r.id infos s).same_services d i

service_of-register_data :
    (r : Registration) (domain : String) (time : ℕ) (s : Directory) (d i : String)
    → service_of (register_data r domain time s) d i ≡ service_of s d i
unfolding register_data repeat_publisher note_ready set_instance
service_of-register_data r domain time s d i =
    let s0 = note_ready r.id s in
    let s1 = set_instance r.url time (open_publishers domain r.id s0) in
    ground (
      arith,
      (open_publishers-SameView domain r.id s0).same_services d i,
      (if-SameView (domain == s1.domain)
            (update_product_locations-SameView r.id r.url time added data_product s1)
            (SameView-refl s1)).same_services
          d i,
      service_of-store_publisher r domain time s1 d i,
    )

service_of-register_service :
    (r : Registration) (domain : String) (time : ℕ) (s : Directory) (d i : String)
    → service_of (register_service r domain time s) d i
      ≡ (if (domain == d) && (r.id == i) then some r.url else service_of s d i)
unfolding register_service set_services set_component set_instance
service_of-register_service r domain time s d i =
    let old = get_or [] domain s.service_map in
    let s0 = set_services domain (insert r.id r.url old) s in
    let s1 = set_component r.url r.component_id s0 in
    let s2 = purge_obsolete_publishers r.id r.url s1 in
    let s3 = set_instance r.url time s2 in
    (if-SameView (domain == s.domain)
        (update_product_locations-SameView r.id r.url time added service s3)
        (SameView-refl s3)).same_services
      d i
    ∙ (purge-Aside r.id r.url s1).same_services d i
    ∙ ground (
      arith,
      get_or-insert [] domain d (insert r.id r.url old) s.service_map,
      lookup-insert r.id i r.url old,
      string_key.beq_iff domain d,
    )

-- The service's url is registered at the timestamp, whatever reads come after.
pub instance-register_service :
    (r : Registration) (domain : String) (time : ℕ) (s : Directory)
    → lookup r.url (register_service r domain time s).registration_instance_map ≡ some time
unfolding register_service set_instance
instance-register_service r domain time s =
    let s0 = set_services domain (insert r.id r.url (get_or [] domain s.service_map)) s in
    let s1 = set_component r.url r.component_id s0 in
    let s2 = purge_obsolete_publishers r.id r.url s1 in
    let s3 = set_instance r.url time s2 in
    (if-SameView (domain == s.domain)
        (update_product_locations-SameView r.id r.url time added service s3)
        (SameView-refl s3)).kept_instances
      r.url time
      (ground (arith, lookup-insert r.url r.url time s2.registration_instance_map, beq_refl r.url))

-- The service's url after handleRegister.
abbrev pub service_as :
    Option ℕ → RegistrationType → Registration → Directory → String → String → Option String
service_as none k r s d i = service_of s d i
service_as (some time) data_product r s d i = service_of s d i
service_as (some time) service r s d i =
    if (domain_or s r.domain == d) && (r.id == i) then some r.url else service_of s d i

-- handleRegister changes the url of the service that it registers, if it is not ignored, and of
-- no other.
pub service_of-handle_register :
    (r : Registration) (s : Directory) (d i : String)
    → service_of (handle_register r s).1 d i ≡ service_as (accepted r s) r.kind r s d i
unfolding handle_register register_kind
service_of-handle_register r s d i = go (accepted r s) r.kind
  where
    go :
        (a : Option ℕ) (k : RegistrationType)
        → service_of
            (elim a [
              | none ↦ s
              | some timestamp ↦ elim k [
                | data_product ↦ register_data r (domain_or s r.domain) timestamp s
                | service ↦ register_service r (domain_or s r.domain) timestamp s
              ]
            ])
            d
            i
          ≡ service_as a k r s d i
    go none k = refl
    go (some time) data_product = service_of-register_data r (domain_or s r.domain) time s d i
    go (some time) service = service_of-register_service r (domain_or s r.domain) time s d i
