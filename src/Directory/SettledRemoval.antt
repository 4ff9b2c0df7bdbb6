-- ===== src/Directory/SettledRemoval.antt =====
-- The flags and the waiting announcements under handleUnregister.
use gravity.Prelude.{String, Bool, true, false, [], if◌then◌else◌}
use gravity.Prelude.Key.{◌==◌, string_key}
use gravity.Prelude.Maps.{get_or, erase, touch}
use gravity.Directory.Messages.{Unregistration, RegistrationType, data_product, service, removed}
use gravity.Directory.State.{
  Directory, publishers_of, instance_of, set_publishers, open_publishers, set_services,
}
use gravity.Directory.Publishers.{announce, drop_if_empty}
use gravity.Directory.Register.{domain_or}
use gravity.Directory.Unregister.{
  erase_registration, has_registration, finish_removal, remove_publisher, unregister_data,
  remove_service, unregister_service, unregister_kind, handle_unregister, is_service_registered,
}
use gravity.Directory.View.{SameView-refl, open_publishers-SameView, open_services-SameView}
use gravity.Directory.SilentWrites.{
  if-SameView, announce-SameView, update_product_locations-SameView,
}
use gravity.Directory.Purge.{drop_if_empty-Aside, set_publishers-Aside}
use gravity.Directory.Settled.{
  Settled, Settled-trans, SameView-Settled, Aside-Settled, forget-Settled, set_services-Settled,
}

finish_removal-Settled :
    (id url domain : String) (kind : RegistrationType) (s : Directory)
    → Settled s (finish_removal id url domain kind s)
unfolding finish_removal
finish_removal-Settled id url domain kind s =
    Settled-trans
      (SameView-Settled (
        if-SameView (domain == s.domain)
          (update_product_locations-SameView id url (instance_of s url) removed kind s)
          (SameView-refl s)))
      (forget-Settled _ _)

remove_publisher-Settled :
    (u : Unregistration) (domain : String) (s : Directory) → Settled s (remove_publisher u domain s)
unfolding remove_publisher
remove_publisher-Settled u domain s =
    let infos = erase_registration u.url u.registration_time (publishers_of s domain u.id) in
    let s0 = set_publishers domain u.id infos s in
    let s1 = drop_if_empty domain u.id s0 in
    Settled-trans (Aside-Settled u.url (set_publishers-Aside u.url domain u.id infos s)) (
      Settled-trans (Aside-Settled u.url (drop_if_empty-Aside u.url domain u.id s0)) (
        Settled-trans (SameView-Settled (announce-SameView u.id domain s1))
          (finish_removal-Settled u.id u.url domain data_product (announce u.id domain s1))))

found-Settled :
    (c : Bool) {s t u : Directory}
    → Settled s t
    → Settled s u
    → Settled s (let r : Bool × Directory = if c then (true, t) else (false, u) in r.1)
found-Settled true a b = a
found-Settled false a b = b

unregister_data-Settled :
    (u : Unregistration) (domain : String) (s : Directory)
    → Settled s (unregister_data u domain s).1
unfolding unregister_data
unregister_data-Settled u domain s =
    let s1 = open_publishers domain u.id s in
    let opened = SameView-Settled (open_publishers-SameView domain u.id s) in
    found-Settled (has_registration u.url u.registration_time (publishers_of s domain u.id))
      (Settled-trans opened (remove_publisher-Settled u domain s1)) opened

unregister_service-Settled :
    (u : Unregistration) (domain : String) (s : Directory)
    → Settled s (unregister_service u domain s).1
unfolding unregister_service remove_service
unregister_service-Settled u domain s =
    let s1 = record s { service_map = touch [] domain s.service_map } in
    let m = erase u.id (get_or [] domain s1.service_map) in
    let opened = SameView-Settled (open_services-SameView domain s) in
    found-Settled (is_service_registered u domain s)
      (Settled-trans opened (
        Settled-trans (set_services-Settled domain m s1)
          (finish_removal-Settled u.id u.url domain service (set_services domain m s1))))
      opened

pub handle_unregister-Settled :
    (u : Unregistration) (s : Directory) → Settled s (handle_unregister u s).1
unfolding handle_unregister unregister_kind
handle_unregister-Settled u s = go u.kind
  where
    go :
        (k : RegistrationType)
        → Settled s (
            let r : Bool × Directory = elim k [
              | data_product ↦ unregister_data u (domain_or s u.domain) s
              | service ↦ unregister_service u (domain_or s u.domain) s
            ] in
            r.1)
    go data_product = unregister_data-Settled u (domain_or s u.domain) s
    go service = unregister_service-Settled u (domain_or s u.domain) s
