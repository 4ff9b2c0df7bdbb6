-- ===== src/Directory/ReadOnly.antt =====
-- The operations that change no provider: lookups, the directory's own service, the domain commands
-- and the announcements.
use gravity.Prelude.{refl, String, List, [], ◌∷◌, Option, none, some}
use gravity.Prelude.Key.{◌==◌, string_key}
use gravity.Prelude.Maps.{Map, Set, insert, erase, touch}
use gravity.Directory.Messages.{
  Publisher, LookupRequest, RegistrationType, data_product, service, registered_publishers,
  Response, publisher_list,
}
use gravity.Directory.State.{Directory, service_of, open_products, publish}
use gravity.Directory.Locations.{
  get_providers, touch_services, touch_products, touch_all_services, touch_all_products,
}
use gravity.Directory.Publishers.{add_publishers, lookup_response}
use gravity.Directory.Requests.{
  ServiceRequest, get_providers_request, get_domain_request, other_request, DomainCommand, add,
  update, remove, handle_lookup, lookup_service, lookup_domain, service_request, send_updates,
  publish_domain_update, domain_command,
}
use gravity.Directory.View.{
  SameView, SameView-refl, SameView-trans, open_products-SameView, touch_services-SameView,
  touch_products-SameView,
}
use gravity.Directory.SilentWrites.{pick-SameView, publish-SameView, touch_instance-SameView}

-- The reads leave the view as it is.
lookup_service-SameView :
    (id domain : String) (s : Directory) → SameView s (lookup_service id domain s).1
unfolding lookup_service
lookup_service-SameView id domain s = go (service_of s domain id)
  where
    go :
        (o : Option String)
        → SameView s (elim o [
          | none ↦ s
          | some url ↦ record s {
            registration_instance_map = touch 0 url s.registration_instance_map;
          }
        ])
    go none = SameView-refl s
    go (some url) = touch_instance-SameView url s

-- A lookup, whose reads can make missing entries of the maps, changes no publisher, no service and
-- no known time of a url.
pub handle_lookup-SameView : (q : LookupRequest) (s : Directory) → SameView s (handle_lookup q s).1
unfolding handle_lookup add_publishers
handle_lookup-SameView q s = go q.kind
  where
    domain : String
    domain = lookup_domain s q.domain_id

    go :
        (k : RegistrationType)
        → SameView s (
            let r : Response × Directory = elim k [
              | data_product ↦
                  (publisher_list (lookup_response s domain q.lookup_id), open_products domain s)
              | service ↦ lookup_service q.lookup_id domain s
            ] in
            r.1)
    go data_product = open_products-SameView domain s
    go service = lookup_service-SameView q.lookup_id domain s

touch_all_services-SameView :
    (m : Map String (Map String String)) (s : Directory) → SameView s (touch_all_services m s)
unfolding touch_all_services
touch_all_services-SameView [] s = SameView-refl s
touch_all_services-SameView ((domain, m) ∷ rest) s =
    SameView-trans (touch_services-SameView m s)
      (touch_all_services-SameView rest (touch_services m s))

touch_all_products-SameView :
    (m : Map String (Map String (List Publisher))) (s : Directory)
    → SameView s (touch_all_products m s)
unfolding touch_all_products
touch_all_products-SameView [] s = SameView-refl s
touch_all_products-SameView ((domain, m) ∷ rest) s =
    SameView-trans (touch_products-SameView m s)
      (touch_all_products-SameView rest (touch_products m s))

pub get_providers-SameView : (s : Directory) → SameView s (get_providers s).1
unfolding get_providers
get_providers-SameView s =
    SameView-trans (touch_all_services-SameView s.service_map s)
      (touch_all_products-SameView s.data_product_map (touch_all_services s.service_map s))

domain_map-SameView :
    (m : Map String String) (s : Directory) → SameView s (record s { domain_map = m })
domain_map-SameView m s = record {
  same_domain = refl;
  same_publishers = λ d i. refl;
  same_services = λ d i. refl;
  same_instances = λ u. refl;
  kept_instances = λ u time h. h;
  same_ready = refl;
  same_processed = refl;
  settled = λ h. refl;
}

pub domain_command-SameView :
    (c : DomainCommand) (s : Directory) → SameView s (domain_command c s).1
unfolding domain_command publish_domain_update
domain_command-SameView (add domain url) s =
    SameView-trans (domain_map-SameView (insert domain url s.domain_map) s) (publish-SameView _ _)
domain_command-SameView (update domain url) s =
    domain_map-SameView (insert domain url s.domain_map) s
domain_command-SameView (remove domain) s =
    SameView-trans (domain_map-SameView (erase domain s.domain_map) s) (publish-SameView _ _)

-- No request of the directory's own service changes a publisher, a service or a known time of a
-- url, though GetProviders makes missing entries of the maps.
pub service_request-SameView :
    (id : String) (q : ServiceRequest) (s : Directory) → SameView s (service_request id q s).1
unfolding service_request
service_request-SameView id get_providers_request s =
    pick-SameView _ _ (id == "DirectoryService") (get_providers-SameView s) (SameView-refl s)
service_request-SameView id get_domain_request s =
    pick-SameView _ _ (id == "DirectoryService") (SameView-refl s) (SameView-refl s)
service_request-SameView id other_request s = SameView-refl s

pub send_updates-SameView : (m : Set String) (s : Directory) → SameView s (send_updates m s)
unfolding send_updates add_publishers
send_updates-SameView [] s = SameView-refl s
send_updates-SameView ((id, _) ∷ rest) s =
    let t = open_products s.domain s in
    let p = registered_publishers (lookup_response s s.domain id) id in
    SameView-trans (open_products-SameView s.domain s)
      (SameView-trans (publish-SameView p t) (send_updates-SameView rest (publish p t)))
