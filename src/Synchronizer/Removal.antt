-- ===== src/Synchronizer/Removal.antt =====
-- What the removal of a domain makes the directory do.
use gravity.Prelude.{ℕ, ◌≡◌, refl, ◌∙◌, String, List, [], ◌∷◌, ◌++◌, some}
use gravity.Prelude.Key.{string_key}
use gravity.Directory.Messages.{ProductLocations, data_product}
use gravity.Directory.State.{Directory, service_of}
use gravity.Directory.Unregistered.{service_of-handle_unregister}
use gravity.Directory.Requests.{Request, request}
use gravity.Synchronizer.State.{
  Details, change_of, unregistration_update, url_removals, removals, domain_removals,
}

-- the directory handles the synchronizer's requests one after the other
unfoldable pub handle_all : List Request → Directory → Directory
unfolding request
handle_all [] s = s
handle_all (q ∷ qs) s = handle_all qs (request q s).1

handle_all-append :
    (qs rs : List Request) (s : Directory)
    → handle_all (qs ++ rs) s ≡ handle_all rs (handle_all qs s)
unfolding handle_all
handle_all-append [] rs s = refl
handle_all-append (q ∷ qs) rs s = handle_all-append qs rs (request q s).1

service_of-url_removals :
    (id domain : String) (time : ℕ) (us : List String) (s : Directory) (d i : String)
    → service_of (handle_all (url_removals id domain data_product time us) s) d i ≡ service_of s d i
unfolding handle_all request url_removals
service_of-url_removals id domain time [] s d i = refl
service_of-url_removals id domain time (url ∷ us) s d i =
    let q = unregistration_update id url domain data_product time in
    service_of-url_removals id domain time us (request q s).1 d i
    ∙ service_of-handle_unregister
        (record {
          id = id;
          url = url;
          kind = data_product;
          domain = some domain;
          registration_time = time;
        })
        s d i

service_of-removals :
    (domain : String) (time : ℕ) (ps : List ProductLocations) (s : Directory) (d i : String)
    → service_of (handle_all (removals domain data_product time ps) s) d i ≡ service_of s d i
unfolding handle_all removals
service_of-removals domain time [] s d i = refl
service_of-removals domain time (p ∷ ps) s d i =
    let first = url_removals p.product_id domain data_product time p.urls in
    rw (handle_all-append first (removals domain data_product time ps) s) (
      service_of-removals domain time ps (handle_all first s) d i
      ∙ service_of-url_removals p.product_id domain time p.urls s d i)

-- When the last change that a domain published was of a data product, the requests that the
-- synchronizer queues for the domain's removal, its services' included, leave every service of
-- the directory where it was: the removed domain's services can still be looked up.
pub service_of-domain_removals :
    (domain : String) (details : Details) (s : Directory)
    → (change_of details.provider_map).registration_type ≡ data_product
    → (d i : String)
    → service_of (handle_all (domain_removals domain details) s) d i ≡ service_of s d i
unfolding domain_removals
service_of-domain_removals domain details s kind d i =
    let time = details.registration_time in
    let m = details.provider_map in
    let services = removals domain data_product time m.service_providers in
    rw kind (
      rw (handle_all-append services (removals domain data_product time m.data_providers) s) (
        service_of-removals domain time m.data_providers (handle_all services s) d i
        ∙ service_of-removals domain time m.service_providers s d i))
