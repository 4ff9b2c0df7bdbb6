-- ===== src/Directory/View.antt =====
-- What the directory's maps say, whatever default entries reading them has left behind.
use gravity.Prelude.{ℕ, ◌≡◌, refl, ap, ◌∙◌, String, true, List, [], ◌∷◌, some, arith}
use gravity.Prelude.Key.{string_key}
use gravity.Prelude.Maps.{Map, lookup, get_or, touch, get_or-insert, get_or-touch, lookup-touch}
use gravity.Directory.Messages.{Publisher}
use gravity.Directory.State.{
  Directory, publishers_of, service_of, instance_of, open_products, open_publishers,
}
use gravity.Directory.Locations.{touch_url, touch_urls, touch_services, touch_products, urls}

-- Two states agree on their domain, on the flags and on every read of the provider maps.
pub record SameView (s t : Directory) : Type 0 where
  pub same_domain : t.domain ≡ s.domain
  pub same_publishers : (d i : String) → publishers_of t d i ≡ publishers_of s d i
  pub same_services : (d i : String) → service_of t d i ≡ service_of s d i
  pub same_instances : (url : String) → instance_of t url ≡ instance_of s url
  pub kept_instances :
      (url : String) (time : ℕ)
      → lookup url s.registration_instance_map ≡ some time
      → lookup url t.registration_instance_map ≡ some time
  pub same_ready : t.registered_publishers_ready ≡ s.registered_publishers_ready
  pub same_processed : t.registered_publishers_processed ≡ s.registered_publishers_processed
  pub settled :
      s.registered_publishers_ready ≡ true → t.register_updates_to_send ≡ s.register_updates_to_send

pub SameView-refl : (s : Directory) → SameView s s
SameView-refl s = record {
  same_domain = refl;
  same_publishers = λ d i. refl;
  same_services = λ d i. refl;
  same_instances = λ url. refl;
  kept_instances = λ url time h. h;
  same_ready = refl;
  same_processed = refl;
  settled = λ h. refl;
}

pub SameView-trans : {s t u : Directory} → SameView s t → SameView t u → SameView s u
SameView-trans a b = record {
  same_domain = b.same_domain ∙ a.same_domain;
  same_publishers = λ d i. b.same_publishers d i ∙ a.same_publishers d i;
  same_services = λ d i. b.same_services d i ∙ a.same_services d i;
  same_instances = λ url. b.same_instances url ∙ a.same_instances url;
  kept_instances = λ url time h. b.kept_instances url time (a.kept_instances url time h);
  same_ready = b.same_ready ∙ a.same_ready;
  same_processed = b.same_processed ∙ a.same_processed;
  settled = λ h. b.settled (a.same_ready ∙ h) ∙ a.settled h;
}

pub touch_keeps :
    (url u : String) (time : ℕ) (m : Map String ℕ)
    → lookup u m ≡ some time
    → lookup u (touch 0 url m) ≡ some time
touch_keeps url u time m h = ground (arith, lookup-touch 0 url u m, string_key.beq_iff url u)

touch_url-SameView : (url : String) (s : Directory) → SameView s (touch_url url s)
unfolding touch_url
touch_url-SameView url s = record {
  same_domain = refl;
  same_publishers = λ d i. refl;
  same_services = λ d i. refl;
  same_instances = λ u. get_or-touch 0 url u s.registration_instance_map;
  kept_instances = λ u time h. touch_keeps url u time s.registration_instance_map h;
  same_ready = refl;
  same_processed = refl;
  settled = λ h. refl;
}

touch_urls-SameView : (us : List String) (s : Directory) → SameView s (touch_urls us s)
unfolding touch_urls
touch_urls-SameView [] s = SameView-refl s
touch_urls-SameView (u ∷ us) s =
    SameView-trans (touch_url-SameView u s) (touch_urls-SameView us (touch_url u s))

pub touch_services-SameView :
    (m : Map String String) (s : Directory) → SameView s (touch_services m s)
unfolding touch_services
touch_services-SameView [] s = SameView-refl s
touch_services-SameView ((id, url) ∷ m) s =
    SameView-trans (touch_url-SameView url s) (touch_services-SameView m (touch_url url s))

pub touch_products-SameView :
    (m : Map String (List Publisher)) (s : Directory) → SameView s (touch_products m s)
unfolding touch_products
touch_products-SameView [] s = SameView-refl s
touch_products-SameView ((id, infos) ∷ m) s =
    SameView-trans (touch_urls-SameView (urls infos) s)
      (touch_products-SameView m (touch_urls (urls infos) s))

pub components-SameView :
    (m : Map String String) (s : Directory) → SameView s (record s { url_to_component_map = m })
components-SameView m s = record {
  same_domain = refl;
  same_publishers = λ d i. refl;
  same_services = λ d i. refl;
  same_instances = λ u. refl;
  kept_instances = λ u time h. h;
  same_ready = refl;
  same_processed = refl;
  settled = λ h. refl;
}

pub open_services-SameView :
    (domain : String) (s : Directory)
    → SameView s (record s { service_map = touch [] domain s.service_map })
open_services-SameView domain s = record {
  same_domain = refl;
  same_publishers = λ d i. refl;
  same_services = λ d i. ap (lookup i) (get_or-touch [] domain d s.service_map);
  same_instances = λ u. refl;
  kept_instances = λ u time h. h;
  same_ready = refl;
  same_processed = refl;
  settled = λ h. refl;
}

pub open_products-SameView : (domain : String) (s : Directory) → SameView s (open_products domain s)
unfolding open_products
open_products-SameView domain s = record {
  same_domain = refl;
  same_publishers = λ d i. ap (get_or [] i) (get_or-touch [] domain d s.data_product_map);
  same_services = λ d i. refl;
  same_instances = λ u. refl;
  kept_instances = λ u time h. h;
  same_ready = refl;
  same_processed = refl;
  settled = λ h. refl;
}

open_publishers_reads :
    (domain id d i : String) (s : Directory)
    → publishers_of (open_publishers domain id s) d i ≡ publishers_of s d i
unfolding open_publishers
open_publishers_reads domain id d i s =
    let old = get_or [] domain s.data_product_map in
    ground (
      arith,
      get_or-insert [] domain d (touch [] id old) s.data_product_map,
      get_or-touch [] id i old,
      string_key.beq_iff domain d,
    )

pub open_publishers-SameView :
    (domain id : String) (s : Directory) → SameView s (open_publishers domain id s)
unfolding open_publishers
open_publishers-SameView domain id s = record {
  same_domain = refl;
  same_publishers = λ d i. open_publishers_reads domain id d i s;
  same_services = λ d i. refl;
  same_instances = λ u. refl;
  kept_instances = λ u time h. h;
  same_ready = refl;
  same_processed = refl;
  settled = λ h. refl;
}
