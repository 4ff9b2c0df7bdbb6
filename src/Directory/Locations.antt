-- ===== src/Directory/Locations.antt =====
-- The provider maps that the directory sends: GetProviders, and updateProductLocations after a
-- change.
use gravity.Prelude.{ℕ, String, List, [], ◌∷◌, ◌++◌, map, some, none}
use gravity.Prelude.Key.{string_key}
use gravity.Prelude.Maps.{Map, get_or, touch}
use gravity.Directory.Messages.{
  RegistrationType, ChangeType, Publisher, ProductLocations, ProviderMap, domain_details,
}
use gravity.Directory.State.{Directory, component_of, instance_of, publish, open_products}

abbrev pub urls : List Publisher → List String
urls = map λ p. p.url

-- one ProductLocations: the component and the timestamp of each url follow its place in the list
abbrev pub location : Directory → String → String → List String → ProductLocations
location s domain id us = record {
  product_id = id;
  urls = us;
  component_ids = map (component_of s) us;
  domain_ids = domain ∷ [];
  timestamps = map (instance_of s) us;
}

abbrev pub service_locations : Directory → String → Map String String → List ProductLocations
service_locations s domain [] = []
service_locations s domain ((id, url) ∷ m) =
    location s domain id (url ∷ []) ∷ service_locations s domain m

abbrev pub data_locations : Directory → String → Map String (List Publisher) → List ProductLocations
data_locations s domain [] = []
data_locations s domain ((id, infos) ∷ m) =
    location s domain id (urls infos) ∷ data_locations s domain m

-- urlToComponentMap[url] and registrationInstanceMap[url] make what is missing
unfoldable pub touch_url : String → Directory → Directory
touch_url url s = record s {
  url_to_component_map = touch "" url s.url_to_component_map;
  registration_instance_map = touch 0 url s.registration_instance_map;
}

unfoldable pub touch_urls : List String → Directory → Directory
unfolding touch_url
touch_urls [] s = s
touch_urls (url ∷ us) s = touch_urls us (touch_url url s)

unfoldable pub touch_services : Map String String → Directory → Directory
unfolding touch_url
touch_services [] s = s
touch_services ((id, url) ∷ m) s = touch_services m (touch_url url s)

unfoldable pub touch_products : Map String (List Publisher) → Directory → Directory
unfolding touch_urls
touch_products [] s = s
touch_products ((id, infos) ∷ m) s = touch_products m (touch_urls (urls infos) s)

-- the state that updateProductLocations leaves behind, but for what it publishes
unfoldable pub read_own_locations : String → Directory → Directory
unfolding touch_services touch_products open_products
read_own_locations url s =
    let s1 = record s { service_map = touch [] s.domain s.service_map } in
    let s2 = touch_services (get_or [] s.domain s.service_map) s1 in
    let s3 = touch_products (get_or [] s.domain s.data_product_map) (open_products s.domain s2) in
    record s3 { url_to_component_map = touch "" url s3.url_to_component_map }

-- the providers of our own domain, and the change
unfoldable pub own_locations :
    String → String → ℕ → ChangeType → RegistrationType → Directory → ProviderMap
own_locations id url timestamp change kind s = record {
  service_providers = service_locations s s.domain (get_or [] s.domain s.service_map);
  data_providers = data_locations s s.domain (get_or [] s.domain s.data_product_map);
  change = some (record {
    product_id = id;
    url = url;
    registration_type = kind;
    change_type = change;
    component_id = component_of s url;
    timestamp = timestamp;
  });
  domain = s.domain;
}

-- updateProductLocations
unfoldable pub update_product_locations :
    String → String → ℕ → ChangeType → RegistrationType → Directory → Directory
unfolding read_own_locations publish
update_product_locations id url timestamp change kind s =
    publish (domain_details (own_locations id url timestamp change kind s))
      (read_own_locations url s)

abbrev pub all_service_locations :
    Directory → Map String (Map String String) → List ProductLocations
all_service_locations s [] = []
all_service_locations s ((domain, m) ∷ rest) =
    service_locations s domain m ++ all_service_locations s rest

abbrev pub all_data_locations :
    Directory → Map String (Map String (List Publisher)) → List ProductLocations
all_data_locations s [] = []
all_data_locations s ((domain, m) ∷ rest) = data_locations s domain m ++ all_data_locations s rest

unfoldable pub touch_all_services : Map String (Map String String) → Directory → Directory
unfolding touch_services
touch_all_services [] s = s
touch_all_services ((domain, m) ∷ rest) s = touch_all_services rest (touch_services m s)

unfoldable pub touch_all_products : Map String (Map String (List Publisher)) → Directory → Directory
unfolding touch_products
touch_all_products [] s = s
touch_all_products ((domain, m) ∷ rest) s = touch_all_products rest (touch_products m s)

-- GetProviders: the providers of every domain, and the state after reading them
unfoldable pub get_providers : Directory → ProviderMap × Directory
unfolding touch_all_services touch_all_products
get_providers s = (
  record {
    service_providers = all_service_locations s s.service_map;
    data_providers = all_data_locations s s.data_product_map;
    change = none;
    domain = s.domain;
  },
  touch_all_products s.data_product_map (touch_all_services s.service_map s),
)
