-- ===== src/Directory/State.antt =====
-- The state of the directory (ServiceDirectory.h), and its reads and writes.
use gravity.Prelude.{ℕ, ◌/◌, ◌%◌, ◌^◌, String, Bool, List, [], ◌∷◌, ◌++◌, Option}
use gravity.Prelude.Key.{string_key}
use gravity.Prelude.Maps.{Map, Set, lookup, get_or, insert, touch}
use gravity.Directory.Messages.{Publisher, Publication}

abbrev pub registered_publishers_id : String
registered_publishers_id = "RegisteredPublishers"

-- class ServiceDirectory. `published` lists what it handed to its node's publish, oldest first.
pub record Directory : Type 0 where
  pub domain : String
  pub data_product_map : Map String (Map String (List Publisher))
  pub service_map : Map String (Map String String)
  pub url_to_component_map : Map String String
  pub registration_instance_map : Map String ℕ
  pub domain_map : Map String String
  pub registered_publishers_ready : Bool
  pub registered_publishers_processed : Bool
  pub register_updates_to_send : Set String
  pub published : List Publication

-- static_cast<uint32_t>(timestamp / 1e6): exact while the seconds fit 32 bits
abbrev pub seconds : ℕ → ℕ
seconds timestamp = timestamp / 1_000_000 % 2 ^ 32

-- dataProductMap[domain][id], by value
abbrev pub publishers_of : Directory → String → String → List Publisher
publishers_of s domain id = get_or [] id (get_or [] domain s.data_product_map)

-- serviceMap[domain].find(id)
abbrev pub service_of : Directory → String → String → Option String
service_of s domain id = lookup id (get_or [] domain s.service_map)

-- registrationInstanceMap[url], by value
abbrev pub instance_of : Directory → String → ℕ
instance_of s url = get_or 0 url s.registration_instance_map

-- urlToComponentMap[url], by value
abbrev pub component_of : Directory → String → String
component_of s url = get_or "" url s.url_to_component_map

-- the references dataProductMap[domain] and dataProductMap[domain][id] make what is missing
unfoldable pub open_products : String → Directory → Directory
open_products domain s = record s { data_product_map = touch [] domain s.data_product_map }

unfoldable pub open_publishers : String → String → Directory → Directory
open_publishers domain id s = record s {
  data_product_map =
      insert domain (touch [] id (get_or [] domain s.data_product_map)) s.data_product_map;
}

unfoldable pub set_products : String → Map String (List Publisher) → Directory → Directory
set_products domain dp_map s = record s {
  data_product_map = insert domain dp_map s.data_product_map;
}

unfoldable pub set_publishers : String → String → List Publisher → Directory → Directory
unfolding set_products
set_publishers domain id infos s =
    set_products domain (insert id infos (get_or [] domain s.data_product_map)) s

unfoldable pub set_services : String → Map String String → Directory → Directory
set_services domain s_map s = record s { service_map = insert domain s_map s.service_map }

unfoldable pub publish : Publication → Directory → Directory
publish p s = record s { published = s.published ++ p ∷ [] }
