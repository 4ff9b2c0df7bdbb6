-- ===== src/Directory/Publishers.antt =====
-- The publishers of a data product: answers to lookups, announcements of changes, and the removal
-- of the publishers that a new registration at a url makes obsolete.
use gravity.Prelude.{
  String, not, ◌&&◌, List, [], ◌∷◌, if◌then◌else◌, Option, none, some, is_some, is_empty,
}
use gravity.Prelude.Key.{◌==◌, string_key}
use gravity.Prelude.Maps.{Map, get_or, insert, erase}
use gravity.Directory.Messages.{
  Publisher, DataLookupResponse, registered_publishers, removed, data_product,
}
use gravity.Directory.State.{
  Directory, publishers_of, instance_of, open_products, set_products, set_publishers, publish,
}
use gravity.Directory.Locations.{update_product_locations}

-- the first publisher at the url
unfoldable pub find_url : String → List Publisher → Option Publisher
find_url url [] = none
find_url url (p ∷ ps) = if p.url == url then some p else find_url url ps

-- the list without the first publisher at the url
unfoldable pub erase_url : String → List Publisher → List Publisher
erase_url url [] = []
erase_url url (p ∷ ps) = if p.url == url then ps else p ∷ erase_url url ps

-- addPublishers: what it puts on the response
abbrev pub lookup_response : Directory → String → String → DataLookupResponse
lookup_response s domain id = record {
  lookup_id = id;
  domain_id = domain;
  publishers = publishers_of s domain id;
}

unfoldable pub add_publishers : String → String → Directory → DataLookupResponse × Directory
unfolding open_products
add_publishers id domain s = (lookup_response s domain id, open_products domain s)

-- tell the subscribers of a product of its publishers now, or remember to do it
unfoldable pub announce : String → String → Directory → Directory
unfolding add_publishers publish
announce id domain s =
    if s.registered_publishers_ready
    then (let (response, t) = add_publishers id domain s in
        publish (registered_publishers response id) t)
    else record s { register_updates_to_send = insert id tt s.register_updates_to_send }

-- one round of the loop of purgeObsoletePublishers: the publisher of `key` at the url goes
unfoldable pub purge_publisher : String → String → Directory → Directory
unfolding set_publishers announce update_product_locations
purge_publisher key url s =
    let s1 = set_publishers s.domain key (erase_url url (publishers_of s s.domain key)) s in
    let s2 = announce key s.domain s1 in
    let s3 = update_product_locations key url (instance_of s2 url) removed data_product s2 in
    record s3 { registration_instance_map = erase url s3.registration_instance_map }

-- a product with no publisher left goes
unfoldable pub drop_if_empty : String → String → Directory → Directory
unfolding set_products
drop_if_empty domain key s =
    if is_empty (publishers_of s domain key)
    then set_products domain (erase key (get_or [] domain s.data_product_map)) s
    else s

unfoldable pub purge_key : String → String → String → Directory → Directory
unfolding purge_publisher drop_if_empty
purge_key id url key s =
    let obsolete = not (key == id) && is_some (find_url url (publishers_of s s.domain key)) in
    drop_if_empty s.domain key (if obsolete then purge_publisher key url s else s)

-- the loop erases no key but the one that it stands at, and adds none
unfoldable pub purge_keys : String → String → Map String (List Publisher) → Directory → Directory
unfolding purge_key
purge_keys id url [] s = s
purge_keys id url ((key, infos) ∷ rest) s = purge_keys id url rest (purge_key id url key s)

-- purgeObsoletePublishers: over our own domain
unfoldable pub purge_obsolete_publishers : String → String → Directory → Directory
unfolding purge_keys open_products
purge_obsolete_publishers id url s =
    purge_keys id url (get_or [] s.domain s.data_product_map) (open_products s.domain s)
