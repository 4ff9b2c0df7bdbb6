-- ===== src/Directory/Purge.antt =====
-- What purgeObsoletePublishers does to the provider maps.
use gravity.Prelude.{
  ◌≡◌, refl, ◌∙◌, String, Bool, true, false, not, ◌&&◌, List, [], ◌∷◌, if◌then◌else◌, is_some,
  is_empty,
}
use gravity.Prelude.Key.{◌==◌, string_key}
use gravity.Prelude.Maps.{Map, get_or, erase, get_or-erase}
use gravity.Directory.Messages.{Publisher, removed, data_product}
use gravity.Directory.State.{
  Directory, publishers_of, service_of, instance_of, set_products, set_publishers,
}
use gravity.Directory.Publishers.{
  find_url, purge_publisher, drop_if_empty, purge_key, purge_keys, purge_obsolete_publishers,
}
use gravity.Directory.View.{SameView, open_products-SameView}
use gravity.Directory.SilentWrites.{announce-SameView, update_product_locations-SameView}

-- Two states agree on all but data products and the instance of one url.
pub record Aside (url : String) (s t : Directory) : Type 0 where
  pub same_domain : t.domain ≡ s.domain
  pub same_services : (d i : String) → service_of t d i ≡ service_of s d i
  pub same_ready : t.registered_publishers_ready ≡ s.registered_publishers_ready
  pub same_processed : t.registered_publishers_processed ≡ s.registered_publishers_processed
  pub settled :
      s.registered_publishers_ready ≡ true → t.register_updates_to_send ≡ s.register_updates_to_send
  pub other_instances : (u : String) → (url == u) ≡ false → instance_of t u ≡ instance_of s u

Aside-refl : (url : String) (s : Directory) → Aside url s s
Aside-refl url s = record {
  same_domain = refl;
  same_services = λ d i. refl;
  same_ready = refl;
  same_processed = refl;
  settled = λ h. refl;
  other_instances = λ u h. refl;
}

Aside-trans : {url : String} {s t u : Directory} → Aside url s t → Aside url t u → Aside url s u
Aside-trans a b = record {
  same_domain = b.same_domain ∙ a.same_domain;
  same_services = λ d i. b.same_services d i ∙ a.same_services d i;
  same_ready = b.same_ready ∙ a.same_ready;
  same_processed = b.same_processed ∙ a.same_processed;
  settled = λ h. b.settled (a.same_ready ∙ h) ∙ a.settled h;
  other_instances = λ v h. b.other_instances v h ∙ a.other_instances v h;
}

SameView-Aside : (url : String) {s t : Directory} → SameView s t → Aside url s t
SameView-Aside url v = record {
  same_domain = v.same_domain;
  same_services = v.same_services;
  same_ready = v.same_ready;
  same_processed = v.same_processed;
  settled = v.settled;
  other_instances = λ u h. v.same_instances u;
}

if-Aside :
    (c : Bool) {url : String} {s t u : Directory}
    → Aside url s t
    → Aside url s u
    → Aside url s (if c then t else u)
if-Aside true a b = a
if-Aside false a b = b

set_products-Aside :
    (url d : String) (m : Map String (List Publisher)) (s : Directory)
    → Aside url s (set_products d m s)
unfolding set_products
set_products-Aside url d m s = record {
  same_domain = refl;
  same_services = λ e i. refl;
  same_ready = refl;
  same_processed = refl;
  settled = λ h. refl;
  other_instances = λ u h. refl;
}

pub set_publishers-Aside :
    (url d id : String) (infos : List Publisher) (s : Directory)
    → Aside url s (set_publishers d id infos s)
unfolding set_publishers
set_publishers-Aside url d id infos s = set_products-Aside url d _ s

forget-Aside :
    (url : String) (s : Directory)
    → Aside url s (record s { registration_instance_map = erase url s.registration_instance_map })
forget-Aside url s = record {
  same_domain = refl;
  same_services = λ d i. refl;
  same_ready = refl;
  same_processed = refl;
  settled = λ h. refl;
  other_instances = λ u h. rw (get_or-erase 0 url u s.registration_instance_map, h);
}

pub drop_if_empty-Aside : (url d key : String) (s : Directory) → Aside url s (drop_if_empty d key s)
unfolding drop_if_empty
drop_if_empty-Aside url d key s =
    if-Aside (is_empty (publishers_of s d key)) (set_products-Aside url d _ s) (Aside-refl url s)

purge_publisher-Aside : (key url : String) (s : Directory) → Aside url s (purge_publisher key url s)
unfolding purge_publisher
purge_publisher-Aside key url s = Aside-trans (set_publishers-Aside url s.domain key _ s) (
    Aside-trans (SameView-Aside url (announce-SameView key s.domain _)) (
      Aside-trans
        (SameView-Aside url (update_product_locations-SameView key url _ removed data_product _))
        (forget-Aside url _)))

pub purge_key-Aside : (id url key : String) (s : Directory) → Aside url s (purge_key id url key s)
unfolding purge_key
purge_key-Aside id url key s =
    Aside-trans
      (if-Aside (not (key == id) && is_some (find_url url (publishers_of s s.domain key)))
        (purge_publisher-Aside key url s) (Aside-refl url s))
      (drop_if_empty-Aside url s.domain key _)

purge_keys-Aside :
    (id url : String) (m : Map String (List Publisher)) (s : Directory)
    → Aside url s (purge_keys id url m s)
unfolding purge_keys
purge_keys-Aside id url [] s = Aside-refl url s
purge_keys-Aside id url ((key, infos) ∷ m) s =
    Aside-trans (purge_key-Aside id url key s) (purge_keys-Aside id url m _)

pub purge-Aside :
    (id url : String) (s : Directory) → Aside url s (purge_obsolete_publishers id url s)
unfolding purge_obsolete_publishers
purge-Aside id url s =
    Aside-trans (SameView-Aside url (open_products-SameView s.domain s))
      (purge_keys-Aside id url (get_or [] s.domain s.data_product_map) _)
