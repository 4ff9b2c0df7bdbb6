-- ===== src/Directory/Staleness.antt =====
-- When a url moves to another data product, purgeObsoletePublishers forgets the time of the
-- registration that is being handled.
use gravity.Prelude.{
  ℕ, ◌≡◌, ap, ◌∙◌, ◌≢◌, String, Bool, true, false, not, ◌&&◌, List, [], ◌∷◌, if◌then◌else◌, Option,
  none, some, is_some, arith,
}
use gravity.Prelude.Key.{◌==◌, string_key}
use gravity.Prelude.Maps.{Map, get_or, lookup, has, get_or-erase}
use gravity.Directory.Messages.{
  Publisher, Registration, RegistrationType, data_product, service, added, removed,
}
use gravity.Directory.State.{
  Directory, publishers_of, instance_of, seconds, set_publishers, set_products, open_publishers,
  open_products, registered_publishers_id,
}
use gravity.Directory.Locations.{update_product_locations}
use gravity.Directory.Publishers.{
  find_url, erase_url, announce, purge_publisher, drop_if_empty, purge_key, purge_keys,
  purge_obsolete_publishers,
}
use gravity.Directory.Register.{
  accepted, handle_register, domain_or, put_publisher, is_duplicate, note_ready, set_instance,
  set_component, store_publisher, register_data, register_service, register_kind,
}
use gravity.Directory.View.{SameView-refl, open_publishers-SameView, open_products-SameView}
use gravity.Directory.SilentWrites.{
  if-SameView, announce-SameView, update_product_locations-SameView,
}
use gravity.Directory.Purge.{purge_key-Aside}
use gravity.Directory.Purged.{publishers_of-set_publishers, publishers_of-purge_key}

instance_of-drop_if_empty :
    (d key url : String) (s : Directory)
    → instance_of (drop_if_empty d key s) url ≡ instance_of s url
unfolding drop_if_empty set_products
instance_of-drop_if_empty d key url s = ground arith

instance_of-purge_publisher :
    (key url : String) (s : Directory) → instance_of (purge_publisher key url s) url ≡ 0
unfolding purge_publisher
instance_of-purge_publisher key url s =
    let s1 = set_publishers s.domain key (erase_url url (publishers_of s s.domain key)) s in
    let s2 = announce key s.domain s1 in
    let s3 = update_product_locations key url (instance_of s2 url) removed data_product s2 in
    ground (arith, get_or-erase 0 url url s3.registration_instance_map, string_key.beq_iff url url)

-- A url that a product other than the registered one lists.
abbrev is_obsolete : String → String → String → Directory → Bool
is_obsolete id url key s = not (key == id) && is_some (find_url url (publishers_of s s.domain key))

instance_of-purge_key :
    (id url key : String) (s : Directory)
    → instance_of (purge_key id url key s) url
      ≡ (if is_obsolete id url key s then 0 else instance_of s url)
unfolding purge_key
instance_of-purge_key id url key s =
    instance_of-drop_if_empty s.domain key url
      (if is_obsolete id url key s then purge_publisher key url s else s)
    ∙ ground (arith, instance_of-purge_publisher key url s)

-- Once forgotten, the time stays forgotten.
purge_keys_zero :
    (id url : String) (m : Map String (List Publisher)) (s : Directory)
    → instance_of s url ≡ 0
    → instance_of (purge_keys id url m s) url ≡ 0
unfolding purge_keys
purge_keys_zero id url [] s h = h
purge_keys_zero id url ((key, infos) ∷ m) s h =
    purge_keys_zero id url m (purge_key id url key s)
      (ground (arith, instance_of-purge_key id url key s))

purge_keys_forget :
    (id url i : String) (m : Map String (List Publisher)) (s : Directory)
    → has i m ≡ true
    → is_obsolete id url i s ≡ true
    → instance_of (purge_keys id url m s) url ≡ 0
unfolding purge_keys lookup
purge_keys_forget id url i [] s here o = cc
purge_keys_forget id url i ((key, infos) ∷ m) s here o = ground (
  arith,
  string_key.beq_iff key i,
  instance_of-purge_key id url key s,
  purge_keys_zero id url m (purge_key id url key s),
  purge_keys_forget id url i m (purge_key id url key s),
  publishers_of-purge_key id url key s s.domain i,
  (purge_key-Aside id url key s).same_domain,
)

purge_forgets :
    (id url i : String) (s : Directory) (p : Publisher)
    → i ≢ id
    → find_url url (publishers_of s s.domain i) ≡ some p
    → instance_of (purge_obsolete_publishers id url s) url ≡ 0
unfolding purge_obsolete_publishers find_url
purge_forgets id url i s p other listed =
    let v = open_products-SameView s.domain s in
    purge_keys_forget id url i (get_or [] s.domain s.data_product_map) (open_products s.domain s)
      (ground (arith, listed))
      (ground (arith, v.same_publishers s.domain i, v.same_domain, string_key.beq_iff i id, listed))

store_publisher_forgets :
    (r : Registration) (domain : String) (time : ℕ) (s : Directory) (i : String) (p : Publisher)
    → i ≢ r.id
    → find_url r.url (publishers_of s s.domain i) ≡ some p
    → instance_of (store_publisher r domain time s) r.url ≡ 0
unfolding store_publisher set_component
store_publisher_forgets r domain time s i p other listed =
    let infos = put_publisher r (seconds time) (publishers_of s domain r.id) in
    let s0 = set_publishers domain r.id infos s in
    let s1 = set_component r.url r.component_id s0 in
    let s2 = announce r.id domain s1 in
    let s3 = purge_obsolete_publishers r.id r.url s2 in
    let v = announce-SameView r.id domain s1 in
    (if-SameView (domain == s.domain && not (r.id == registered_publishers_id))
        (update_product_locations-SameView r.id r.url time added data_product s3)
        (SameView-refl s3)).same_instances
      r.url
    ∙ purge_forgets r.id r.url i s2 p other (
        ground (
          arith,
          v.same_publishers s2.domain i,
          v.same_domain,
          publishers_of-set_publishers domain r.id infos s s.domain i,
          string_key.beq_iff r.id i,
          listed,
        ))

register_data_forgets :
    (r : Registration) (domain : String) (time : ℕ) (s : Directory) (i : String) (p : Publisher)
    → i ≢ r.id
    → find_url r.url (publishers_of s s.domain i) ≡ some p
    → is_duplicate r (seconds time) (publishers_of s domain r.id) ≡ false
    → instance_of (register_data r domain time s) r.url ≡ 0
unfolding register_data set_instance note_ready
register_data_forgets r domain time s i p other listed fresh =
    let s0 = note_ready r.id s in
    let s1 = set_instance r.url time (open_publishers domain r.id s0) in
    let v = open_publishers-SameView domain r.id s0 in
    ground (
      arith,
      fresh,
      store_publisher_forgets r domain time s1 i p other,
      v.same_publishers s.domain i,
      v.same_domain,
      listed,
    )

accepts_any :
    (r : Registration) (s : Directory) (old : ℕ)
    → instance_of s r.url ≡ 0
    → r.timestamp ≡ some old
    → accepted r s ≡ some old
unfolding accepted
accepts_any r s old h e = ground arith

pub stale_accepted :
    (r : Registration) (s : Directory) (timestamp : ℕ) (i : String) (p : Publisher)
    → accepted r s ≡ some timestamp
    → r.kind ≡ data_product
    → i ≢ r.id
    → find_url r.url (publishers_of s s.domain i) ≡ some p
    → is_duplicate r (seconds timestamp) (publishers_of s (domain_or s r.domain) r.id) ≡ false
    → (late : Registration) (old : ℕ) → late.url ≡ r.url
    → late.timestamp ≡ some old
    → accepted late (handle_register r s).1 ≡ some old
unfolding handle_register register_kind
stale_accepted r s timestamp i p heard k other listed fresh late old same time =
    let domain = domain_or s r.domain in
    let by_time : Option ℕ → Directory = elim [
      | none ↦ s
      | some time ↦ register_kind r domain time s
    ] in
    let by_kind : RegistrationType → Directory = elim [
      | data_product ↦ register_data r domain timestamp s
      | service ↦ register_service r domain timestamp s
    ] in
    let after = ap by_time heard ∙ ap by_kind k in
    let zero_time =
      ap (λ (t : Directory). instance_of t r.url) after
      ∙ register_data_forgets r domain timestamp s i p other listed fresh in
    accepts_any late (by_time (accepted r s)) old
      (ap (instance_of (by_time (accepted r s))) same ∙ zero_time) time
