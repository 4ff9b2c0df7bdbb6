-- ===== src/Directory/Registered.antt =====
-- Which publishers handleRegister leaves, for every domain and product.
use gravity.Prelude.{
  ℕ, ◌≡◌, refl, ◌∙◌, String, Bool, true, false, not, ◌&&◌, List, [], if◌then◌else◌, Option, none,
  some, arith,
}
use gravity.Prelude.Key.{◌==◌, string_key}
use gravity.Prelude.Maps.{get_or, insert}
use gravity.Directory.Messages.{
  Publisher, Registration, RegistrationType, data_product, service, added,
}
use gravity.Directory.State.{
  Directory, registered_publishers_id, publishers_of, seconds, set_publishers, open_publishers,
  set_services,
}
use gravity.Directory.Publishers.{erase_url, announce, purge_obsolete_publishers}
use gravity.Directory.Register.{
  put_publisher, is_duplicate, set_component, set_instance, note_ready, store_publisher,
  register_data, register_service, handle_register, accepted, domain_or,
}
use gravity.Directory.View.{SameView, SameView-refl, open_publishers-SameView}
use gravity.Directory.SilentWrites.{
  if-SameView, announce-SameView, update_product_locations-SameView,
}
use gravity.Directory.Distinct.{Distinct, put_publisher-Distinct}
use gravity.Directory.Purged.{
  WellFormed, publishers_of-set_publishers, purge_obsolete_publishers_lem,
}

-- Same publishers, and same domain: what well-formedness and the purge look at.
pub record SamePublishers (s t : Directory) : Type 0 where
  pub same_domain : t.domain ≡ s.domain
  pub same_publishers : (d i : String) → publishers_of t d i ≡ publishers_of s d i

pub SamePublishers-WellFormed : {s t : Directory} → SamePublishers s t → WellFormed s → WellFormed t
SamePublishers-WellFormed v w = record {
  distinct = λ d i. rw (v.same_publishers d i) (w.distinct d i);
}

pub SameView-SamePublishers : {s t : Directory} → SameView s t → SamePublishers s t
SameView-SamePublishers v = record {
  same_domain = v.same_domain;
  same_publishers = v.same_publishers;
}

pub set_publishers-WellFormed :
    (d id : String) (infos : List Publisher) (s : Directory)
    → Distinct infos
    → WellFormed s
    → WellFormed (set_publishers d id infos s)
set_publishers-WellFormed d id infos s h w = record {
  distinct =
      λ e i. rw (publishers_of-set_publishers d id infos s e i) (pick ((d == e) && (id == i)) e i);
}
  where
    pick : (c : Bool) (e i : String) → Distinct (if c then infos else publishers_of s e i)
    pick true e i = h
    pick false e i = w.distinct e i

-- The publishers of a product after a registration that is stored.
abbrev pub stored : Registration → String → ℕ → Directory → String → String → List Publisher
stored r domain timestamp s d i =
    if (domain == d) && (r.id == i)
    then put_publisher r (seconds timestamp) (publishers_of s domain r.id)
    else if (s.domain == d) && not (i == r.id)
    then erase_url r.url (publishers_of s d i)
    else publishers_of s d i

module _ (r : Registration) (domain : String) (timestamp : ℕ) (s : Directory)
    (w : WellFormed s) where
  publishers_of-store_publisher :
      (d i : String)
      → publishers_of (store_publisher r domain timestamp s) d i ≡ stored r domain timestamp s d i
  unfolding store_publisher set_component
  publishers_of-store_publisher d i =
      let infos = put_publisher r (seconds timestamp) (publishers_of s domain r.id) in
      let s0 = set_publishers domain r.id infos s in
      let s1 = set_component r.url r.component_id s0 in
      let s2 = announce r.id domain s1 in
      let s3 = purge_obsolete_publishers r.id r.url s2 in
      let v = announce-SameView r.id domain s1 in
      let w0 =
        set_publishers-WellFormed domain r.id infos s
          (put_publisher-Distinct r (seconds timestamp) (publishers_of s domain r.id)
            (w.distinct domain r.id))
          w in
      let w1 : WellFormed s1 = record { distinct = w0.distinct } in
      let w2 = SamePublishers-WellFormed (SameView-SamePublishers v) w1 in
      (if-SameView (domain == s.domain && not (r.id == registered_publishers_id))
          (update_product_locations-SameView r.id r.url timestamp added data_product s3)
          (SameView-refl s3)).same_publishers
        d i
      ∙ ground (
        arith,
        purge_obsolete_publishers_lem r.id r.url s2 w2 d i,
        v.same_publishers d i,
        v.same_domain,
        publishers_of-set_publishers domain r.id infos s d i,
        string_key.beq_iff r.id i,
        string_key.beq_iff i r.id,
      )

-- The publishers after a registration of a data product.
abbrev pub data_registered :
    Registration → String → ℕ → Directory → String → String → List Publisher
data_registered r domain timestamp s d i =
    if is_duplicate r (seconds timestamp) (publishers_of s domain r.id)
    then publishers_of s d i
    else stored r domain timestamp s d i

-- The publishers after a registration of a service.
abbrev pub service_registered : Registration → Directory → String → String → List Publisher
service_registered r s d i =
    if (s.domain == d) && not (i == r.id)
    then erase_url r.url (publishers_of s d i)
    else publishers_of s d i

module _ (r : Registration) (domain : String) (timestamp : ℕ) (s : Directory)
    (w : WellFormed s) where
  publishers_of-register_data :
      (d i : String)
      → publishers_of (register_data r domain timestamp s) d i
        ≡ data_registered r domain timestamp s d i
  unfolding register_data note_ready set_instance
  publishers_of-register_data d i =
      let s0 = note_ready r.id s in
      let s1 = set_instance r.url timestamp (open_publishers domain r.id s0) in
      let v = open_publishers-SameView domain r.id s0 in
      let v1 : SamePublishers s s1 = record {
        same_domain = v.same_domain;
        same_publishers = v.same_publishers;
      } in
      let w1 = SamePublishers-WellFormed v1 w in
      ground (
        arith,
        publishers_of-store_publisher r domain timestamp s1 w1 d i,
        (if-SameView (domain == s1.domain)
              (update_product_locations-SameView r.id r.url timestamp added data_product s1)
              (SameView-refl s1)).same_publishers
            d i,
        v.same_publishers d i,
        v.same_publishers domain r.id,
        v.same_domain,
      )

  publishers_of-register_service :
      (d i : String)
      → publishers_of (register_service r domain timestamp s) d i ≡ service_registered r s d i
  unfolding register_service set_services set_component set_instance
  publishers_of-register_service d i =
      let s0 = set_services domain (insert r.id r.url (get_or [] domain s.service_map)) s in
      let s1 = set_component r.url r.component_id s0 in
      let s2 = purge_obsolete_publishers r.id r.url s1 in
      let s3 = set_instance r.url timestamp s2 in
      let w1 : WellFormed s1 = record { distinct = w.distinct } in
      (if-SameView (domain == s.domain)
          (update_product_locations-SameView r.id r.url timestamp added service s3)
          (SameView-refl s3)).same_publishers
        d i
      ∙ purge_obsolete_publishers_lem r.id r.url s1 w1 d i

-- The publishers after handleRegister: by the timestamp, if the registration is not ignored, and
-- by what it registers.
abbrev pub registered_as :
    Option ℕ → RegistrationType → Registration → Directory → String → String → List Publisher
registered_as none k r s d i = publishers_of s d i
registered_as (some timestamp) data_product r s d i =
    data_registered r (domain_or s r.domain) timestamp s d i
registered_as (some timestamp) service r s d i = service_registered r s d i

abbrev pub registered : Registration → Directory → String → String → List Publisher
registered r s d i = registered_as (accepted r s) r.kind r s d i

-- For every domain and product, handleRegister leaves the publishers that `registered` states:
-- those that there were if the registration is ignored or repeats the url's second, else the list
-- with the new or updated publisher, and every other product of our own domain without its url.
pub publishers_of-handle_register :
    (r : Registration) (s : Directory)
    → WellFormed s
    → (d i : String) → publishers_of (handle_register r s).1 d i ≡ registered r s d i
unfolding handle_register
publishers_of-handle_register r s w d i = go (accepted r s) r.kind
  where
    go :
        (a : Option ℕ) (k : RegistrationType)
        → publishers_of
            (elim a [
              | none ↦ s
              | some timestamp ↦ elim k [
                | data_product ↦ register_data r (domain_or s r.domain) timestamp s
                | service ↦ register_service r (domain_or s r.domain) timestamp s
              ]
            ])
            d
            i
          ≡ registered_as a k r s d i
    go none k = refl
    go (some timestamp) data_product =
        publishers_of-register_data r (domain_or s r.domain) timestamp s w d i
    go (some timestamp) service =
        publishers_of-register_service r (domain_or s r.domain) timestamp s w d i
