-- ===== src/Directory/Settled.antt =====
-- The flags and the waiting announcements: once publishers can be announced, no request leaves
-- one waiting.
use gravity.Prelude.{
  ℕ, ◌≡◌, refl, ◌∙◌, String, Bool, true, false, not, ◌&&◌, [], if◌then◌else◌, Option, none, some,
  arith,
}
use gravity.Prelude.Key.{◌==◌, string_key}
use gravity.Prelude.Maps.{Map, get_or, insert}
use gravity.Directory.Messages.{Registration, RegistrationType, data_product, service, added}
use gravity.Directory.State.{
  Directory, registered_publishers_id, publishers_of, seconds, set_publishers, open_publishers,
  set_services,
}
use gravity.Directory.Publishers.{announce, purge_obsolete_publishers}
use gravity.Directory.Register.{
  put_publisher, is_duplicate, set_component, set_instance, note_ready, store_publisher,
  repeat_publisher, register_data, register_service, handle_register, accepted, domain_or,
}
use gravity.Directory.View.{SameView, SameView-refl, open_publishers-SameView}
use gravity.Directory.SilentWrites.{
  if-SameView, announce-SameView, update_product_locations-SameView,
}
use gravity.Directory.Purge.{Aside, purge-Aside, set_publishers-Aside}

-- Announcing stays possible, and where it is nothing new waits.
pub record Settled (s t : Directory) : Type 0 where
  pub same_domain : t.domain ≡ s.domain
  pub same_processed : t.registered_publishers_processed ≡ s.registered_publishers_processed
  pub kept_ready : s.registered_publishers_ready ≡ true → t.registered_publishers_ready ≡ true
  pub settled :
      s.registered_publishers_ready ≡ true → t.register_updates_to_send ≡ s.register_updates_to_send

pub Settled-refl : (s : Directory) → Settled s s
Settled-refl s = record {
  same_domain = refl;
  same_processed = refl;
  kept_ready = λ h. h;
  settled = λ h. refl;
}

pub Settled-trans : {s t u : Directory} → Settled s t → Settled t u → Settled s u
Settled-trans a b = record {
  same_domain = b.same_domain ∙ a.same_domain;
  same_processed = b.same_processed ∙ a.same_processed;
  kept_ready = λ h. b.kept_ready (a.kept_ready h);
  settled = λ h. b.settled (a.kept_ready h) ∙ a.settled h;
}

pub SameView-Settled : {s t : Directory} → SameView s t → Settled s t
SameView-Settled v = record {
  same_domain = v.same_domain;
  same_processed = v.same_processed;
  kept_ready = λ h. v.same_ready ∙ h;
  settled = v.settled;
}

pub Aside-Settled : (url : String) {s t : Directory} → Aside url s t → Settled s t
Aside-Settled url v = record {
  same_domain = v.same_domain;
  same_processed = v.same_processed;
  kept_ready = λ h. v.same_ready ∙ h;
  settled = v.settled;
}

set_component-Settled :
    (url : String) (c : Option String) (s : Directory) → Settled s (set_component url c s)
unfolding set_component
set_component-Settled url c s = record {
  same_domain = refl;
  same_processed = refl;
  kept_ready = λ h. h;
  settled = λ h. refl;
}

set_instance-Settled :
    (url : String) (time : ℕ) (s : Directory) → Settled s (set_instance url time s)
unfolding set_instance
set_instance-Settled url time s = record {
  same_domain = refl;
  same_processed = refl;
  kept_ready = λ h. h;
  settled = λ h. refl;
}

pub set_services-Settled :
    (d : String) (m : Map String String) (s : Directory) → Settled s (set_services d m s)
unfolding set_services
set_services-Settled d m s = record {
  same_domain = refl;
  same_processed = refl;
  kept_ready = λ h. h;
  settled = λ h. refl;
}

pub forget-Settled :
    (m : Map String ℕ) (s : Directory) → Settled s (record s { registration_instance_map = m })
forget-Settled m s = record {
  same_domain = refl;
  same_processed = refl;
  kept_ready = λ h. h;
  settled = λ h. refl;
}

note_ready-Settled : (id : String) (s : Directory) → Settled s (note_ready id s)
unfolding note_ready
note_ready-Settled id s = record {
  same_domain = refl;
  same_processed = refl;
  kept_ready = λ h. ground arith;
  settled = λ h. refl;
}

if-Settled :
    (c : Bool) {s t u : Directory} → Settled s t → Settled s u → Settled s (if c then t else u)
if-Settled true a b = a
if-Settled false a b = b

store_publisher-Settled :
    (r : Registration) (domain : String) (time : ℕ) (s : Directory)
    → Settled s (store_publisher r domain time s)
unfolding store_publisher
store_publisher-Settled r domain time s =
    let infos = put_publisher r (seconds time) (publishers_of s domain r.id) in
    let s0 = set_publishers domain r.id infos s in
    let s1 = set_component r.url r.component_id s0 in
    let s2 = announce r.id domain s1 in
    let s3 = purge_obsolete_publishers r.id r.url s2 in
    let before =
      Settled-trans (Aside-Settled r.url (set_publishers-Aside r.url domain r.id infos s)) (
        Settled-trans (set_component-Settled r.url r.component_id s0) (
          Settled-trans (SameView-Settled (announce-SameView r.id domain s1))
            (Aside-Settled r.url (purge-Aside r.id r.url s2)))) in
    Settled-trans before (
      SameView-Settled (
        if-SameView (domain == s.domain && not (r.id == registered_publishers_id))
          (update_product_locations-SameView r.id r.url time added data_product s3)
          (SameView-refl s3)))

register_data-Settled :
    (r : Registration) (domain : String) (time : ℕ) (s : Directory)
    → Settled s (register_data r domain time s)
unfolding register_data repeat_publisher
register_data-Settled r domain time s =
    let s0 = note_ready r.id s in
    let s1 = open_publishers domain r.id s0 in
    let s2 = set_instance r.url time s1 in
    let before = Settled-trans (note_ready-Settled r.id s) (
      Settled-trans (SameView-Settled (open_publishers-SameView domain r.id s0))
        (set_instance-Settled r.url time s1)) in
    Settled-trans before (
      if-Settled (is_duplicate r (seconds time) (publishers_of s domain r.id))
        (SameView-Settled (
          if-SameView (domain == s2.domain)
            (update_product_locations-SameView r.id r.url time added data_product s2)
            (SameView-refl s2)))
        (store_publisher-Settled r domain time s2))

register_service-Settled :
    (r : Registration) (domain : String) (time : ℕ) (s : Directory)
    → Settled s (register_service r domain time s)
unfolding register_service
register_service-Settled r domain time s =
    let m = insert r.id r.url (get_or [] domain s.service_map) in
    let s0 = set_services domain m s in
    let s1 = set_component r.url r.component_id s0 in
    let s2 = purge_obsolete_publishers r.id r.url s1 in
    let s3 = set_instance r.url time s2 in
    let before = Settled-trans (set_services-Settled domain m s) (
      Settled-trans (set_component-Settled r.url r.component_id s0) (
        Settled-trans (Aside-Settled r.url (purge-Aside r.id r.url s1))
          (set_instance-Settled r.url time s2))) in
    Settled-trans before (
      SameView-Settled (
        if-SameView (domain == s.domain)
          (update_product_locations-SameView r.id r.url time added service s3) (SameView-refl s3)))

pub handle_register-Settled : (r : Registration) (s : Directory) → Settled s (handle_register r s).1
unfolding handle_register
handle_register-Settled r s = go (accepted r s) r.kind
  where
    go :
        (a : Option ℕ) (k : RegistrationType)
        → Settled s (elim a [
          | none ↦ s
          | some timestamp ↦ elim k [
            | data_product ↦ register_data r (domain_or s r.domain) timestamp s
            | service ↦ register_service r (domain_or s r.domain) timestamp s
          ]
        ])
    go none k = Settled-refl s
    go (some time) data_product = register_data-Settled r (domain_or s r.domain) time s
    go (some time) service = register_service-Settled r (domain_or s r.domain) time s
