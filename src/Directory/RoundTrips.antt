-- ===== src/Directory/RoundTrips.antt =====
-- What was registered is found again, and what is unregistered is gone.
use gravity.Prelude.{
  ℕ, ◌≡◌, refl, ap, ◌∙◌, String, true, List, [], ◌∷◌, nat_eq_iff, Option, none, some, arith,
}
use gravity.Prelude.Key.{string_key, beq_refl}
use gravity.Prelude.Maps.{lookup}
use gravity.Directory.Messages.{
  Publisher, Registration, RegistrationType, data_product, service, service_location,
  Unregistration, directory_response, success,
}
use gravity.Directory.State.{Directory, publishers_of, service_of, seconds}
use gravity.Directory.Publishers.{find_url}
use gravity.Directory.Register.{
  accepted, handle_register, domain_or, register_service, register_data, register_kind,
}
use gravity.Directory.Unregister.{handle_unregister, has_registration, erase_registration}
use gravity.Directory.Requests.{handle_lookup, lookup_service, lookup_domain, service_response}
use gravity.Directory.Distinct.{Distinct}
use gravity.Directory.Purged.{WellFormed}
use gravity.Directory.Invariant.{handle_register-WellFormed}
use gravity.Directory.Settled.{handle_register-Settled}
use gravity.Directory.Lookups.{
  asks, lookup_domain_same, registered_data, data_registered_entry, kept, kept_time,
}
use gravity.Directory.Services.{service_of-handle_register, service_as, instance-register_service}
use gravity.Directory.Unregistered.{
  publishers_of-handle_unregister, service_of-handle_unregister, handle_unregister_answer,
}

-- The removal that matches a registration at a timestamp.
abbrev pub removal : Registration → RegistrationType → ℕ → Unregistration
removal r kind timestamp = record {
  id = r.id;
  url = r.url;
  kind = kind;
  domain = r.domain;
  registration_time = seconds timestamp;
}

has_registration-find_url :
    (url : String) (time : ℕ) (ps : List Publisher) (p : Publisher)
    → find_url url ps ≡ some p
    → p.registration_time ≡ time
    → has_registration url time ps ≡ true
unfolding has_registration find_url
has_registration-find_url url time [] p h e = cc
has_registration-find_url url time (q ∷ ps) p h e =
    ground (arith, has_registration-find_url url time ps p)

find_url-erase_registration :
    (url : String) (time : ℕ) (ps : List Publisher) (p : Publisher)
    → Distinct ps
    → find_url url ps ≡ some p
    → p.registration_time ≡ time
    → find_url url (erase_registration url time ps) ≡ none
unfolding erase_registration find_url
find_url-erase_registration url time [] p w h e = cc
find_url-erase_registration url time (q ∷ ps) p w h e =
    ground (arith, find_url-erase_registration url time ps p w.1, string_key.beq_iff q.url url)

lookup_service_answer :
    (id : String) (o : Option String) (s : Directory)
    → (handle_lookup (asks service id o) s).0
      ≡ service_location (service_response s (lookup_domain s o) id)
unfolding handle_lookup lookup_service
lookup_service_answer id o s = refl

same_domain :
    (r : Registration) (s : Directory)
    → domain_or (handle_register r s).1 r.domain ≡ domain_or s r.domain
same_domain r s = go r.domain
  where
    go : (o : Option String) → domain_or (handle_register r s).1 o ≡ domain_or s o
    go none = (handle_register-Settled r s).same_domain
    go (some d) = refl

module _ (r : Registration) (s : Directory) (timestamp : ℕ) (heard : accepted r s ≡ some timestamp)
    (k : r.kind ≡ service) where
  service_there : service_of (handle_register r s).1 (domain_or s r.domain) r.id ≡ some r.url
  service_there =
      service_of-handle_register r s (domain_or s r.domain) r.id
      ∙ ap (λ a. service_as a r.kind r s (domain_or s r.domain) r.id) heard
      ∙ ap (λ x. service_as (some timestamp) x r s (domain_or s r.domain) r.id) k
      ∙ ground (arith, beq_refl (domain_or s r.domain), beq_refl r.id)

  state_after : (handle_register r s).1 ≡ register_service r (domain_or s r.domain) timestamp s
  unfolding handle_register register_kind
  state_after =
      let domain = domain_or s r.domain in
      let by_time : Option ℕ → Directory = elim [
        | none ↦ s
        | some time ↦ register_kind r domain time s
      ] in
      let by_kind : RegistrationType → Directory = elim [
        | data_product ↦ register_data r domain timestamp s
        | service ↦ register_service r domain timestamp s
      ] in
      ap by_time heard ∙ ap by_kind k

  instance_there : lookup r.url (handle_register r s).1.registration_instance_map ≡ some timestamp
  instance_there =
      ap (λ (t : Directory). lookup r.url t.registration_instance_map) state_after
      ∙ instance-register_service r (domain_or s r.domain) timestamp s

  -- After a registration of a service that is not ignored, a lookup of the service in its domain
  -- answers with the registered url and the time of the registration in seconds.
  pub lookup-register_service :
      (o : Option String)
      → lookup_domain s o ≡ domain_or s r.domain
      → (handle_lookup (asks service r.id o) (handle_register r s).1).0
        ≡ service_location (record {
          lookup_id = r.id;
          url = r.url;
          domain_id = domain_or s r.domain;
          registration_time = some (seconds timestamp);
        })
  lookup-register_service o same =
      let t = (handle_register r s).1 in
      let there = lookup_domain_same s t o (handle_register-Settled r s).same_domain ∙ same in
      lookup_service_answer r.id o t
      ∙ ap (λ d. service_location (service_response t d r.id)) there
      ∙ ground (arith, service_there, instance_there)

  -- After a registration of a service that is not ignored, unregistering it with the same url and
  -- the time in seconds succeeds, and no url is left for it.
  pub unregister-register_service :
      ((handle_unregister (removal r service timestamp) (handle_register r s).1).0
        ≡ directory_response r.id success)
      × (service_of
            (handle_unregister (removal r service timestamp) (handle_register r s).1).1
            (domain_or s r.domain)
            r.id
          ≡ none)
  unregister-register_service =
      let t = (handle_register r s).1 in
      let u = removal r service timestamp in
      (
        handle_unregister_answer u t
            ∙ ground (
              arith,
              same_domain r s,
              service_there,
              instance_there,
              nat_eq_iff (seconds timestamp) (seconds timestamp),
            ),
        service_of-handle_unregister u t (domain_or s r.domain) r.id
            ∙ ground (
              arith,
              same_domain r s,
              service_there,
              instance_there,
              beq_refl (domain_or s r.domain),
              beq_refl r.id,
            ),
      )

-- After a registration of a data product that is not ignored, unregistering it with the same url
-- and the time in seconds succeeds, and the url is not among the publishers any more.
pub unregister-register_data :
    (r : Registration) (s : Directory)
    → WellFormed s
    → (timestamp : ℕ) → accepted r s ≡ some timestamp
    → r.kind ≡ data_product
    → let t = (handle_register r s).1 in
      let u = removal r data_product timestamp in
      ((handle_unregister u t).0 ≡ directory_response r.id success)
      × (find_url r.url (publishers_of (handle_unregister u t).1 (domain_or s r.domain) r.id)
          ≡ none)
unregister-register_data r s w timestamp heard k =
    let t = (handle_register r s).1 in
    let u = removal r data_product timestamp in
    let domain = domain_or s r.domain in
    let p = kept r (seconds timestamp) (publishers_of s domain r.id) in
    let entry =
      ap (find_url r.url) (registered_data r s w timestamp heard k domain r.id)
      ∙ data_registered_entry r domain timestamp s in
    let time = kept_time r (seconds timestamp) (publishers_of s domain r.id) in
    let ps = publishers_of t domain r.id in
    let present = has_registration-find_url r.url (seconds timestamp) ps p entry time in
    let absent =
      find_url-erase_registration r.url (seconds timestamp) ps p
        ((handle_register-WellFormed r s w).distinct domain r.id) entry time in
    (
      handle_unregister_answer u t ∙ ground (arith, same_domain r s, present),
      ap (find_url r.url) (publishers_of-handle_unregister u t domain r.id)
          ∙ ground (arith, same_domain r s, absent, beq_refl domain, beq_refl r.id),
    )
