-- ===== src/Directory/Lookups.antt =====
-- What a lookup answers after a registration.
use gravity.Prelude.{
  ℕ, ◌≡◌, refl, ap, ◌∙◌, String, false, ◌⊎◌, inl, inr, ◌≢◌, List, if◌then◌else◌, Option, none, some,
  or_else, arith,
}
use gravity.Prelude.Key.{◌==◌, string_key, beq_refl}
use gravity.Directory.Messages.{
  Publisher, Registration, LookupRequest, RegistrationType, data_product, service, publisher_list,
}
use gravity.Directory.State.{Directory, publishers_of, seconds}
use gravity.Directory.Publishers.{find_url, add_publishers, lookup_response}
use gravity.Directory.Register.{accepted, handle_register, domain_or, is_duplicate, new_publisher}
use gravity.Directory.Requests.{handle_lookup, lookup_domain}
use gravity.Directory.Distinct.{find_url-put_publisher, entry, find_url-erase_url}
use gravity.Directory.Purged.{WellFormed}
use gravity.Directory.Registered.{
  publishers_of-handle_register, registered_as, data_registered, service_registered,
}
use gravity.Directory.Settled.{handle_register-Settled}

-- The entry of a registration's url after it is handled.
abbrev pub kept : Registration → ℕ → List Publisher → Publisher
kept r secs infos =
    if is_duplicate r secs infos
    then or_else (new_publisher r secs) (find_url r.url infos)
    else entry r secs infos

pub kept_time :
    (r : Registration) (secs : ℕ) (infos : List Publisher)
    → (kept r secs infos).registration_time ≡ secs
kept_time r secs infos = ground arith

pub data_registered_entry :
    (r : Registration) (domain : String) (timestamp : ℕ) (s : Directory)
    → find_url r.url (data_registered r domain timestamp s domain r.id)
      ≡ some (kept r (seconds timestamp) (publishers_of s domain r.id))
data_registered_entry r domain timestamp s =
    let infos = publishers_of s domain r.id in
    ground
      (arith, find_url-put_publisher r (seconds timestamp) infos, beq_refl domain, beq_refl r.id)

-- A lookup request for a product or a service, with or without a domain.
abbrev pub asks : RegistrationType → String → Option String → LookupRequest
asks kind id domain = record { lookup_id = id; kind = kind; domain_id = domain }

pub lookup_domain_same :
    (s t : Directory) (o : Option String)
    → t.domain ≡ s.domain
    → lookup_domain t o ≡ lookup_domain s o
lookup_domain_same s t none e = e
lookup_domain_same s t (some d) e = ap (λ x. if d == "" then x else d) e

handle_lookup_data :
    (id : String) (o : Option String) (s : Directory)
    → (handle_lookup (asks data_product id o) s).0
      ≡ publisher_list (lookup_response s (lookup_domain s o) id)
unfolding handle_lookup add_publishers
handle_lookup_data id o s = refl

module _ (r : Registration) (s : Directory) (w : WellFormed s) (timestamp : ℕ)
    (heard : accepted r s ≡ some timestamp) where
  pub registered_data :
      r.kind ≡ data_product
      → (d i : String)
      → publishers_of (handle_register r s).1 d i
        ≡ data_registered r (domain_or s r.domain) timestamp s d i
  registered_data k d i =
      publishers_of-handle_register r s w d i
      ∙ ap (λ a. registered_as a r.kind r s d i) heard
      ∙ ap (λ x. registered_as (some timestamp) x r s d i) k

  -- After a registration of a data product that is not ignored, a lookup of the product in its
  -- domain answers with its publishers, and among them the registered url with the time of the
  -- registration in seconds.
  pub lookup-register_data :
      r.kind ≡ data_product
      → (o : Option String) → lookup_domain s o ≡ domain_or s r.domain
      → (ps : List Publisher) × (p : Publisher) × ((handle_lookup
            (asks data_product r.id o)
            (handle_register r s).1).0
          ≡ publisher_list
              (record { lookup_id = r.id; domain_id = domain_or s r.domain; publishers = ps }))
        × (find_url r.url ps ≡ some p)
        × (p.registration_time ≡ seconds timestamp)
  lookup-register_data k o same =
      let t = (handle_register r s).1 in
      let domain = domain_or s r.domain in
      let infos = publishers_of s domain r.id in
      let there = lookup_domain_same s t o (handle_register-Settled r s).same_domain ∙ same in
      (
        publishers_of t domain r.id,
        kept r (seconds timestamp) infos,
        handle_lookup_data r.id o t ∙ ap (λ d. publisher_list (lookup_response t d r.id)) there,
        ap (find_url r.url) (registered_data k domain r.id)
            ∙ data_registered_entry r domain timestamp s,
        kept_time r (seconds timestamp) infos,
      )

  -- A registration that is stored leaves its url with no other data product of our own domain.
  pub find_url-register :
      (i : String)
      → i ≢ r.id
      → (r.kind ≡ service)
        ⊎ (is_duplicate r (seconds timestamp) (publishers_of s (domain_or s r.domain) r.id) ≡ false)
      → find_url r.url (publishers_of (handle_register r s).1 s.domain i) ≡ none
  find_url-register i other stored =
      ap (find_url r.url) (
        publishers_of-handle_register r s w s.domain i
        ∙ ap (λ a. registered_as a r.kind r s s.domain i) heard)
      ∙ go r.kind stored
    where
      infos : List Publisher
      infos = publishers_of s (domain_or s r.domain) r.id

      gone : find_url r.url (service_registered r s s.domain i) ≡ none
      gone = ground (
        arith,
        find_url-erase_url r.url (publishers_of s s.domain i) (w.distinct s.domain i),
        string_key.beq_iff i r.id,
        beq_refl s.domain,
      )

      go :
          (k : RegistrationType)
          → (k ≡ service) ⊎ (is_duplicate r (seconds timestamp) infos ≡ false)
          → find_url r.url (registered_as (some timestamp) k r s s.domain i) ≡ none
      go data_product (inl e) = cc
      go data_product (inr e) = ground (arith, gone, string_key.beq_iff r.id i)
      go service e = gone
