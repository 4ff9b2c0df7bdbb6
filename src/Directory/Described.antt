-- ===== src/Directory/Described.antt =====
-- handleRegister and handleUnregister against a description of the publishers that they leave.
use gravity.Prelude.{
  ℕ, ◌≡◌, refl, ap, ◌∙◌, String, Bool, true, false, not, ◌&&◌, List, if◌then◌else◌, ltb, nat_eq,
  Option, none, some, or_else, arith,
}
use gravity.Prelude.Key.{◌==◌, string_key}
use gravity.Prelude.Maps.{lookup, get_or}
use gravity.Directory.Messages.{
  Publisher, Registration, Unregistration, RegistrationType, data_product, service,
}
use gravity.Directory.State.{Directory, publishers_of}
use gravity.Directory.Keeping.{
  keep, has_one, whole_seconds, with_registration, erase_url-keep, put_publisher-with_registration,
  is_duplicate-has_one, erase_registration-keep,
}
use gravity.Directory.Register.{handle_register, accepted, is_stale}
use gravity.Directory.Unregister.{handle_unregister}
use gravity.Directory.Purged.{WellFormed}
use gravity.Directory.Registered.{
  registered, registered_as, data_registered, service_registered, stored,
  publishers_of-handle_register,
}
use gravity.Directory.Unregistered.{publishers_of-handle_unregister}

module _ (r : Registration) (s : Directory) (d i : String) where
  abbrev before : List Publisher
  before = publishers_of s d i

  -- every other product of our own domain loses the url
  abbrev pub url_moved : List Publisher
  url_moved =
      if (s.domain == d) && not (i == r.id) then keep (λ p. not (p.url == r.url)) before else before

  abbrev pub product_described : String → ℕ → List Publisher
  product_described domain time =
      if has_one (λ p. p.url == r.url && nat_eq p.registration_time time)
        (publishers_of s domain r.id)
      then before
      else if (domain == d) && (r.id == i)
      then with_registration r time before
      else url_moved

  -- The publishers after a registration: no timestamp, or one below the url's, changes nothing.
  abbrev pub described : List Publisher
  described = elim r.timestamp [
    | none ↦ before
    | some t ↦ if ltb t (get_or 0 r.url s.registration_instance_map) then before else (elim r.kind [
      | data_product ↦ product_described (or_else s.domain r.domain) (whole_seconds t)
      | service ↦ url_moved
    ])
  ]

  moved-keep : WellFormed s → service_registered r s d i ≡ url_moved
  moved-keep w =
      ap (λ ps. if (s.domain == d) && not (i == r.id) then ps else before)
        (erase_url-keep r.url before (w.distinct d i))

  data-described :
      WellFormed s
      → (domain : String) (t : ℕ)
      → data_registered r domain t s d i ≡ product_described domain (whole_seconds t)
  data-described w domain t =
      let time = whole_seconds t in
      let infos = publishers_of s domain r.id in
      ap (λ b. if b then before else stored r domain t s d i)
        (is_duplicate-has_one r time infos (w.distinct domain r.id))
      ∙ ap
          (λ ps.
            if has_one (λ p. p.url == r.url && nat_eq p.registration_time time) infos
            then before
            else if (domain == d) && (r.id == i)
            then ps
            else service_registered r s d i)
          (put_publisher-with_registration r time infos (w.distinct domain r.id))
      ∙ ap
          (λ ps.
            if has_one (λ p. p.url == r.url && nat_eq p.registration_time time) infos
            then before
            else if (domain == d) && (r.id == i)
            then with_registration r time infos
            else ps)
          (moved-keep w)
      ∙ ground (arith, string_key.beq_iff domain d, string_key.beq_iff r.id i)

  accepted-described :
      WellFormed s
      → (stale : Bool) (t : ℕ) (k : RegistrationType)
      → registered_as (if stale then none else some t) k r s d i ≡ (
          if stale then before else (elim k [
            | data_product ↦ product_described (or_else s.domain r.domain) (whole_seconds t)
            | service ↦ url_moved
          ]))
  accepted-described w true t k = refl
  accepted-described w false t data_product = data-described w (or_else s.domain r.domain) t
  accepted-described w false t service = moved-keep w

  stale-or_else : (t : ℕ) (known : Option ℕ) → is_stale t known ≡ ltb t (or_else 0 known)
  stale-or_else t none = ground arith
  stale-or_else t (some n) = refl

  registered-described : WellFormed s → registered r s d i ≡ described
  unfolding accepted
  registered-described w = go r.timestamp
    where
      go :
          (timestamp : Option ℕ)
          → registered_as
              (elim timestamp [
                | none ↦ none
                | some t ↦
                    if is_stale t (lookup r.url s.registration_instance_map) then none else some t
              ])
              r.kind
              r
              s
              d
              i
            ≡ (elim timestamp [
              | none ↦ before
              | some t ↦
                  if ltb t (get_or 0 r.url s.registration_instance_map)
                  then before
                  else (elim r.kind [
                    | data_product ↦ product_described (or_else s.domain r.domain) (whole_seconds t)
                    | service ↦ url_moved
                  ])
            ])
      go none = refl
      go (some t) =
          ap (λ b. registered_as (if b then none else some t) r.kind r s d i)
            (stale-or_else t (lookup r.url s.registration_instance_map))
          ∙ accepted-described w (ltb t (get_or 0 r.url s.registration_instance_map)) t r.kind

-- What handleRegister leaves for every domain and product, when each list names a url once. A
-- registration without a timestamp, or with one below that of its url, changes nothing; nor does
-- one of a data product whose list has the url with the same second. Any other takes the url from
-- every product of our own domain whose name is not the registered one's; and one of a data product
-- puts the url into the list of the product, with the time in seconds, where a publisher that has
-- the url keeps its place and what the registration does not give.
pub handle_register-described :
    (r : Registration) (s : Directory)
    → WellFormed s
    → (d i : String) → publishers_of (handle_register r s).1 d i ≡ described r s d i
handle_register-described r s w d i =
    publishers_of-handle_register r s w d i ∙ registered-described r s d i w

-- What handleUnregister leaves for every domain and product, when each list names a url once: the
-- list that a request for a data product names keeps all but the publisher with the url and the
-- registration time of the request, and every other list, and every list when the request is for a
-- service, stays as it was.
pub handle_unregister-described :
    (u : Unregistration) (s : Directory)
    → WellFormed s
    → (d i : String)
    → publishers_of (handle_unregister u s).1 d i ≡ (elim u.kind [
      | data_product ↦
          if (or_else s.domain u.domain == d) && (u.id == i)
          then keep
              (λ p. not (p.url == u.url && nat_eq p.registration_time u.registration_time))
              (publishers_of s d i)
          else publishers_of s d i
      | service ↦ publishers_of s d i
    ])
handle_unregister-described u s w d i =
    publishers_of-handle_unregister u s d i
    ∙ ap
        (λ ps. elim u.kind [
          | data_product ↦
              if (or_else s.domain u.domain == d) && (u.id == i) then ps else publishers_of s d i
          | service ↦ publishers_of s d i
        ])
        (erase_registration-keep u.url u.registration_time (publishers_of s d i) (w.distinct d i))
