-- ===== src/Synchronizer/Made.antt =====
-- The requests that the synchronizer makes up are those that its messages tell of.
use gravity.Prelude.{
  ℕ, ◌≡◌, refl, ap, ap₂, ◌∙◌, String, Bool, true, false, List, [], ◌∷◌, ◌++◌, Option, none, some,
  if◌then◌else◌, arith,
}
use gravity.Directory.Messages.{
  RegistrationType, data_product, service, ProductLocations, ProviderMap,
}
use gravity.Directory.Requests.{Request}
use gravity.Synchronizer.State.{
  Details, change_of, url_registrations, registrations, initial_updates, incremental_update,
  registration_update, unregistration_update, url_removals, removals, domain_removals,
}
use gravity.Synchronizer.Remotes.{updates_of}
use gravity.Synchronizer.Told.{
  each, withdrawn_from, withdrawn, announced_at, announced_by, announced, changed,
}

-- what was made up, if the lists of the map were long enough
abbrev pub Makes : Option (List Request) → List Request → Type 0
Makes none us = Unit {0}
Makes (some vs) us = vs ≡ us

url_removals-map :
    (domain : String) (kind : RegistrationType) (time : ℕ) (p : ProductLocations)
    → url_removals p.product_id domain kind time p.urls ≡ withdrawn_from domain kind time p
unfolding url_removals
url_removals-map domain kind time p = go p.urls
  where
    go :
        (us : List String)
        → url_removals p.product_id domain kind time us
          ≡ withdrawn_from domain kind time (record p { urls = us })
    go [] = refl
    go (u ∷ us) = ap (◌∷◌ (unregistration_update p.product_id u domain kind time)) (go us)

removals-each :
    (domain : String) (kind : RegistrationType) (time : ℕ) (ps : List ProductLocations)
    → removals domain kind time ps ≡ each (withdrawn_from domain kind time) ps
unfolding removals
removals-each domain kind time [] = refl
removals-each domain kind time (p ∷ ps) =
    ap₂ ◌++◌ (url_removals-map domain kind time p) (removals-each domain kind time ps)

kind_of :
    (m : ProviderMap)
    → (change_of m).registration_type
      ≡ (elim m.change [ none ↦ data_product | some c ↦ c.registration_type ])
kind_of m = ground arith

pub domain_removals-withdrawn :
    (domain : String) (d : Details) → domain_removals domain d ≡ withdrawn domain d
unfolding domain_removals
domain_removals-withdrawn domain d =
    let kind = (change_of d.provider_map).registration_type in
    ap₂ ◌++◌ (removals-each domain kind d.registration_time d.provider_map.service_providers)
      (removals-each domain kind d.registration_time d.provider_map.data_providers)
    ∙ ap
        (λ k.
          each (withdrawn_from domain k d.registration_time) d.provider_map.service_providers
          ++ each (withdrawn_from domain k d.registration_time) d.provider_map.data_providers)
        (kind_of d.provider_map)

url_registrations-Makes :
    (id domain : String) (kind : RegistrationType) (us cs : List String) (ts : List ℕ)
    → Makes (url_registrations id domain kind us cs ts) (announced_at domain kind id us cs ts)
unfolding url_registrations
url_registrations-Makes id domain kind [] cs ts = refl
url_registrations-Makes id domain kind (u ∷ us) [] ts = tt
url_registrations-Makes id domain kind (u ∷ us) (c ∷ cs) [] = tt
url_registrations-Makes id domain kind (u ∷ us) (c ∷ cs) (t ∷ ts) =
    go (url_registrations id domain kind us cs ts) (url_registrations-Makes id domain kind us cs ts)
  where
    go :
        (o : Option (List Request))
        → Makes o (announced_at domain kind id us cs ts)
        → Makes
            (elim o [
              | none ↦ none
              | some rest ↦ some (registration_update id u c domain kind t ∷ rest)
            ])
            (announced_at domain kind id (u ∷ us) (c ∷ cs) (t ∷ ts))
    go none h = tt
    go (some rest) h = ap (◌∷◌ (registration_update id u c domain kind t)) h

-- two parts, of which either may fail
both :
    (o q : Option (List Request)) (us vs : List Request)
    → Makes o us
    → Makes q vs
    → Makes
        (elim o [ none ↦ none | some a ↦ (elim q [ none ↦ none | some b ↦ some (a ++ b) ]) ])
        (us ++ vs)
both none q us vs h k = tt
both (some a) none us vs h k = tt
both (some a) (some b) us vs h k = ap₂ ◌++◌ h k

registrations-Makes :
    (domain : String) (kind : RegistrationType) (ps : List ProductLocations)
    → Makes (registrations domain kind ps) (each (announced_by domain kind) ps)
unfolding registrations
registrations-Makes domain kind [] = refl
registrations-Makes domain kind (p ∷ ps) =
    both (url_registrations p.product_id domain kind p.urls p.component_ids p.timestamps)
      (registrations domain kind ps) _ _
      (url_registrations-Makes p.product_id domain kind p.urls p.component_ids p.timestamps)
      (registrations-Makes domain kind ps)

initial_updates-Makes : (m : ProviderMap) → Makes (initial_updates m.domain m) (announced m)
unfolding initial_updates
initial_updates-Makes m =
    both (registrations m.domain service m.service_providers)
      (registrations m.domain data_product m.data_providers) _ _
      (registrations-Makes m.domain service m.service_providers)
      (registrations-Makes m.domain data_product m.data_providers)

one_change : (m : ProviderMap) → incremental_update m.domain (change_of m) ≡ changed m
unfolding incremental_update
one_change m = ground arith

pub updates_of-Makes :
    (b : Bool) (m : ProviderMap)
    → Makes (updates_of b m) (if b then changed m ∷ [] else announced m)
unfolding updates_of incremental_update
updates_of-Makes false m = initial_updates-Makes m
updates_of-Makes true m = ap (λ u. u ∷ []) (one_change m)
