-- ===== src/Directory/SilentWrites.antt =====
-- The steps that change no read of the maps: what is published, and what waits to be.
use gravity.Prelude.{ℕ, ◌≡◌, refl, String, Bool, true, false, [], if◌then◌else◌}
use gravity.Prelude.Key.{string_key}
use gravity.Prelude.Maps.{Set, get_or, insert, touch, get_or-touch}
use gravity.Directory.Messages.{registered_publishers, Publication, ChangeType, RegistrationType}
use gravity.Directory.State.{Directory, open_products, publish}
use gravity.Directory.Publishers.{announce, lookup_response}
use gravity.Directory.Locations.{
  touch_services, touch_products, read_own_locations, update_product_locations,
}
use gravity.Directory.View.{
  SameView, SameView-trans, touch_keeps, touch_services-SameView, touch_products-SameView,
  components-SameView, open_services-SameView, open_products-SameView,
}

pub publish-SameView : (p : Publication) (s : Directory) → SameView s (publish p s)
unfolding publish
publish-SameView p s = record {
  same_domain = refl;
  same_publishers = λ d i. refl;
  same_services = λ d i. refl;
  same_instances = λ u. refl;
  kept_instances = λ u time h. h;
  same_ready = refl;
  same_processed = refl;
  settled = λ h. refl;
}

read_own_locations-SameView : (url : String) (s : Directory) → SameView s (read_own_locations url s)
unfolding read_own_locations
read_own_locations-SameView url s =
    let s1 = record s { service_map = touch [] s.domain s.service_map } in
    let s2 = touch_services (get_or [] s.domain s.service_map) s1 in
    let s3 = touch_products (get_or [] s.domain s.data_product_map) (open_products s.domain s2) in
    SameView-trans (open_services-SameView s.domain s) (
      SameView-trans (touch_services-SameView (get_or [] s.domain s.service_map) s1) (
        SameView-trans (open_products-SameView s.domain s2) (
          SameView-trans
            (touch_products-SameView (get_or [] s.domain s.data_product_map)
              (open_products s.domain s2))
            (components-SameView (touch "" url s3.url_to_component_map) s3))))

pub update_product_locations-SameView :
    (id url : String) (time : ℕ) (change : ChangeType) (kind : RegistrationType) (s : Directory)
    → SameView s (update_product_locations id url time change kind s)
unfolding update_product_locations
update_product_locations-SameView id url time change kind s =
    SameView-trans (read_own_locations-SameView url s) (publish-SameView _ _)

-- A branch that leaves the view alone either way.
pub if-SameView :
    (c : Bool) {s t u : Directory} → SameView s t → SameView s u → SameView s (if c then t else u)
if-SameView true a b = a
if-SameView false a b = b

queue-SameView :
    (m : Set String) (s : Directory)
    → s.registered_publishers_ready ≡ false
    → SameView s (record s { register_updates_to_send = m })
queue-SameView m s early = record {
  same_domain = refl;
  same_publishers = λ d i. refl;
  same_services = λ d i. refl;
  same_instances = λ u. refl;
  kept_instances = λ u time h. h;
  same_ready = refl;
  same_processed = refl;
  settled = λ ready. cc;
}

pub announce-SameView : (id domain : String) (s : Directory) → SameView s (announce id domain s)
unfolding announce
announce-SameView id domain s = by_ready s.registered_publishers_ready refl
  where
    by_ready :
        (c : Bool)
        → s.registered_publishers_ready ≡ c
        → SameView s (
            if c
            then publish
                (registered_publishers (lookup_response s domain id) id)
                (open_products domain s)
            else record s { register_updates_to_send = insert id tt s.register_updates_to_send })
    by_ready true ready = SameView-trans (open_products-SameView domain s) (publish-SameView _ _)
    by_ready false early = queue-SameView (insert id tt s.register_updates_to_send) s early

pub touch_instance-SameView :
    (url : String) (s : Directory)
    → SameView s (record s { registration_instance_map = touch 0 url s.registration_instance_map })
touch_instance-SameView url s = record {
  same_domain = refl;
  same_publishers = λ d i. refl;
  same_services = λ d i. refl;
  same_instances = λ u. get_or-touch 0 url u s.registration_instance_map;
  kept_instances = λ u time h. touch_keeps url u time s.registration_instance_map h;
  same_ready = refl;
  same_processed = refl;
  settled = λ h. refl;
}

-- A branch that also answers.
pub pick-SameView {ℓ} :
    {A : Type ℓ} (a b : A) (c : Bool) {s t u : Directory}
    → SameView s t
    → SameView s u
    → SameView s (let r : A × Directory = if c then (a, t) else (b, u) in r.1)
pick-SameView a b true v w = v
pick-SameView a b false v w = w
