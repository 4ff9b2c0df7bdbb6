-- ===== src/PublishManager/Tests.antt =====
-- A cached product with two values, which a late subscriber gets, and its removal.
use gravity.Prelude.{ℕ, ◌≡◌, refl, Bool, true, not, List, [], ◌∷◌, ◌++◌, map, none, some, nat_eq}
use gravity.Prelude.Key.{string_key, nat_key}
use gravity.Prelude.Maps.{lookup, insert, place, replace, touch}
use gravity.Prelude.Sorting.{IsSortedBy}
use gravity.DataProduct.{Product, new_product}
use gravity.Ports.{Url, tcp_url, other_url, bound_url}
use gravity.PublishManager.State.{CacheValue, Details, Manager, init}
use gravity.PublishManager.Commands.{Registration, new_details, register_data_product}
use gravity.PublishManager.Publishing.{Publication, cache, publish}
use gravity.PublishManager.Loop.{
  Event, register, unregister, published, subscribed, ask_subscribers, run,
}
use gravity.PublishManager.Agreement.{Inv, init-Inv}
use gravity.PublishManager.Invariant.{register-Inv}
use gravity.PublishManager.Steps.{publish-Inv, step_total}
use gravity.PublishManager.Slots.{slot}
use gravity.PublishManager.Cache.{slots, is_guarded, run-init-slots, run-init_guarded}
use gravity.PublishManager.Resend.{step-subscribed-resent}
use mathlib.Core.List.{Perm}

-- protobuf's size of a product, by its own bytes
abbrev size_of : Product → ℕ
size_of p = 8

-- the port 4000 is taken
abbrev can_bind : Url → Bool
can_bind (tcp_url ip port) = not (nat_eq port 4000)
can_bind (other_url transport endpoint) = true

abbrev image : Registration
image = record {
  data_product_id = "Image";
  cache_last_value = true;
  binding = record {
    transport_type = "tcp";
    min_port = 4000;
    max_port = 4002;
    endpoint = "camera";
  };
}

abbrev left : Publication
left = record {
  data_product_id = "Image";
  timestamp = 7;
  filter_text = "left";
  product = new_product "Image";
}

abbrev right : Publication
right = record left { timestamp = 5; filter_text = "right" }

abbrev events : List Event
events =
    register true can_bind image
    ∷ published left
    ∷ published right
    ∷ ask_subscribers "Sound"
    ∷ subscribed 0 true
    ∷ unregister "Image"
    ∷ []

guarded : is_guarded (λ id. none) events ≡ true
unfolding bound_url
guarded = refl

run-init_guarded_example : (t : Manager) × (run size_of events init ≡ some t) × Inv t
run-init_guarded_example = run-init_guarded size_of events guarded

abbrev last_state : Manager
last_state = (run-init_guarded size_of events guarded).0

run-init-slots_example : slot "Image" "left" last_state ≡ slots "Image" "left" events none
run-init-slots_example =
    run-init-slots size_of "Image" "left" events last_state
      (run-init_guarded size_of events guarded).1

abbrev two_values : Manager
two_values =
    publish size_of right (publish size_of left (register_data_product true can_bind image init).1)

two_values-Inv : Inv two_values
two_values-Inv =
    publish-Inv size_of right _
      (publish-Inv size_of left _ (register-Inv true can_bind image init init-Inv))

abbrev image_details : Details
image_details = cache right (cache left (new_details image (tcp_url "camera" 4001) 0))

socket_leads : lookup 0 two_values.publish_map_by_socket ≡ some 0
unfolding lookup insert place replace touch publish register_data_product cache
socket_leads = refl

image_there : lookup 0 two_values.objects ≡ some image_details
unfolding lookup insert place replace touch publish register_data_product cache
image_there = refl

abbrev subscribed_state : Manager
subscribed_state = (step_total size_of (subscribed 0 true) two_values two_values-Inv refl).0

step-subscribed-resent_example :
    (vs : List CacheValue) × (subscribed_state.sent
      ≡ two_values.sent
        ++ map
            (λ v. record {
              socket = 0;
              filter_text = v.filter_text;
              product = record v.value { is_cached = true };
            })
            vs)
    × Perm vs (map (λ e. e.1) image_details.last_cached_values)
    × IsSortedBy (λ v. v.timestamp) vs
unfolding cache
step-subscribed-resent_example =
    step-subscribed-resent size_of 0 0 image_details two_values subscribed_state two_values-Inv
      socket_leads image_there
      (step_total size_of (subscribed 0 true) two_values two_values-Inv refl).1
