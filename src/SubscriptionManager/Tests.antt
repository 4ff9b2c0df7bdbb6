-- ===== src/SubscriptionManager/Tests.antt =====
-- A subscription with two monitors, another monitor's filter, products of a socket, and relays.
use gravity.Prelude.{
  ℕ, ◌≡◌, refl, true, false, List, [], ◌∷◌, none, some, is_empty, is_some, if◌then◌else◌,
}
use gravity.Prelude.Key.{string_key, nat_key}
use gravity.Prelude.Maps.{lookup, has, get_or, insert, place, replace, erase, touch}
use gravity.Prelude.Sorting.{sort_by}
use gravity.PollItems.{is_polled}
use gravity.DataProduct.{Product, new_product}
use gravity.SubscriptionManager.Trim.{
  Info, trim_publishers, own_relay, plain, chosen, first_local_relay, last_global_relay,
  trim_publishers-chosen,
}
use gravity.SubscriptionManager.State.{
  DomainDataKey, domain_data_key, wait, Manager, init, details_at,
}
use gravity.SubscriptionManager.Subscribing.{
  Subscription, known_object, add_subscription, remove_subscription, subscribe_all,
}
use gravity.SubscriptionManager.Monitors.{MonitorRequest, set_timeout_monitor}
use gravity.SubscriptionManager.Incoming.{read_all}
use gravity.SubscriptionManager.Fresh.{last_time, IsDeliverable, read_all-IsDeliverable}
use gravity.SubscriptionManager.Forgetting.{remove_subscription-set_timeout_monitor}
use gravity.SubscriptionManager.Leaving.{subscribe_all-remove_subscription}

abbrev camera : Info
camera = record {
  url = some "tcp://camera:4001";
  is_relay = false;
  component_id = "Camera";
  ip_address = none;
  registration_time = 5;
}

abbrev relay : Info
relay = record camera { url = some "tcp://relay:4001"; is_relay = true; component_id = "Relay" }

trim_publishers-chosen_example : trim_publishers "Viewer" "10.0.0.1" (camera ∷ relay ∷ []) ≡ (
    if is_some (own_relay "Viewer" (camera ∷ relay ∷ []))
    then plain (camera ∷ relay ∷ [])
    else chosen
        (first_local_relay "10.0.0.1" (camera ∷ relay ∷ []))
        (last_global_relay (camera ∷ relay ∷ []))
        (plain (camera ∷ relay ∷ [])))
trim_publishers-chosen_example = trim_publishers-chosen "Viewer" "10.0.0.1" (camera ∷ relay ∷ [])

abbrev first_image : Product
first_image = record (new_product "Image") { registration_time = 5; timestamp = 7 }

abbrev cached_image : Product
cached_image = record first_image { timestamp = 9; is_cached = true }

abbrev others_image : Product
others_image = record first_image { timestamp = 12; registration_time = 6 }

abbrev batch : List (ℕ × Product)
batch = (20, first_image) ∷ (21, cached_image) ∷ (22, first_image) ∷ (23, others_image) ∷ []

read_all-IsDeliverable_example :
    IsDeliverable false 5
      (last_time (get_or {K = ℕ} none 1 []))
      (read_all false 5 1 batch []).accepted
read_all-IsDeliverable_example = read_all-IsDeliverable false 5 1 batch []

abbrev key : DomainDataKey
key = record { domain = "Lab"; data_product_id = "Image" }

abbrev left_images : Subscription
left_images = record {
  key = key;
  receive_last_cached_value = true;
  publishers = camera ∷ [];
  filter = "left";
  publisher_update_url = "tcp://directory:5000";
  subscriber = 3;
}

abbrev subscribed : Manager
subscribed = add_subscription 1_000_000 left_images (init "Viewer" "10.0.0.1")

abbrev right_monitor : MonitorRequest
right_monitor = record { key = key; monitor = 7; timeout = wait 5000; filter = "right" }

right_unknown : known_object key "right" subscribed ≡ none
unfolding add_subscription trim_publishers lookup insert place replace erase touch sort_by
right_unknown = refl

abbrev right_set : Manager
right_set = set_timeout_monitor 1_000_000 right_monitor subscribed

remove_subscription-set_timeout_monitor_example :
    (known_object key "left" right_set ≡ none)
    × ((remove_subscription key "left" 3 right_set).outputs ≡ subscribed.outputs)
    × ((remove_subscription key "left" 3 right_set).poll_items ≡ subscribed.poll_items)
    × ((remove_subscription key "left" 3 right_set).subscription_socket_map
        ≡ subscribed.subscription_socket_map)
remove_subscription-set_timeout_monitor_example =
    remove_subscription-set_timeout_monitor 1_000_000 right_monitor "left" 3 subscribed
      right_unknown refl

abbrev long_monitor : MonitorRequest
long_monitor = record right_monitor { filter = "left" }

abbrev short_monitor : MonitorRequest
short_monitor = record long_monitor { monitor = 8; timeout = wait 100 }

abbrev monitored : Manager
monitored =
    set_timeout_monitor 1_000_000 short_monitor
      (set_timeout_monitor 1_000_000 long_monitor subscribed)

left_known : known_object key "left" monitored ≡ some 0
unfolding add_subscription set_timeout_monitor trim_publishers lookup insert place replace erase
    touch sort_by
left_known = refl

last_leaves : is_empty (erase 3 (details_at 0 monitored).subscribers) ≡ true
unfolding add_subscription set_timeout_monitor trim_publishers lookup insert place replace erase
    touch sort_by
last_leaves = refl

monitors_stay : is_empty (details_at 0 monitored).monitors ≡ false
unfolding add_subscription set_timeout_monitor trim_publishers lookup insert place replace erase
    touch sort_by
monitors_stay = refl

abbrev left_alone : Manager
left_alone = remove_subscription key "left" 3 monitored

subscribe_all-remove_subscription_example :
    (is_polled 1 left_alone.poll_items ≡ false)
    × (has 1 left_alone.subscription_socket_map ≡ false)
    × (known_object key "left" left_alone ≡ some 0)
    × (subscribe_all 0 (camera ∷ []) left_alone ≡ left_alone)
unfolding add_subscription set_timeout_monitor trim_publishers lookup insert place replace erase
    touch sort_by
subscribe_all-remove_subscription_example =
    subscribe_all-remove_subscription key "left" 3 0 monitored left_known last_leaves monitors_stay
      (camera ∷ []) 1 refl refl
