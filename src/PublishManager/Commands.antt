-- ===== src/PublishManager/Commands.antt =====
-- The requests of the node: registerDataProduct, unregisterDataProduct, setHWM, setKeepAlive and
-- subscribersExist.
use gravity.Prelude.{ℕ, ◌+◌, String, Bool, false, [], ◌∷◌, ◌++◌, Option, none, some, if◌then◌else◌}
use gravity.Prelude.Key.{string_key, nat_key}
use gravity.Prelude.Maps.{Map, lookup, get_or, insert, erase, touch}
use gravity.PollItems.{without}
use gravity.Ports.{Url, Endpoint, bound_url}
use gravity.Metrics
use gravity.PublishManager.State.{Details, Manager}

-- what registerDataProduct reads
pub record Registration : Type 0 where
  pub data_product_id : String
  pub cache_last_value : Bool
  pub binding : Endpoint

-- the answers on the node's socket that tell it something
pub data Reply : Type 0 where
  no_reply : Reply
  url_reply : Option Url → Reply
  unknown_product : String → Reply
  subscribers : Bool → Reply

abbrev pub new_details : Registration → Url → ℕ → Details
new_details r url socket = record {
  url = url;
  data_product_id = r.data_product_id;
  cache_last_value = r.cache_last_value;
  last_cached_values = [];
  socket = socket;
  has_subscribers = false;
}

unfoldable pub add_publisher : Registration → Option Url → Manager → Reply × Manager
add_publisher r none s = (url_reply none, record s { next_socket = s.next_socket + 1 })
add_publisher r (some url) s = (
  url_reply (some url),
  record s {
    objects = insert s.next_object (new_details r url s.next_socket) s.objects;
    next_object = s.next_object + 1;
    next_socket = s.next_socket + 1;
    publish_map_by_id = insert r.data_product_id (some s.next_object) s.publish_map_by_id;
    publish_map_by_socket = insert s.next_socket s.next_object s.publish_map_by_socket;
    poll_items = s.poll_items ++ s.next_socket ∷ [];
  },
)

-- registerDataProduct: without a socket, no answer is sent
unfoldable pub register_data_product :
    Bool → (Url → Bool) → Registration → Manager → Reply × Manager
unfolding bound_url add_publisher
register_data_product can_open can_bind r s =
    if can_open then add_publisher r (bound_url can_bind r.binding) s else (no_reply, s)

unfoldable pub forget_values : Details → Details
forget_values d = record d { last_cached_values = []; has_subscribers = false }

unfoldable pub remove_publisher : String → ℕ → Option Details → Manager → Option Manager
unfolding forget_values
remove_publisher id p none s = none
remove_publisher id p (some d) s = some (record s {
  objects = insert p (forget_values d) s.objects;
  publish_map_by_socket = erase d.socket s.publish_map_by_socket;
  publish_map_by_id = erase id s.publish_map_by_id;
  poll_items = without d.socket s.poll_items;
})

-- by what publishMapByID has: nothing, a null pointer that is followed, or an object
unfoldable pub remove_known : String → Option (Option ℕ) → Manager → Option Manager
unfolding remove_publisher
remove_known id none s = some s
remove_known id (some none) s = none
remove_known id (some (some p)) s = remove_publisher id p (lookup p s.objects) s

-- unregisterDataProduct; none stands for a null pointer that is followed
unfoldable pub unregister_data_product : String → Manager → Option Manager
unfolding remove_known Metrics.remove
unregister_data_product id s =
    remove_known id (lookup id s.publish_map_by_id)
      (record s { metrics_data = Metrics.remove id s.metrics_data })

-- setHWM
unfoldable pub set_hwm : ℕ → Manager → Manager
set_hwm hwm s = record s { settings = record s.settings { publish_hwm = hwm } }

-- setKeepAlive
unfoldable pub set_keep_alive : ℕ → ℕ → ℕ → Manager → Manager
set_keep_alive time probes interval s = record s {
  settings = record s.settings { tcp_keep_alive = some (time, probes, interval) };
}

-- publishMapByID[id] makes a null pointer for an unknown product
unfoldable pub touch_id : String → Manager → Manager
touch_id id s = record s { publish_map_by_id = touch none id s.publish_map_by_id }

abbrev pub numbered : ℕ → Option Details → Option (ℕ × Details)
numbered p none = none
numbered p (some d) = some (p, d)

abbrev pub object_of : Option ℕ → Map ℕ Details → Option (ℕ × Details)
object_of none m = none
object_of (some p) m = numbered p (lookup p m)

-- the object of a product
abbrev pub known_details : String → Manager → Option (ℕ × Details)
known_details id s = object_of (get_or none id s.publish_map_by_id) s.objects

-- subscribersExist
unfoldable pub subscribers_exist : String → Manager → Reply × Manager
unfolding touch_id
subscribers_exist id s = (
  elim (known_details id s) [
    | none ↦ unknown_product id
    | some (p, d) ↦ subscribers d.has_subscribers
  ],
  touch_id id s,
)
