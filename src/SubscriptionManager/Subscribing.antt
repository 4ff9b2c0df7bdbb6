-- ===== src/SubscriptionManager/Subscribing.antt =====
-- addSubscription and removeSubscription.
use gravity.Prelude.{
  ℕ, ◌+◌, String, Bool, List, [], ◌∷◌, ◌++◌, Option, none, some, is_empty, if◌then◌else◌, ◌/◌,
}
use gravity.Prelude.Key.{string_key, nat_key}
use gravity.Prelude.Maps.{Map, lookup, has, get_or, insert, erase, touch}
use gravity.Prelude.Sorting.{sort_by}
use gravity.PollItems.{without}
use gravity.DataProduct.{Product}
use gravity.Metrics
use gravity.SubscriptionManager.Trim.{Info, trim_publishers}
use gravity.SubscriptionManager.State.{
  DomainDataKey, domain_data_key, Socket, plus, TimeoutMonitor, Details, subscription_filled,
  opened, closed, Manager, new_details, details_at, set_details, emit,
}

-- setupSubscription: the new socket is the number that was next
unfoldable pub setup_subscription : String → String → Manager → Manager
setup_subscription url filter s =
    emit (opened s.next_socket url filter s.subscribe_hwm) (record s {
      next_socket = s.next_socket + 1;
      poll_items = s.poll_items ++ s.next_socket ∷ [];
    })

abbrev pub add_socket : String → ℕ → Details → Details
add_socket url socket d = record d {
  poll_item_map = insert url (some socket) d.poll_item_map;
  socket_to_url_map = insert socket url d.socket_to_url_map;
}

-- a new socket of an object, for a publisher
unfoldable pub open_publisher : ℕ → String → ℕ → Manager → Manager
unfolding setup_subscription
open_publisher p url time s =
    let d = details_at p s in
    let t = setup_subscription url d.filter s in
    set_details p (add_socket url s.next_socket d) (record t {
      subscription_socket_map = insert s.next_socket p t.subscription_socket_map;
      socket_verification_map = insert s.next_socket time t.socket_verification_map;
    })

abbrev pub subscribe_url : ℕ → Option String → ℕ → Manager → Manager
subscribe_url p none time s = s
subscribe_url p (some url) time s =
    if has url (details_at p s).poll_item_map then s else open_publisher p url time s

unfoldable pub subscribe_all : ℕ → List Info → Manager → Manager
unfolding open_publisher
subscribe_all p [] s = s
subscribe_all p (i ∷ is) s = subscribe_all p is (subscribe_url p i.url i.registration_time s)

-- what addSubscription reads
pub record Subscription : Type 0 where
  pub key : DomainDataKey
  pub receive_last_cached_value : Bool
  pub publishers : List Info
  pub filter : String
  pub publisher_update_url : String
  pub subscriber : ℕ

-- new details with their filter, in the main map
abbrev pub map_details : DomainDataKey → String → ℕ → Map String ℕ → Details → Manager → Manager
map_details key filter p filters d s = record s {
  objects = insert p d s.objects;
  next_object = p + 1;
  subscription_map = insert key (insert filter p filters) s.subscription_map;
}

-- the object of a subscription, and the state
pub record Found : Type 0 where
  pub object : ℕ
  pub manager : Manager

abbrev pub find_details : Subscription → Option ℕ → Manager → Found
find_details a (some p) s = record { object = p; manager = s }
find_details a none s = record {
  object = s.next_object;
  manager =
      map_details a.key a.filter s.next_object (get_or [] a.key s.subscription_map)
        (new_details a.key a.filter a.receive_last_cached_value (some s.next_socket))
        (setup_subscription a.publisher_update_url a.key.data_product_id s);
}

abbrev pub known_object : DomainDataKey → String → Manager → Option ℕ
known_object key filter s = lookup filter (get_or [] key s.subscription_map)

abbrev pub restart : ℕ → List TimeoutMonitor → List TimeoutMonitor
restart now [] = []
restart now (m ∷ ms) = record m { end_time = plus now m.timeout } ∷ restart now ms

-- a monitor that was there before the subscribers starts anew
abbrev pub restart_monitors : ℕ → Details → Details
restart_monitors now d =
    if is_empty d.subscribers then record d { monitors = restart (now / 1000) d.monitors } else d

-- the cached value of a socket; the null socket has none
abbrev pub cached_at : Socket → Map ℕ (Option Product) → Option Product
cached_at none cached = none
cached_at (some socket) cached = get_or none socket cached

abbrev pub cached_values : Map String Socket → Map ℕ (Option Product) → List Product
cached_values [] cached = []
cached_values ((url, o) ∷ m) cached =
    let rest = cached_values m cached in
    elim (cached_at o cached) [ none ↦ rest | some q ↦ q ∷ rest ]

-- reading a value makes a missing entry
abbrev pub touch_at : Socket → Map ℕ (Option Product) → Map ℕ (Option Product)
touch_at none cached = cached
touch_at (some socket) cached = touch none socket cached

abbrev pub touch_sockets : Map String Socket → Map ℕ (Option Product) → Map ℕ (Option Product)
touch_sockets [] cached = cached
touch_sockets ((url, o) ∷ m) cached = touch_sockets m (touch_at o cached)

abbrev pub fill : ℕ → List Product → Manager → Manager
fill subscriber [] s = s
fill subscriber (q ∷ qs) s = emit (subscription_filled subscriber (q ∷ qs)) s

-- a subscriber that is not yet in the list
abbrev pub add_subscriber : Subscription → ℕ → Manager → Manager
add_subscriber a p s =
    let d = details_at p s in
    let t = set_details p (record d { subscribers = insert a.subscriber tt d.subscribers }) s in
    if a.receive_last_cached_value
    then fill a.subscriber
        (sort_by (λ q. q.timestamp) (cached_values d.poll_item_map t.last_cached_value_map))
        (record t { last_cached_value_map = touch_sockets d.poll_item_map t.last_cached_value_map })
    else t

abbrev pub greet : Subscription → ℕ → Manager → Manager
greet a p s = if has a.subscriber (details_at p s).subscribers then s else add_subscriber a p s

-- addSubscription, at a time in microseconds
unfoldable pub add_subscription : ℕ → Subscription → Manager → Manager
unfolding setup_subscription subscribe_all
add_subscription now a s =
    let found = find_details a (known_object a.key a.filter s) s in
    let t =
      subscribe_all found.object (trim_publishers s.component_id s.ip_address a.publishers)
        found.manager in
    greet a found.object
      (set_details found.object (restart_monitors now (details_at found.object t)) t)

-- unsubscribeFromPollItem, removePollItem and the end of the cached value
abbrev pub close_socket : ℕ → Manager → Manager
close_socket socket s = emit (closed socket) (record s {
  subscription_socket_map = erase socket s.subscription_socket_map;
  socket_verification_map = erase socket s.socket_verification_map;
  poll_items = without socket s.poll_items;
  last_cached_value_map = erase socket s.last_cached_value_map;
})

-- closing the null socket does nothing
abbrev pub close_at : Socket → Manager → Manager
close_at none s = s
close_at (some socket) s = close_socket socket s

unfoldable pub close_sockets : Map String Socket → Manager → Manager
close_sockets [] s = s
close_sockets ((url, o) ∷ m) s = close_sockets m (close_at o s)

-- a null poll item is not polled, and closing it does nothing
abbrev pub close_updates : Socket → Manager → Manager
close_updates none s = s
close_updates (some socket) s =
    emit (closed socket) (record s { poll_items = without socket s.poll_items })

-- the details leave the main map, and their publisher updates end
abbrev pub forget_details : DomainDataKey → String → Details → Manager → Manager
forget_details key filter d s =
    let filters = erase filter (get_or [] key s.subscription_map) in
    close_updates d.publisher_update_poll_item (record s {
      subscription_map =
          if is_empty filters
          then erase key s.subscription_map
          else insert key filters s.subscription_map;
    })

abbrev pub leave : DomainDataKey → String → Details → Manager → Manager
leave key filter d s =
    if is_empty d.subscribers
    then close_sockets d.poll_item_map
        (if is_empty d.monitors then forget_details key filter d s else s)
    else s

abbrev pub remove_subscriber : DomainDataKey → String → ℕ → Option ℕ → Manager → Manager
remove_subscriber key filter subscriber none s = s
remove_subscriber key filter subscriber (some p) s =
    let d = details_at p s in
    let left = record d { subscribers = erase subscriber d.subscribers } in
    leave key filter left (set_details p left s)

-- removeSubscription
unfoldable pub remove_subscription : DomainDataKey → String → ℕ → Manager → Manager
unfolding close_sockets Metrics.remove
remove_subscription key filter subscriber s =
    remove_subscriber key filter subscriber (known_object key filter s)
      (record s { metrics_data = Metrics.remove key.data_product_id s.metrics_data })
