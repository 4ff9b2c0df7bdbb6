-- ===== src/PublishManager/Publishing.antt =====
-- publish, and the values for a new subscriber.
use gravity.Prelude.{
  ℕ, String, Bool, true, false, List, [], ◌∷◌, ◌++◌, map, Option, none, some, if◌then◌else◌,
}
use gravity.Prelude.Key.{string_key, nat_key}
use gravity.Prelude.Maps.{Map, lookup, insert}
use gravity.Prelude.Sorting.{sort_by}
use gravity.DataProduct.{Product}
use gravity.Metrics.{increment_message_count, increment_byte_count}
use gravity.PublishManager.State.{CacheValue, Details, Sent, Manager}
use gravity.PublishManager.Commands.{touch_id, known_details}

-- what publish reads
pub record Publication : Type 0 where
  pub data_product_id : String
  pub timestamp : ℕ
  pub filter_text : String
  pub product : Product

abbrev pub cache_value : Publication → CacheValue
cache_value q = record { filter_text = q.filter_text; value = q.product; timestamp = q.timestamp }

unfoldable pub cache : Publication → Details → Details
cache q d =
    if d.cache_last_value
    then record d { last_cached_values = insert q.filter_text (cache_value q) d.last_cached_values }
    else d

unfoldable pub send : Sent → Manager → Manager
send m s = record s { sent = s.sent ++ m ∷ [] }

-- The bytes that a product takes, which is protobuf's.
module _ (size_of : Product → ℕ) where
  unfoldable pub count : Publication → Manager → Manager
  unfolding increment_message_count increment_byte_count
  count q s =
      if s.metrics_enabled
      then record s {
        metrics_data =
            increment_byte_count q.data_product_id (size_of q.product)
              (increment_message_count q.data_product_id 1 s.metrics_data);
      }
      else s

  unfoldable pub publish_details : Publication → Option (ℕ × Details) → Manager → Manager
  unfolding cache send count
  publish_details q none s = s
  publish_details q (some (p, d)) s = count q (
      send (record { socket = d.socket; filter_text = q.filter_text; product = q.product })
        (record s { objects = insert p (cache q d) s.objects }))

  -- publish(requestSocket)
  unfoldable pub publish : Publication → Manager → Manager
  unfolding touch_id publish_details
  publish q s = publish_details q (known_details q.data_product_id s) (touch_id q.data_product_id s)

unfoldable pub values : Map String CacheValue → List CacheValue
values [] = []
values ((k, v) ∷ m) = v ∷ values m

abbrev pub resent : ℕ → CacheValue → Sent
resent socket v = record {
  socket = socket;
  filter_text = v.filter_text;
  product = record v.value { is_cached = true };
}

-- a new subscriber, or no more of them, at the socket of the object; the cached values go out again
-- in the order of their times
unfoldable pub note_subscribers : Bool → ℕ → Option Details → Manager → Option Manager
unfolding values
note_subscribers new p none s = none
note_subscribers false p (some d) s =
    some (record s { objects = insert p (record d { has_subscribers = false }) s.objects })
note_subscribers true p (some d) s = some (record s {
  objects = insert p (record d { has_subscribers = true }) s.objects;
  sent = s.sent ++ map (resent d.socket) (sort_by (λ v. v.timestamp) (values d.last_cached_values));
})

unfoldable pub note_at : Bool → Option ℕ → Manager → Option Manager
unfolding note_subscribers
note_at new none s = none
note_at new (some p) s = note_subscribers new p (lookup p s.objects) s

-- a message on a publisher's socket; none stands for a null pointer that is followed
unfoldable pub subscription : ℕ → Bool → Manager → Option Manager
unfolding note_at
subscription socket new s = note_at new (lookup socket s.publish_map_by_socket) s
