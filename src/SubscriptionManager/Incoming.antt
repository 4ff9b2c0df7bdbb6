-- ===== src/SubscriptionManager/Incoming.antt =====
-- The products that come at a publisher's socket: which are new, and who gets them.
use gravity.Prelude.{
  ℕ, ◌/◌, Bool, true, false, not, ◌&&◌, ◌||◌, List, [], ◌∷◌, Option, none, some, nat_eq, ltb,
  if◌then◌else◌,
}
use gravity.Prelude.Key.{◌==◌, string_key, nat_key}
use gravity.Prelude.Maps.{Map, Set, get_or, insert, touch}
use gravity.DataProduct.{Product, same_product}
use gravity.Metrics.{increment_message_count, increment_byte_count}
use gravity.SubscriptionManager.State.{
  plus, TimeoutMonitor, subscription_filled, Manager, details_at, set_details, emit,
}

-- a cached product that a relay sends again
abbrev pub is_resend : Product → Option Product → Bool
is_resend q none = false
is_resend q (some c) =
    nat_eq c.timestamp q.timestamp && (c.component_id == q.component_id) && same_product c q

abbrev pub is_cached_somewhere : Product → Map ℕ (Option Product) → Bool
is_cached_somewhere q [] = false
is_cached_somewhere q ((k, c) ∷ m) = is_resend q c || is_cached_somewhere q m

abbrev pub is_cached_relay : Product → Option Product → Map ℕ (Option Product) → Bool
is_cached_relay q none cached = q.is_relayed && is_cached_somewhere q cached
is_cached_relay q (some l) cached = false

abbrev pub is_newer : Product → Option Product → Bool
is_newer q none = true
is_newer q (some l) =
    ltb l.timestamp q.timestamp || (nat_eq l.timestamp q.timestamp && not (same_product l q))

abbrev pub is_new : Product → Option Product → Map ℕ (Option Product) → Bool
is_new q last cached = not (is_cached_relay q last cached) && is_newer q last

-- the products for the subscribers, the cached values, and whether the publisher turned out to be
-- another one
pub record Batch : Type 0 where
  pub accepted : List Product
  pub cached : Map ℕ (Option Product)
  pub is_foreign : Bool

abbrev pub accept : Product → Batch → Batch
accept q b = record b { accepted = q ∷ b.accepted }

-- a product of the right publisher; the rest of the batch is read with the values cached by then
abbrev pub take_product :
    Bool → ℕ → ℕ → Product → Map ℕ (Option Product) → (Map ℕ (Option Product) → Batch) → Batch
take_product receive socket now q cached rest =
    if is_new q (get_or none socket cached) cached
    then (let stamped = record q { received_timestamp = now } in
        let b = rest (insert socket (some stamped) cached) in
        if q.is_cached && not receive then b else accept stamped b)
    else rest cached

-- The products that are there at a socket, until one is of another publisher: what the receiver
-- wants, the registration time that was given, and the clock at each product.
unfoldable pub read_all : Bool → ℕ → ℕ → List (ℕ × Product) → Map ℕ (Option Product) → Batch
unfolding same_product
read_all receive time socket [] cached = record {
  accepted = [];
  cached = cached;
  is_foreign = false;
}
read_all receive time socket ((now, q) ∷ qs) cached =
    let foreign : Batch = record { accepted = []; cached = cached; is_foreign = true } in
    if nat_eq time q.registration_time
    then take_product receive socket now q (touch none socket cached)
        (read_all receive time socket qs)
    else foreign

abbrev pub fill_all : Set ℕ → List Product → Manager → Manager
fill_all [] qs s = s
fill_all ((subscriber, u) ∷ rest) qs s =
    fill_all rest qs (emit (subscription_filled subscriber qs) s)

abbrev pub note_received : ℕ → List TimeoutMonitor → List TimeoutMonitor
note_received now [] = []
note_received now (m ∷ ms) =
    record m { last_received = some now; end_time = plus now m.timeout } ∷ note_received now ms

-- The bytes that a product takes, which is protobuf's.
module _ (size_of : Product → ℕ) where
  -- collectMetrics
  unfoldable pub collect_metrics : List Product → Manager → Manager
  unfolding increment_message_count increment_byte_count
  collect_metrics [] s = s
  collect_metrics (q ∷ qs) s = collect_metrics qs (record s {
    metrics_data =
        increment_byte_count q.data_product_id (size_of q)
          (increment_message_count q.data_product_id 1 s.metrics_data);
  })

  abbrev pub deliver : ℕ → ℕ → List Product → Manager → Manager
  deliver now p [] s = s
  deliver now p (q ∷ qs) s =
      let d = details_at p s in
      let t = fill_all d.subscribers (q ∷ qs) s in
      let u = set_details p (record d { monitors = note_received (now / 1000) d.monitors }) t in
      if u.metrics_enabled then collect_metrics (q ∷ qs) u else u
