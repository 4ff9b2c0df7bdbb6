-- ===== src/PublishManager/Loop.antt =====
-- The loop of start, by the socket that has a message.
use gravity.Prelude.{ℕ, String, Bool, true, false, List, [], ◌∷◌, Option, none, some, if◌then◌else◌}
use gravity.PollItems.{is_polled}
use gravity.DataProduct.{Product}
use gravity.Ports.{Url}
use gravity.Metrics
use gravity.Metrics.{Frame, done, send_as_message}
use gravity.PublishManager.State.{Manager}
use gravity.PublishManager.Commands.{
  Registration, register_data_product, unregister_data_product, set_hwm, set_keep_alive,
  subscribers_exist,
}
use gravity.PublishManager.Publishing.{Publication, publish, subscription}

-- a message of the node or its metrics, at a time where one is read, or of a subscriber
pub data Event : Type 0 where
  register : Bool → (Url → Bool) → Registration → Event
  unregister : String → Event
  hwm : ℕ → Event
  keep_alive : ℕ → ℕ → ℕ → Event
  ask_subscribers : String → Event
  published : Publication → Event
  metrics_enable metrics_disable get_metrics : ℕ → Event
  subscribed : ℕ → Bool → Event
  unknown_command : Event

-- GetMetrics answers with this, and starts anew
unfoldable pub collect : ℕ → Manager → List Frame × Manager
unfolding send_as_message Metrics.reset
collect now s =
    let m = done now s.metrics_data in
    (send_as_message m, record s { metrics_data = Metrics.reset now m })

module _ (size_of : Product → ℕ) where
  unfoldable pub step : Event → Manager → Option Manager
  unfolding register_data_product unregister_data_product set_hwm set_keep_alive subscribers_exist
      publish subscription collect Metrics.reset
  step (register can_open can_bind r) s = some (register_data_product can_open can_bind r s).1
  step (unregister id) s = unregister_data_product id s
  step (hwm n) s = some (set_hwm n s)
  step (keep_alive time probes interval) s = some (set_keep_alive time probes interval s)
  step (ask_subscribers id) s = some (subscribers_exist id s).1
  step (published q) s = some (publish size_of q s)
  step (metrics_enable now) s =
      some (record s { metrics_data = Metrics.reset now s.metrics_data; metrics_enabled = true })
  step (metrics_disable now) s = some (record s { metrics_enabled = false })
  step (get_metrics now) s = some (collect now s).1
  step (subscribed socket new) s =
      if is_polled socket s.poll_items then subscription socket new s else some s
  step unknown_command s = some s

  unfoldable pub run : List Event → Manager → Option Manager
  unfolding step
  run [] s = some s
  run (e ∷ es) s = elim (step e s) [ none ↦ none | some t ↦ run es t ]
