-- ===== src/SubscriptionManager/Loop.antt =====
-- The loop of start.
use gravity.SubscriptionManager.Timeouts.{calculate_timeout, poll_timed_out}
use gravity.PollItems.{is_polled}
use gravity.Prelude.{
  Bool, true, false, ℕ, String, true, false, List, [], ◌∷◌, ◌++◌, Option, none, some, if◌then◌else◌,
}
use gravity.Prelude.Key.{nat_key}
use gravity.Prelude.Maps.{lookup, get_or, touch}
use gravity.DataProduct.{Product}
use gravity.Metrics
use gravity.Metrics.{Frame, done, send_as_message}
use gravity.SubscriptionManager.Trim.{Info}
use gravity.SubscriptionManager.State.{DomainDataKey, stale_entry, Manager, details_at, emit}
use gravity.SubscriptionManager.Subscribing.{Subscription, add_subscription, remove_subscription}
use gravity.SubscriptionManager.Monitors.{
  MonitorRequest, set_timeout_monitor, clear_timeout_monitor,
}
use gravity.SubscriptionManager.Incoming.{Batch, read_all, deliver}
use gravity.SubscriptionManager.Updates.{Listed, update_publishers, delete_all}

-- a message of the node, at a time in microseconds where one is read
pub data Command : Type 0 where
  subscribe : ℕ → Subscription → Command
  unsubscribe : DomainDataKey → String → ℕ → Command
  kill : Command
  set_hwm : ℕ → Command
  set_monitor : ℕ → MonitorRequest → Command
  clear_monitor : DomainDataKey → String → ℕ → Command
  set_service_dir_url : String → Command
  unknown_command : Command

unfoldable pub run_command : Command → Manager → Manager
unfolding add_subscription remove_subscription set_timeout_monitor clear_timeout_monitor
run_command (subscribe now a) s = add_subscription now a s
run_command (unsubscribe key filter subscriber) s = remove_subscription key filter subscriber s
run_command kill s = s
run_command (set_hwm n) s = record s { subscribe_hwm = n }
run_command (set_monitor now q) s = set_timeout_monitor now q s
run_command (clear_monitor key filter monitor) s = clear_timeout_monitor key filter monitor s
run_command (set_service_dir_url url) s = record s { service_directory_url = url }
run_command unknown_command s = s

-- a command of the metrics control
pub data MetricsCommand : Type 0 where
  metrics_enable metrics_disable get_metrics : ℕ → MetricsCommand
  unknown_metrics_command : MetricsCommand

unfoldable pub run_metrics : MetricsCommand → Manager → List Frame × Manager
unfolding send_as_message Metrics.reset
run_metrics (metrics_enable now) s =
    ([], record s { metrics_data = Metrics.reset now s.metrics_data; metrics_enabled = true })
run_metrics (metrics_disable now) s = ([], record s { metrics_enabled = false })
run_metrics (get_metrics now) s =
    let m = done now s.metrics_data in
    (send_as_message m, record s { metrics_data = Metrics.reset now m })
run_metrics unknown_metrics_command s = ([], s)

-- What is at a socket: the products of a publisher, each with the time at which it is read, or a list
-- of publishers, which may be empty.
pub data Content : Type 0 where
  products : List (ℕ × Product) → Content
  publishers : DomainDataKey → List Info → Content
  empty_list : Content

-- what the poll gives: an interrupt, nothing in the time that was set, an error, or messages on the
-- first two sockets and on those of the poll items, in their order, from a time on
pub data Polled : Type 0 where
  interrupted failed : Polled
  timed_out : ℕ → Polled
  messages : Option Command → Option MetricsCommand → ℕ → List (ℕ × Content) → Polled

-- whether the loop goes on, and the state
pub record Running : Type 0 where
  pub goes_on : Bool
  pub manager : Manager

abbrev pub commanded : Option Command → Manager → Running
commanded none s = record { goes_on = true; manager = s }
commanded (some kill) s = record { goes_on = false; manager = s }
commanded (some c) s = record { goes_on = true; manager = run_command c s }

abbrev pub measured : Option MetricsCommand → Manager → Manager
measured none s = s
measured (some c) s = (run_metrics c s).1

-- The bytes that a product takes, which is protobuf's.
module _ (size_of : Product → ℕ) where
  -- the products are delivered up to one of another publisher, whose socket goes on the delete list
  abbrev pub take_batch : ℕ → ℕ → ℕ → ℕ → Batch → Listed → Listed
  take_batch now p socket time b l =
      let s = record l.manager {
        last_cached_value_map = b.cached;
        socket_verification_map = touch 0 socket l.manager.socket_verification_map;
      } in
      let d = details_at p s in
      let told =
        emit
          (stale_entry s.service_directory_url d.data_product_id d.domain
            (get_or "" socket d.socket_to_url_map) time)
          s in
      if b.is_foreign
      then record {
        manager = deliver size_of now p b.accepted told;
        delete_list = l.delete_list ++ (p, some socket) ∷ [];
      }
      else record l { manager = deliver size_of now p b.accepted s }

  abbrev pub read_products : ℕ → ℕ → ℕ → List (ℕ × Product) → Listed → Listed
  read_products now socket p qs l =
      let s = l.manager in
      let time = get_or 0 socket s.socket_verification_map in
      take_batch now p socket time
        (read_all (details_at p s).receive_cached_data_products time socket qs
          s.last_cached_value_map)
        l

  -- the message at a socket, by whether a publisher's object is known for it
  abbrev pub read_socket : ℕ → ℕ → Option ℕ → Content → Listed → Listed
  read_socket now socket (some p) (products qs) l = read_products now socket p qs l
  read_socket now socket none (publishers key is) l = update_publishers key is l
  read_socket now socket o c l = l

  -- over the messages, in the order of the poll items; a socket that is not polled any more is not
  -- read
  unfoldable pub read_sockets : ℕ → List (ℕ × Content) → Listed → Listed
  unfolding read_all update_publishers
  read_sockets now [] l = l
  read_sockets now ((socket, c) ∷ ms) l = read_sockets now ms (
      if is_polled socket l.manager.poll_items
      then read_socket now socket (lookup socket l.manager.subscription_socket_map) c l
      else l)

  unfoldable pub receive : ℕ → List (ℕ × Content) → Manager → Manager
  unfolding read_sockets delete_all
  receive now ms s =
      let l = read_sockets now ms (record { manager = s; delete_list = [] }) in
      delete_all l.delete_list l.manager

  abbrev pub after_poll : Polled → Manager → Running
  after_poll interrupted s = record { goes_on = true; manager = s }
  after_poll failed s = record { goes_on = false; manager = s }
  after_poll (timed_out now) s = record { goes_on = true; manager = poll_timed_out now s }
  after_poll (messages c m now ms) s =
      let n = commanded c s in
      if n.goes_on then record n { manager = receive now ms (measured m n.manager) } else n

  -- a time through the loop, with the clock that calculateTimeout reads
  unfoldable pub round : (ℕ → ℕ) → Polled → Manager → Running
  unfolding calculate_timeout poll_timed_out run_command run_metrics receive
  round clock p s = after_poll p (calculate_timeout clock s)
