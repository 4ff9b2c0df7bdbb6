-- ===== src/Node/Subscriptions.antt =====
-- The subscriptions of a node: ServiceDirectoryDataProductLookup, subscribe, unsubscribe, the
-- monitors, relays and the start and stop of the heartbeat.
use gravity.Prelude.{
  ℕ, zero, suc, String, Bool, not, ◌&&◌, List, [], ◌∷◌, ◌++◌, Option, none, some, if◌then◌else◌,
  nat_eq,
}
use gravity.Prelude.Key.{◌==◌, string_key}
use gravity.Directory.Messages.{Publisher, LookupRequest, data_product}
use gravity.Directory.State.{registered_publishers_id}
use gravity.Directory.Requests.{lookup_request}
use gravity.Node.State.{
  GravityReturnCode, success, no_service_directory, invalid_parameter, not_initialized,
  SubscriptionDetails, subscribe_message, unsubscribe_message, set_monitor_message,
  clear_monitor_message, Node, send,
}
use gravity.Node.World.{Answer, got, failed, World, ask_directory}

abbrev pub product_lookup : String → String → LookupRequest
product_lookup id domain = record { lookup_id = id; kind = data_product; domain_id = some domain }

-- an empty domain is our own
abbrev pub domain_of : String → Node → String
domain_of domain n = if domain == "" then n.my_domain else domain

-- the attempts to find the publisher of publisher updates
abbrev pub tries : ℕ
tries = 5

-- the lookups of subscribeInternal end with a code, or with what they found
pub data Publishers : Type 0 where
  listed : List Publisher → Publishers
  unknown : GravityReturnCode → Publishers

abbrev pub is_same_subscription : SubscriptionDetails → SubscriptionDetails → Bool
is_same_subscription d e =
    d.data_product_id == e.data_product_id
    && d.domain == e.domain
    && d.filter == e.filter
    && nat_eq d.subscriber e.subscriber

-- the loop of unsubscribeInternal
unfoldable pub without_subscription :
    SubscriptionDetails → List SubscriptionDetails → List SubscriptionDetails
without_subscription d [] = []
without_subscription d (e ∷ es) =
    let rest = without_subscription d es in if is_same_subscription e d then rest else e ∷ rest

abbrev pub add_subscription : SubscriptionDetails → List Publisher → String → Node → Node
add_subscription d publishers url n = record (send (subscribe_message d publishers url) n) {
  subscription_list = n.subscription_list ++ d ∷ [];
}

-- unsubscribe; it does not use the flag of cached values
unfoldable pub unsubscribe : SubscriptionDetails → Node → GravityReturnCode × Node
unfolding without_subscription
unsubscribe d n =
    if not n.initialized
    then (not_initialized, n)
    else let e = record d { domain = domain_of d.domain n } in
      (
        success,
        record (send (unsubscribe_message e) n) {
          subscription_list = without_subscription e n.subscription_list;
        },
      )

-- setSubscriptionTimeoutMonitor; a time-out that is not positive is 0 here
unfoldable pub set_subscription_timeout_monitor :
    String → ℕ → ℕ → String → String → Node → GravityReturnCode × Node
set_subscription_timeout_monitor id monitor timeout filter domain n =
    if not n.initialized
    then (not_initialized, n)
    else if nat_eq timeout 0
    then (invalid_parameter, n)
    else (success, send (set_monitor_message id monitor timeout filter (domain_of domain n)) n)

-- clearSubscriptionTimeoutMonitor
unfoldable pub clear_subscription_timeout_monitor :
    String → ℕ → String → String → Node → GravityReturnCode × Node
clear_subscription_timeout_monitor id monitor filter domain n =
    if not n.initialized
    then (not_initialized, n)
    else (success, send (clear_monitor_message id monitor filter domain) n)

module _ {W R : Type 0} (world : World W R) where
  abbrev pub listed_by : Answer R → Publishers
  listed_by (got r) = listed (world.publishers r)
  listed_by (failed c) = unknown no_service_directory

  -- ServiceDirectoryDataProductLookup
  unfoldable pub product_publishers : String → String → Node → W → Publishers × W
  unfolding ask_directory
  product_publishers id domain n w =
      let a = ask_directory world n (lookup_request (product_lookup id domain)) w in
      (listed_by a.0, a.1)

  -- the loop for the publisher of publisher updates, while none was found; `again` is the loop
  abbrev pub try_again : (W → Publishers × W) → Publishers × W → Publishers × W
  try_again again (unknown c, w) = (unknown c, w)
  try_again again (listed [], w) = again w
  try_again again (listed (p ∷ ps), w) = (listed (p ∷ ps), w)

  unfoldable pub find_updates : ℕ → Node → W → Publishers × W
  unfolding product_publishers
  find_updates zero n w = (listed [], w)
  find_updates (suc k) n w =
      try_again (find_updates k n) (product_publishers registered_publishers_id n.my_domain n w)

  -- the rest of subscribeInternal, with the publishers of updates
  abbrev pub finish_subscription :
      SubscriptionDetails → List Publisher → Node → Publishers × W → GravityReturnCode × Node × W
  finish_subscription d publishers n (unknown c, w) = (c, n, w)
  finish_subscription d publishers n (listed [], w) = (no_service_directory, n, w)
  finish_subscription d publishers n (listed (p ∷ ps), w) =
      if world.has_url p
      then (success, add_subscription d publishers p.url n, w)
      else (no_service_directory, n, w)

  abbrev pub subscribe_known :
      SubscriptionDetails → Node → Publishers × W → GravityReturnCode × Node × W
  unfolding find_updates
  subscribe_known d n (unknown c, w) = (c, n, w)
  subscribe_known d n (listed publishers, w) =
      finish_subscription d publishers n (find_updates tries n w)

  -- subscribeInternal
  unfoldable pub subscribe_internal : SubscriptionDetails → Node → W → GravityReturnCode × Node × W
  unfolding find_updates product_publishers
  subscribe_internal d n w =
      if not n.initialized
      then (not_initialized, n, w)
      else let e = record d { domain = domain_of d.domain n } in
        subscribe_known e n (product_publishers e.data_product_id e.domain n w)

  -- subscribe; without the last argument it is the node's default
  unfoldable pub subscribe :
      String → ℕ → String → String → Option Bool → Node → W → GravityReturnCode × Node × W
  unfolding subscribe_internal
  subscribe id subscriber filter domain cached n w =
      subscribe_internal
        (record {
          domain = domain;
          data_product_id = id;
          filter = filter;
          receive_last_cached_value = elim cached [
            | none ↦ n.default_receive_last_sent_dataproduct
            | some c ↦ c
          ];
          subscriber = subscriber;
        })
        n w
