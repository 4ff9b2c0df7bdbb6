-- ===== src/SubscriptionManager/State.antt =====
-- The state of the subscription manager (src/api/cpp/GravitySubscriptionManager.h).
use gravity.Prelude.{
  ℕ, ◌+◌, ◌-◌, ◌≡◌, ap, ap₂, ◌↔◌, String, Bool, true, false, ◌&&◌, List, [], ◌∷◌, ◌++◌, Option,
  none, or_else, if◌then◌else◌, arith,
}
use gravity.Prelude.Key.{Key, ◌==◌, string_key, nat_key}
use gravity.Prelude.Maps.{Map, Set, lookup, insert}
use gravity.DataProduct.{Product}
use gravity.Metrics.{Metrics}

-- DomainDataKey, in the order of its operator<
pub record DomainDataKey : Type 0 where
  pub domain : String
  pub data_product_id : String

abbrev pub same_key : DomainDataKey → DomainDataKey → Bool
same_key a b = a.domain == b.domain && (a.data_product_id == b.data_product_id)

abbrev pub key_before : DomainDataKey → DomainDataKey → Bool
key_before a b =
    if a.domain == b.domain
    then string_key.before a.data_product_id b.data_product_id
    else string_key.before a.domain b.domain

pub same_key_iff : (a b : DomainDataKey) → (same_key a b ≡ true) ↔ (a ≡ b)
same_key_iff a b = (
  (λ e.
      let both : (a.domain ≡ b.domain) × (a.data_product_id ≡ b.data_product_id) = ground (
        arith,
        e,
        string_key.beq_iff a.domain b.domain,
        string_key.beq_iff a.data_product_id b.data_product_id,
      ) in
      ap₂ (λ x y. record { domain = x; data_product_id = y }) both.0 both.1),
  (λ e. ground (
    arith,
    (string_key.beq_iff a.domain b.domain).1 (ap (λ (k : DomainDataKey). k.domain) e),
    (string_key.beq_iff a.data_product_id b.data_product_id).1
        (ap (λ (k : DomainDataKey). k.data_product_id) e),
  )),
)

instance abbrev pub domain_data_key : Key DomainDataKey
domain_data_key = record { beq = same_key; beq_iff = same_key_iff; before = key_before }

-- an int of milliseconds that is 0 or more, or the negative of one
pub data Timeout : Type 0 where
  wait : ℕ → Timeout
  never : ℕ → Timeout

-- a time to which an int is added
abbrev pub plus : ℕ → Timeout → ℕ
plus t (wait n) = t + n
plus t (never n) = t - n

-- struct TimeoutMonitor; a monitor is its number, and a last time of -1 is none
pub record TimeoutMonitor : Type 0 where
  pub monitor : ℕ
  pub timeout : Timeout
  pub end_time : ℕ
  pub last_received : Option ℕ

-- the socket of a poll item; none is null, which reading a missing url with operator[] gives
abbrev pub Socket : Type 0
Socket = Option ℕ

-- struct SubscriptionDetails. A subscriber is its number, and a poll item its socket; that of the
-- publisher updates is null in an object that was made for a monitor.
pub record Details : Type 0 where
  pub domain : String
  pub data_product_id : String
  pub filter : String
  pub receive_cached_data_products : Bool
  pub poll_item_map : Map String Socket
  pub socket_to_url_map : Map ℕ String
  pub subscribers : Set ℕ
  pub monitors : List TimeoutMonitor
  pub publisher_update_poll_item : Socket

-- What the manager does outside its own state: the callbacks of subscribers and monitors, the note
-- to the service directory, and the sockets that are opened, with their high water mark, and closed.
pub data Output : Type 0 where
  subscription_filled : ℕ → List Product → Output
  subscription_timeout : ℕ → String → Option ℕ → String → String → Output
  stale_entry : String → String → String → String → ℕ → Output
  opened : ℕ → String → String → ℕ → Output
  closed : ℕ → Output

-- class GravitySubscriptionManager. The objects that the maps share are numbered in the order of
-- their creation, and so are the sockets. The poll items are those behind the first two. What was
-- done is a list, oldest first.
pub record Manager : Type 0 where
  pub objects : Map ℕ Details
  pub next_object : ℕ
  pub next_socket : ℕ
  pub subscription_map : Map DomainDataKey (Map String ℕ)
  pub subscription_socket_map : Map ℕ ℕ
  pub socket_verification_map : Map ℕ ℕ
  pub last_cached_value_map : Map ℕ (Option Product)
  pub poll_items : List ℕ
  pub component_id : String
  pub ip_address : String
  pub service_directory_url : String
  pub subscribe_hwm : ℕ
  pub poll_timeout : Option ℕ
  pub curr_timeout_monitor : Option (ℕ × ℕ)
  pub metrics_enabled : Bool
  pub metrics_data : Metrics
  pub outputs : List Output

-- after the parameters of the node were read
abbrev pub init : String → String → Manager
init component_id ip_address = record {
  objects = [];
  next_object = 0;
  next_socket = 0;
  subscription_map = [];
  subscription_socket_map = [];
  socket_verification_map = [];
  last_cached_value_map = [];
  poll_items = [];
  component_id = component_id;
  ip_address = ip_address;
  service_directory_url = "";
  subscribe_hwm = 1000;
  poll_timeout = none;
  curr_timeout_monitor = none;
  metrics_enabled = false;
  metrics_data = record { metrics = []; start_time = 0; end_time = 0 };
  outputs = [];
}

-- new SubscriptionDetails(), with the fields that every use of it sets
abbrev pub new_details : DomainDataKey → String → Bool → Socket → Details
new_details k filter receive update = record {
  domain = k.domain;
  data_product_id = k.data_product_id;
  filter = filter;
  receive_cached_data_products = receive;
  poll_item_map = [];
  socket_to_url_map = [];
  subscribers = [];
  monitors = [];
  publisher_update_poll_item = update;
}

-- the object of a number; each number in a map of the manager has one
abbrev pub details_at : ℕ → Manager → Details
details_at p s =
    or_else (new_details (record { domain = ""; data_product_id = "" }) "" false none)
      (lookup p s.objects)

abbrev pub set_details : ℕ → Details → Manager → Manager
set_details p d s = record s { objects = insert p d s.objects }

abbrev pub emit : Output → Manager → Manager
emit o s = record s { outputs = s.outputs ++ o ∷ [] }
