-- ===== src/Node/State.antt =====
-- The state of a node (src/api/cpp/GravityNode.h).
use gravity.Prelude.{ℕ, ◌/◌, ◌%◌, ◌^◌, String, Bool, true, false, List, ◌∷◌, [], ◌++◌, Option}
use gravity.Prelude.Key.{string_key}
use gravity.Prelude.Maps.{Map, Set}
use gravity.DataProduct.{Product}
use gravity.Directory.Messages.{Publisher}

-- enum Codes
pub data GravityReturnCode : Type 0 where
  success failure no_service_directory request_timeout duplicate registration_conflict
        not_registered no_such_service link_error interrupted no_service_provider no_ports_available
        invalid_parameter not_initialized reserved_data_product_id :
      GravityReturnCode

-- ServiceDirectoryResponsePB::ReturnCodes
pub data DirectoryCode : Type 0 where
  success duplicate_registration registration_conflict not_registered : DirectoryCode

abbrev pub is_success : GravityReturnCode → Bool
is_success GravityReturnCode.success = true
is_success _ = false

-- enum Types
pub data TransportType : Type 0 where
  tcp inproc pgm epgm ipc : TransportType

-- NetworkNode
pub record NetworkNode : Type 0 where
  pub transport : String
  pub ip_address : String
  pub port : ℕ

-- SubscriptionDetails, with the subscriber as its number; isRelay is never set
pub record SubscriptionDetails : Type 0 where
  pub domain : String
  pub data_product_id : String
  pub filter : String
  pub receive_last_cached_value : Bool
  pub subscriber : ℕ

-- what the node sends to its managers and does not wait for
pub data Message : Type 0 where
  subscribe_message : SubscriptionDetails → List Publisher → String → Message
  unsubscribe_message : SubscriptionDetails → Message
  set_monitor_message : String → ℕ → ℕ → String → String → Message
  clear_monitor_message : String → ℕ → String → String → Message
  publish_message : String → ℕ → String → Product → Message
  request_message : String → String → String → Option ℕ → ℕ → Product → ℕ → Message
  service_directory_url : String → Message

-- class GravityNode. A lock that a call leaves taken is true; `sent` is oldest first.
pub record Node : Type 0 where
  pub initialized : Bool
  pub component_id : String
  pub my_domain : String
  pub publish_map : Map String String
  pub service_map : Map String String
  pub url_instance_map : Map String ℕ
  pub data_registration_time_map : Map String ℕ
  pub subscription_list : List SubscriptionDetails
  pub service_directory_node : NetworkNode
  pub default_cache_last_sent_dataproduct : Bool
  pub default_receive_last_sent_dataproduct : Bool
  pub gravity_node_reserved_data_product_ids : Set String
  pub service_directory_reserved_data_product_ids : Set String
  pub heartbeat_started : Bool
  pub service_manager_locked : Bool
  pub request_manager_rep_locked : Bool
  pub sent : List Message

abbrev pub send : Message → Node → Node
send m n = record n { sent = n.sent ++ m ∷ [] }

-- static_cast<uint32_t>(timestamp / 1e6): exact while the seconds fit 32 bits
abbrev pub seconds : ℕ → ℕ
seconds timestamp = timestamp / 1_000_000 % 2 ^ 32
