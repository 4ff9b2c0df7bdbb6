-- ===== src/PublishManager/State.antt =====
-- The state of the publish manager (src/api/cpp/GravityPublishManager.h).
use gravity.Prelude.{ℕ, String, Bool, false, List, [], Option, none}
use gravity.Prelude.Maps.{Map}
use gravity.DataProduct.{Product}
use gravity.Ports.{Url}
use gravity.Metrics.{Metrics}

-- struct CacheValue: the bytes are those of the product
pub record CacheValue : Type 0 where
  pub filter_text : String
  pub value : Product
  pub timestamp : ℕ

-- struct PublishDetails: the socket stands for its poll item, too
pub record Details : Type 0 where
  pub url : Url
  pub data_product_id : String
  pub cache_last_value : Bool
  pub last_cached_values : Map String CacheValue
  pub socket : ℕ
  pub has_subscribers : Bool

-- the settings of new sockets: the high water mark, and the time, probes and interval of TCP
-- keep-alive, once it is enabled. An int is its 32 bits.
pub record Settings : Type 0 where
  pub publish_hwm : ℕ
  pub tcp_keep_alive : Option (ℕ × ℕ × ℕ)

-- what is sent on a publisher's socket
pub record Sent : Type 0 where
  pub socket : ℕ
  pub filter_text : String
  pub product : Product

-- class GravityPublishManager. The objects that the two maps share are numbered in the order of
-- their creation, and so are the sockets; a product may have a null pointer, which reading it with
-- operator[] makes. The poll items are those behind the first four. What was sent is a list,
-- oldest first.
pub record Manager : Type 0 where
  pub objects : Map ℕ Details
  pub next_object : ℕ
  pub next_socket : ℕ
  pub publish_map_by_socket : Map ℕ ℕ
  pub publish_map_by_id : Map String (Option ℕ)
  pub poll_items : List ℕ
  pub settings : Settings
  pub metrics_enabled : Bool
  pub metrics_data : Metrics
  pub sent : List Sent

abbrev pub init : Manager
init = record {
  objects = [];
  next_object = 0;
  next_socket = 0;
  publish_map_by_socket = [];
  publish_map_by_id = [];
  poll_items = [];
  settings = record { publish_hwm = 1000; tcp_keep_alive = none };
  metrics_enabled = false;
  metrics_data = record { metrics = []; start_time = 0; end_time = 0 };
  sent = [];
}
