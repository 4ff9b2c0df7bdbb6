-- ===== src/Node/Relays.antt =====
-- Relays and the node's own heartbeat: registerRelay, unregisterRelay, startHeartbeat and
-- stopHeartbeat.
use gravity.Prelude.{ℕ, String, Bool, true, false, not, Option, none, some, if◌then◌else◌}
use Prim.Native.String.{◌++◌ as str_append}
use gravity.Prelude.Key.{string_key}
use gravity.Prelude.Maps.{touch}
use gravity.Node.State.{
  GravityReturnCode, success, failure, not_initialized, is_success, TransportType, tcp, Node,
}
use gravity.Node.World.{World}
use gravity.Node.Publishers.{register_data_product_internal, unregister_data_product}
use gravity.Node.Subscriptions.{subscribe, unsubscribe}

abbrev pub heartbeat_id : Node → String
heartbeat_id n = str_append n.component_id "_GravityHeartbeat"

module _ {W R : Type 0} (world : World W R) where
  -- registerRelay
  unfoldable pub register_relay :
      String → ℕ → Bool → TransportType → Bool → Node → W → GravityReturnCode × Node × W
  unfolding register_data_product_internal subscribe
  register_relay id subscriber local_only transport cache n w =
      if not n.initialized
      then (not_initialized, n, w)
      else let r =
          register_data_product_internal world
            (record {
              transport = transport;
              cache_last_value = cache;
              is_relay = true;
              local_only = local_only;
              allow_reserved_ids = false;
            })
            id n w in
        if not (is_success r.0) then r else subscribe world id subscriber "" "" (some false) r.1 r.2

  -- unregisterRelay: the code of the first error
  unfoldable pub unregister_relay : String → ℕ → Node → W → GravityReturnCode × Node × W
  unfolding unregister_data_product unsubscribe
  unregister_relay id subscriber n w =
      if not n.initialized
      then (not_initialized, n, w)
      else let r = unregister_data_product world id n w in
        let u =
          unsubscribe
            (record {
              domain = "";
              data_product_id = id;
              filter = "";
              receive_last_cached_value = false;
              subscriber = subscriber;
            })
            r.1 in
        (if is_success r.0 then u.0 else r.0, u.1, r.2)

  -- startHeartbeat: the registration's code is not looked at. A negative interval is none.
  unfoldable pub start_heartbeat : Option ℕ → Node → W → GravityReturnCode × Node × W
  unfolding register_data_product_internal
  start_heartbeat none n w = (if not n.initialized then not_initialized else failure, n, w)
  start_heartbeat (some interval) n w =
      if not n.initialized
      then (not_initialized, n, w)
      else if n.heartbeat_started
      then (failure, n, w)
      else let r =
          register_data_product_internal world
            (record {
              transport = tcp;
              cache_last_value = false;
              is_relay = false;
              local_only = false;
              allow_reserved_ids = true;
            })
            (heartbeat_id n) n w in
        (
          success,
          record r.1 {
            heartbeat_started = true;
            data_registration_time_map = touch 0 (heartbeat_id n) r.1.data_registration_time_map;
          },
          r.2,
        )

  -- stopHeartbeat
  unfoldable pub stop_heartbeat : Node → W → GravityReturnCode × Node × W
  unfolding unregister_data_product
  stop_heartbeat n w =
      if not n.initialized
      then (not_initialized, n, w)
      else if n.heartbeat_started
      then unregister_data_product world (heartbeat_id n) (record n { heartbeat_started = false }) w
      else (success, n, w)
