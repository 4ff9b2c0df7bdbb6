-- ===== src/Node/Publishers.antt =====
-- The data products of a node: registerDataProduct, unregisterDataProduct, subscribersExist and
-- publish.
use gravity.Prelude.{
  ℕ, String, Bool, true, false, not, ◌&&◌, ◌||◌, Option, none, some, if◌then◌else◌, nat_eq,
}
use Prim.Native.String.{◌++◌}
use gravity.Prelude.Key.{◌==◌, string_key}
use gravity.Prelude.Maps.{has, get_or, insert, erase, touch}
use gravity.DataProduct.{Product}
use gravity.Directory.Messages.{Registration, Unregistration, data_product}
use gravity.Directory.Requests.{registration_request, unregistration_request}
use gravity.PublishManager.Commands.{Reply, unknown_product, subscribers}
use gravity.Node.State.{
  GravityReturnCode, success, failure, no_service_directory, duplicate, registration_conflict,
  not_registered, link_error, no_ports_available, not_initialized, reserved_data_product_id,
  TransportType, tcp, ipc, DirectoryCode, Node, publish_message, send, seconds,
}
use gravity.Node.World.{Opening, Answer, got, failed, World, ask_directory, get_ip}

-- the ids of the directory, and those of a node itself
abbrev pub is_reserved : Bool → String → Node → Bool
is_reserved allow id n =
    not (n.component_id == "ServiceDirectory")
      && has id n.service_directory_reserved_data_product_ids
    || not allow && has id n.gravity_node_reserved_data_product_ids

-- the arguments of registerDataProductInternal behind the id
pub record Registering : Type 0 where
  pub transport : TransportType
  pub cache_last_value : Bool
  pub is_relay : Bool
  pub local_only : Bool
  pub allow_reserved_ids : Bool

abbrev pub endpoint : String → String → TransportType → String
endpoint ip id tcp = ip
endpoint ip id ipc = "/tmp/" ++ id
endpoint ip id _ = id

-- the directory's code as the node's
abbrev pub registration_code : DirectoryCode → GravityReturnCode
registration_code DirectoryCode.success = success
registration_code DirectoryCode.registration_conflict = registration_conflict
registration_code DirectoryCode.duplicate_registration = duplicate
registration_code DirectoryCode.not_registered = link_error

abbrev pub unregistration_code : DirectoryCode → GravityReturnCode
unregistration_code DirectoryCode.success = success
unregistration_code DirectoryCode.not_registered = success
unregistration_code _ = failure

abbrev pub add_product : String → String → ℕ → Node → Node
add_product id url timestamp n = record n {
  publish_map = insert id url n.publish_map;
  url_instance_map = insert url timestamp n.url_instance_map;
  data_registration_time_map = insert id (seconds timestamp) n.data_registration_time_map;
}

abbrev pub data_registration :
    String → String → ℕ → Option Bool → Option String → String → Registration
data_registration id url timestamp is_relay ip component = record {
  id = id;
  url = url;
  kind = data_product;
  component_id = some component;
  domain = none;
  timestamp = some timestamp;
  is_relay = is_relay;
  ip_address = ip;
}

abbrev pub data_unregistration : String → String → ℕ → Unregistration
data_unregistration id url time = record {
  id = id;
  url = url;
  kind = data_product;
  domain = none;
  registration_time = time;
}

abbrev pub remove_product : String → Node → Node
remove_product id n = record n {
  publish_map = erase id n.publish_map;
  url_instance_map = erase (get_or "" id n.publish_map) n.url_instance_map;
  data_registration_time_map = erase id n.data_registration_time_map;
}

-- the fields that the node writes in what it publishes; the time is what was given or the clock's
abbrev pub stamp : Node → ℕ → Product → Product
stamp n time p = record p {
  timestamp = if p.is_relayed then p.timestamp else time;
  component_id = if p.is_relayed then p.component_id else n.component_id;
  domain = if p.is_relayed then p.domain else n.my_domain;
  registration_time = get_or 0 p.data_product_id n.data_registration_time_map;
}

abbrev pub subscribers_code : Reply → GravityReturnCode × Bool
subscribers_code (subscribers b) = (success, b)
subscribers_code (unknown_product id) = (not_registered, true)
subscribers_code _ = (failure, true)

module _ {W R : Type 0} (world : World W R) where
  -- the code of a request of which the directory's code is wanted
  abbrev pub directory_result : (DirectoryCode → GravityReturnCode) → Answer R → GravityReturnCode
  directory_result f (got r) = f (world.directory_code r)
  directory_result f (failed c) = c

  -- the part of a registration that goes to the directory
  unfoldable pub announce_product :
      Registering → String → String → ℕ → Node → W → GravityReturnCode × W
  unfolding ask_directory
  announce_product o id url timestamp n w =
      if url == ""
      then (no_ports_available, w)
      else if n.service_directory_node.ip_address == ""
      then (no_service_directory, w)
      else let ip = if o.local_only then some (get_ip world n) else none in
        let r = data_registration id url timestamp (some o.is_relay) ip n.component_id in
        let a = ask_directory world n (registration_request r) w in
        (directory_result registration_code a.0, a.1)

  abbrev pub finish_product :
      String → String → ℕ → Node → GravityReturnCode × W → GravityReturnCode × Node × W
  finish_product id url timestamp n (success, w) = (success, add_product id url timestamp n, w)
  finish_product id url timestamp n (c, w) = (c, n, world.publish_unregister id w)

  -- registerDataProductInternal behind the guards
  unfoldable pub register_new : Registering → String → Node → W → GravityReturnCode × Node × W
  unfolding announce_product
  register_new o id n w =
      let t = world.now w in
      let opening : Opening = record {
        id = id;
        transport = o.transport;
        endpoint = endpoint (get_ip world n) id o.transport;
      } in
      let m = world.publish_register opening o.cache_last_value t.1 in
      finish_product id m.0 t.0 n (announce_product o id m.0 t.0 n m.1)

  unfoldable pub register_data_product_internal :
      Registering → String → Node → W → GravityReturnCode × Node × W
  unfolding register_new
  register_data_product_internal o id n w =
      if not n.initialized
      then (not_initialized, n, w)
      else if is_reserved o.allow_reserved_ids id n
      then (reserved_data_product_id, n, w)
      else if has id n.publish_map
      then (success, n, w)
      else register_new o id n w

  -- registerDataProduct; without the last argument it is the node's default
  unfoldable pub register_data_product :
      TransportType → Option Bool → String → Node → W → GravityReturnCode × Node × W
  unfolding register_data_product_internal
  register_data_product transport cache id n w =
      register_data_product_internal
        (record {
          transport = transport;
          cache_last_value = elim cache [
            | none ↦ n.default_cache_last_sent_dataproduct
            | some c ↦ c
          ];
          is_relay = false;
          local_only = false;
          allow_reserved_ids = false;
        })
        id n w

  -- the unregistration at the directory, of what was read before it was erased
  unfoldable pub withdraw_product : String → Node → W → GravityReturnCode × W
  unfolding ask_directory
  withdraw_product id n w =
      if n.service_directory_node.ip_address == ""
      then (success, w)
      else let u =
          data_unregistration id (get_or "" id n.publish_map)
            (get_or 0 id n.data_registration_time_map) in
        let a = ask_directory world n (unregistration_request u) w in
        (directory_result unregistration_code a.0, a.1)

  -- unregisterDataProduct
  unfoldable pub unregister_data_product : String → Node → W → GravityReturnCode × Node × W
  unfolding withdraw_product
  unregister_data_product id n w =
      if not n.initialized
      then (not_initialized, n, w)
      else if not (has id n.publish_map)
      then (registration_conflict, n, w)
      else let a = withdraw_product id n (world.publish_unregister id w) in
        (a.0, remove_product id n, a.1)

  -- subscribersExist; an error counts as a subscriber
  unfoldable pub subscribers_exist : String → Node → W → (GravityReturnCode × Bool) × W
  subscribers_exist id n w =
      if not n.initialized
      then ((not_initialized, true), w)
      else let r = world.subscribers_exist id w in (subscribers_code r.0, r.1)

  -- publish: a timestamp of 0 is the clock's, and an unknown product gets a registration time of 0
  unfoldable pub publish : Product → String → ℕ → Node → W → GravityReturnCode × Node × W
  publish p filter timestamp n w =
      if not n.initialized
      then (not_initialized, n, w)
      else let t =
          if p.is_relayed
          then (timestamp, w)
          else if nat_eq timestamp 0
          then world.now w
          else (timestamp, w) in
        let q = stamp n t.0 p in
        let m = record n {
          data_registration_time_map = touch 0 p.data_product_id n.data_registration_time_map;
        } in
        (success, send (publish_message p.data_product_id q.timestamp filter q) m, t.1)
