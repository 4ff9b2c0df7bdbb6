-- ===== src/Node/Services.antt =====
-- The services of a node, and its requests: registerService, unregisterService,
-- ServiceDirectoryServiceLookup, request and the future responses.
use gravity.Prelude.{
  ℕ, zero, suc, ◌-◌, ◌/◌, String, true, not, Option, none, some, if◌then◌else◌, nat_eq, leb,
}
use gravity.Prelude.Key.{◌==◌, string_key}
use gravity.Prelude.Maps.{has, get_or, insert, erase}
use gravity.DataProduct.{Product}
use gravity.Directory.Messages.{Registration, Unregistration, LookupRequest, service}
use gravity.Directory.Requests.{registration_request, unregistration_request, lookup_request}
use gravity.Node.State.{
  GravityReturnCode, success, no_service_directory, registration_conflict, no_such_service,
  not_initialized, TransportType, Node, request_message, send, seconds,
}
use gravity.Node.World.{Opening, Answer, got, failed, answer_of, World, ask_directory, get_ip}
use gravity.Node.Publishers.{endpoint, registration_code, unregistration_code, directory_result}

abbrev pub add_service : String → String → ℕ → Node → Node
add_service id url timestamp n = record n {
  service_map = insert id url n.service_map;
  url_instance_map = insert url timestamp n.url_instance_map;
}

abbrev pub service_registration : String → String → ℕ → String → Registration
service_registration id url timestamp component = record {
  id = id;
  url = url;
  kind = service;
  component_id = some component;
  domain = none;
  timestamp = some timestamp;
  is_relay = none;
  ip_address = none;
}

abbrev pub service_unregistration : String → String → ℕ → Unregistration
service_unregistration id url time = record {
  id = id;
  url = url;
  kind = service;
  domain = none;
  registration_time = time;
}

-- the url that serviceMap has
abbrev pub url_of : String → Node → String
url_of id n = get_or "" id n.service_map

abbrev pub remove_service : String → Node → Node
remove_service id n = record n {
  service_map = erase id n.service_map;
  url_instance_map = erase (url_of id n) n.url_instance_map;
}

-- a time-out in milliseconds, none without one, that is left for a second request
abbrev pub left_over : ℕ → Option ℕ → Option ℕ
left_over spent none = none
left_over spent (some zero) = some 0
left_over spent (some (suc t)) = some (if leb (suc t) spent then 1 else suc t - spent)

abbrev pub addressed : Node → Product → Product
addressed n p = record p { component_id = n.component_id; domain = n.my_domain }

-- what a lookup of a service gives: its url and the time of its registration
pub data Located : Type 0 where
  found : String → ℕ → Located
  not_found : GravityReturnCode → Located

module _ {W R : Type 0} (world : World W R) where
  unfoldable pub announce_service : String → String → ℕ → Node → W → GravityReturnCode × W
  unfolding ask_directory
  announce_service id url timestamp n w =
      if n.service_directory_node.ip_address == ""
      then (success, w)
      else let a =
          ask_directory world n
            (registration_request (service_registration id url timestamp n.component_id)) w in
        (directory_result world registration_code a.0, a.1)

  abbrev pub finish_service :
      String → String → ℕ → Node → GravityReturnCode × W → GravityReturnCode × Node × W
  finish_service id url timestamp n (success, w) = (success, add_service id url timestamp n, w)
  finish_service id url timestamp n (c, w) = (c, n, world.service_unregister id w)

  -- registerService behind the guards; the provider is a number
  unfoldable pub register_new_service :
      TransportType → String → ℕ → Node → W → GravityReturnCode × Node × W
  unfolding announce_service
  register_new_service transport id server n w =
      let t = world.now w in
      let opening : Opening = record {
        id = id;
        transport = transport;
        endpoint = endpoint (get_ip world n) id transport;
      } in
      let m = world.service_register opening (seconds t.0) server t.1 in
      finish_service id m.0 t.0 n (announce_service id m.0 t.0 n m.1)

  -- registerService; none stands for a call that waits for a lock that stays taken
  unfoldable pub register_service :
      TransportType → String → ℕ → Node → W → Option GravityReturnCode × Node × W
  unfolding register_new_service
  register_service transport id server n w =
      if not n.initialized
      then (some not_initialized, n, w)
      else if n.service_manager_locked
      then (none, n, w)
      else if has id n.service_map
      then (some success, n, w)
      else let r = register_new_service transport id server n w in (some r.0, r.1, r.2)

  -- the rest of unregisterService, whose url has an instance
  unfoldable pub withdraw_service : String → Node → W → GravityReturnCode × W
  unfolding ask_directory
  withdraw_service id n w =
      if n.service_directory_node.ip_address == ""
      then (success, w)
      else let time = seconds (get_or 0 (url_of id n) n.url_instance_map) in
        let a =
          ask_directory world n
            (unregistration_request (service_unregistration id (url_of id n) time)) w in
        (directory_result world unregistration_code a.0, a.1)

  -- unregisterService: without an instance of the url it returns before it gives the lock back
  unfoldable pub unregister_service : String → Node → W → Option GravityReturnCode × Node × W
  unfolding withdraw_service
  unregister_service id n w =
      if not n.initialized
      then (some not_initialized, n, w)
      else if n.service_manager_locked
      then (none, n, w)
      else if not (has id n.service_map)
      then (some registration_conflict, n, w)
      else if not (has (url_of id n) n.url_instance_map)
      then (
        some registration_conflict,
        record n { service_manager_locked = true },
        world.service_unregister id w,
      )
      else let a = withdraw_service id n (world.service_unregister id w) in
        (some a.0, remove_service id n, a.1)

  abbrev pub located : Answer R → Located
  located (failed c) = not_found no_service_directory
  located (got r) =
      if world.service_url r == ""
      then not_found no_such_service
      else found (world.service_url r) (world.service_time r)

  -- ServiceDirectoryServiceLookup
  unfoldable pub service_lookup : String → String → Node → W → Located × W
  unfolding ask_directory
  service_lookup id domain n w =
      let q : LookupRequest = record { lookup_id = id; kind = service; domain_id = some domain } in
      let a = ask_directory world n (lookup_request q) w in (located a.0, a.1)

  abbrev pub send_request :
      String → Product → ℕ → String → Option ℕ → Node → Located × W → GravityReturnCode × Node × W
  send_request id p requestor request_id timeout n (not_found c, w) = (c, n, w)
  send_request id p requestor request_id timeout n (found url time, w) = (
    success,
    send (request_message id url request_id timeout time (addressed n p) requestor) n,
    w,
  )

  -- request with a requestor
  unfoldable pub request :
      String → Product → ℕ → String → Option ℕ → String → Node → W → GravityReturnCode × Node × W
  unfolding service_lookup
  request id p requestor request_id timeout domain n w =
      if not n.initialized
      then (not_initialized, n, w)
      else send_request id p requestor request_id timeout n (service_lookup id domain n w)

  -- the second request, to the socket of an answer that is given later; its time is not compared
  abbrev pub follow_response : Product → Answer Product × W → Option Product × W
  follow_response q (failed c, w) = (none, w)
  follow_response q (got p, w) = (some p, w)

  abbrev pub take_response : Product → ℕ → Option ℕ → ℕ → Answer Product × W → Option Product × W
  take_response q time timeout start (failed c, w) = (none, w)
  take_response q time timeout start (got p, w) =
      if not (nat_eq p.registration_time time)
      then (none, w)
      else if not p.future_response
      then (some p, w)
      else let t = world.now w in
        let r =
          world.provider p.future_socket_url q (left_over ((t.0 - start) / 1000) timeout) t.1 in
        follow_response q (answer_of r.0, r.1)

  abbrev pub ask_provider : Product → Option ℕ → Located × W → Option Product × W
  ask_provider q timeout (not_found c, w) = (none, w)
  ask_provider q timeout (found url time, w) =
      let t = world.now w in
      let r = world.provider url q timeout t.1 in
      take_response q time timeout t.0 (answer_of r.0, r.1)

  -- request that waits for the response; none is the null pointer
  unfoldable pub request_synchronously :
      String → Product → Option ℕ → String → Node → W → Option Product × W
  unfolding service_lookup
  request_synchronously id p timeout domain n w =
      if not n.initialized
      then (none, w)
      else ask_provider (addressed n p) timeout (service_lookup id domain n w)
