-- ===== src/Node/World.antt =====
-- What a node asks of others and waits for: the service directory, the publish manager, the
-- service manager and the clock; and sendRequestToServiceDirectory with its retries.
use gravity.Prelude.{ℕ, zero, suc, String, Bool, true, false, List, Option, if◌then◌else◌}
use gravity.Prelude.Key.{◌==◌, string_key}
use gravity.DataProduct.{Product}
use gravity.Directory.Messages.{Publisher}
use gravity.Directory.Requests.{Request}
use gravity.PublishManager.Commands.{Reply}
use gravity.Node.State.{
  GravityReturnCode, DirectoryCode, failure, request_timeout, interrupted, no_service_provider,
  not_initialized, TransportType, NetworkNode, Node,
}

-- one request on a socket of its own, and the poll for the answer
pub data Attempt (R : Type 0) : Type 0 where
  answered : R → Attempt R
  timed_out poll_interrupted poll_failed no_input signalled : Attempt R

-- what the two managers are asked to open
pub record Opening : Type 0 where
  pub id : String
  pub transport : TransportType
  pub endpoint : String

-- What the node calls, over a state W, and how protobuf reads the answers R of the directory: a
-- field that is not there, or an answer that is not of the type, reads as the default.
pub record World (W R : Type 0) : Type 0 where
  pub directory : NetworkNode → Request → W → Attempt R × W
  pub provider : String → Product → Option ℕ → W → Attempt Product × W
  pub directory_code : R → DirectoryCode
  pub publishers : R → List Publisher
  pub has_url : Publisher → Bool
  pub service_url : R → String
  pub service_time : R → ℕ
  pub publish_register : Opening → Bool → W → String × W
  pub publish_unregister : String → W → W
  pub subscribers_exist : String → W → Reply × W
  pub service_register : Opening → ℕ → ℕ → W → String × W
  pub service_unregister : String → W → W
  pub create_future_response : String → W → String × W
  pub send_future_response : String → Product → W → GravityReturnCode × W
  pub now : W → ℕ × W
  pub local_ip : NetworkNode → String
  pub to_dotted_quad : String → String
  pub string_to_int : String → ℕ → ℕ

-- an answer, or the code that a request ended with
pub data Answer (R : Type 0) : Type 0 where
  got : R → Answer R
  failed : GravityReturnCode → Answer R

-- sendRequestToServiceProvider: the code of the poll; a signal outweighs it
abbrev pub answer_of : {R : Type 0} → Attempt R → Answer R
answer_of (answered r) = got r
answer_of timed_out = failed request_timeout
answer_of poll_interrupted = failed interrupted
answer_of poll_failed = failed failure
answer_of no_input = failed no_service_provider
answer_of signalled = failed interrupted

-- the codes that end the retries
abbrev pub is_final : {R : Type 0} → Answer R → Bool
is_final (got r) = true
is_final (failed failure) = true
is_final (failed _) = false

abbrev pub network_retries : ℕ
network_retries = 3

module _ {W R : Type 0} (world : World W R) where
  -- the loop of sendRequestsToServiceProvider, with the retries that are left and the last answer
  unfoldable pub retry : ℕ → NetworkNode → Request → Answer R → W → Answer R × W
  retry zero directory q a w = (a, w)
  retry (suc n) directory q a w =
      let t = world.directory directory q w in
      let rest = retry n directory q (answer_of t.0) t.1 in if is_final a then (a, w) else rest

  -- sendRequestToServiceDirectory
  unfoldable pub ask_directory : Node → Request → W → Answer R × W
  unfolding retry
  ask_directory n q w = retry network_retries n.service_directory_node q (failed not_initialized) w

  -- getIP
  abbrev pub get_ip : Node → String
  get_ip n =
      if n.initialized
      then if n.service_directory_node.ip_address == ""
        then "127.0.0.1"
        else if n.service_directory_node.ip_address == "localhost"
        then "127.0.0.1"
        else world.local_ip n.service_directory_node
      else ""
