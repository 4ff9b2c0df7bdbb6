-- ===== src/RequestManager/State.antt =====
-- The state of the request manager (src/api/cpp/GravityRequestManager.h), and a new request.
use gravity.Prelude.{
  ℕ, ◌+◌, ◌/◌, String, List, [], ◌∷◌, ◌++◌, Option, none, some, if◌then◌else◌, ltb,
}
use gravity.Prelude.Key.{nat_key}
use gravity.Prelude.Maps.{Map, insert}
use gravity.DataProduct.{Product}

-- struct RequestDetails. A requestor is its number; a request without a timeout has none for its
-- time of -1.
pub record Details : Type 0 where
  pub service_id : String
  pub request_id : String
  pub timeout_time_milliseconds : Option ℕ
  pub requestor : ℕ
  pub registration_time : ℕ
  pub url : String

-- the answer of the manager to the node's sendFutureResponse
pub data ReturnCode : Type 0 where
  success failure request_timeout interrupted : ReturnCode

-- What the manager does outside its own state: the request that is sent, the callbacks of the
-- requestor, an answer that is refused (which is logged), the note to the service directory, the
-- sockets of future responses, and the answers to the node.
pub data Output : Type 0 where
  sent : Details → Product → Output
  request_filled : Details → Product → Output
  timed_out : Details → Output
  refused : Details → Product → Output
  stale_entry : String → String → String → ℕ → Output
  future_request : String → Output
  future_answer : ℕ → Product → Output
  url_reply : String → Output
  code_reply : ReturnCode → Output

-- class GravityRequestManager. The sockets are numbered in the order of their creation, which
-- stands for the order of their addresses in the map; the poll items are those behind the first
-- two. What was done is a list, oldest first.
pub record Manager : Type 0 where
  pub next_socket : ℕ
  pub request_map : Map ℕ Details
  pub poll_items : List ℕ
  pub future_response_url_to_socket_map : Map String ℕ
  pub service_directory_url : String
  pub outputs : List Output

abbrev pub init : Manager
init = record {
  next_socket = 0;
  request_map = [];
  poll_items = [];
  future_response_url_to_socket_map = [];
  service_directory_url = "";
  outputs = [];
}

unfoldable pub emit : Output → Manager → Manager
emit o s = record s { outputs = s.outputs ++ o ∷ [] }

-- what processRequest reads
pub record Request : Type 0 where
  pub service_id : String
  pub url : String
  pub request_id : String
  pub timeout_milliseconds : ℕ
  pub registration_time : ℕ
  pub product : Product
  pub requestor : ℕ

-- the time of a timeout, from microseconds; an int of 0 or less has none
abbrev pub timeout_time : ℕ → ℕ → Option ℕ
timeout_time now ms = if ltb 0 ms then some (now / 1000 + ms) else none

abbrev pub new_details : ℕ → Request → Details
new_details now q = record {
  service_id = q.service_id;
  request_id = q.request_id;
  timeout_time_milliseconds = timeout_time now q.timeout_milliseconds;
  requestor = q.requestor;
  registration_time = q.registration_time;
  url = q.url;
}

-- processRequest
unfoldable pub process_request : ℕ → Request → Manager → Manager
unfolding emit
process_request now q s =
    emit (sent (new_details now q) (record q.product { registration_time = q.registration_time }))
      (record s {
        next_socket = s.next_socket + 1;
        poll_items = s.poll_items ++ s.next_socket ∷ [];
        request_map = insert s.next_socket (new_details now q) s.request_map;
      })
