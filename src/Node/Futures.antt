-- ===== src/Node/Futures.antt =====
-- createFutureResponse and sendFutureResponse, and the lock of the request manager's socket.
use gravity.Prelude.{◌≡◌, String, true, false, not, Option, none, some, if◌then◌else◌, arith}
use gravity.Prelude.Key.{◌==◌, string_key}
use gravity.DataProduct.{Product}
use gravity.Node.State.{GravityReturnCode, not_initialized, Node}
use gravity.Node.World.{World, get_ip}
use gravity.Node.Services.{addressed}

-- what createFutureResponse returns, if it does
pub data Created : Type 0 where
  null_pointer waiting : Created
  future_response : String → Created

module _ {W R : Type 0} (world : World W R) where
  -- createFutureResponse: without a port it returns before it gives the lock back
  unfoldable pub create_future_response : Node → W → Created × Node × W
  create_future_response n w =
      if not n.initialized
      then (null_pointer, n, w)
      else if n.request_manager_rep_locked
      then (waiting, n, w)
      else let r = world.create_future_response (get_ip world n) w in
        if r.0 == ""
        then (null_pointer, record n { request_manager_rep_locked = true }, r.1)
        else (future_response r.0, n, r.1)

  -- sendFutureResponse, by the url and the response; none stands for a wait for the lock
  unfoldable pub send_future_response : String → Product → Node → W → Option GravityReturnCode × W
  send_future_response url response n w =
      if not n.initialized
      then (some not_initialized, w)
      else if n.request_manager_rep_locked
      then (none, w)
      else let r = world.send_future_response url (addressed n response) w in (some r.0, r.1)

  -- When there is no port for a future response, the call returns the null pointer, and every later
  -- call that makes or sends one waits for ever for the lock that it left taken: the responses
  -- that were made before cannot be sent.
  pub create-no_port :
      (n : Node) (w : W)
      → n.initialized ≡ true
      → n.request_manager_rep_locked ≡ false
      → (world.create_future_response (get_ip world n) w).0 ≡ ""
      → let r = create_future_response n w in
        (r.0 ≡ null_pointer)
        × ((v : W) → (create_future_response r.1 v).0 ≡ waiting)
        × ((url : String) (p : Product) (v : W) → (send_future_response url p r.1 v).0 ≡ none)
  unfolding create_future_response send_future_response
  create-no_port n w ready free empty =
      let e : ((world.create_future_response (get_ip world n) w).0 == "") ≡ true =
        (string_key.beq_iff (world.create_future_response (get_ip world n) w).0 "").1 empty in
      (
        ground (arith, ready, free, e),
        λ v. ground (arith, ready, free, e),
        λ url p v. ground (arith, ready, free, e),
      )
