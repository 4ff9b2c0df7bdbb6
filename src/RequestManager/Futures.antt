-- ===== src/RequestManager/Futures.antt =====
-- Future responses: the sockets that a provider answers at later.
use gravity.Prelude.{Bool, ℕ, ◌+◌, String, Option, none, some}
use gravity.Prelude.Key.{string_key}
use gravity.Prelude.Maps.{lookup, insert, erase}
use gravity.DataProduct.{Product}
use gravity.Ports.{Url, tcp_url, bind_first_available_port}
use gravity.RequestManager.State.{
  Manager, ReturnCode, success, request_timeout, interrupted, url_reply, code_reply, future_answer,
  emit,
}

-- what the poll of two seconds says of a future's socket
pub data Poll : Type 0 where
  failed nothing_yet readable other_event : Poll

-- how a stream writes the url of a port is the standard library's
module _ (text_of : Url → String) (can_bind : Url → Bool) where
  abbrev pub add_future : String → Option ℕ → Manager → Manager
  add_future ip none s = emit (url_reply "") s
  add_future ip (some port) s = emit (url_reply (text_of (tcp_url ip port))) (record s {
    future_response_url_to_socket_map =
        insert (text_of (tcp_url ip port)) s.next_socket s.future_response_url_to_socket_map;
  })

  -- createFutureResponse
  unfoldable pub create_future_response : String → ℕ → ℕ → Manager → Manager
  unfolding emit bind_first_available_port
  create_future_response ip min_port max_port s =
      let t = add_future ip (bind_first_available_port can_bind ip min_port max_port) s in
      record t { next_socket = t.next_socket + 1 }

abbrev pub poll_code : Poll → ReturnCode
poll_code failed = interrupted
poll_code nothing_yet = request_timeout
poll_code readable = success
poll_code other_event = success

abbrev pub answer_future : Poll → ℕ → Product → Manager → Manager
answer_future readable socket response s = emit (future_answer socket response) s
answer_future p socket response s = s

abbrev pub send_future : Option ℕ → Poll → String → Product → Manager → Manager
send_future none p url response s = s
send_future (some socket) p url response s =
    let t = emit (code_reply (poll_code p)) (answer_future p socket response s) in
    record t { future_response_url_to_socket_map = erase url t.future_response_url_to_socket_map }

-- sendFutureResponse: an unknown url is logged, and that is all
unfoldable pub send_future_response : Poll → String → Product → Manager → Manager
unfolding emit
send_future_response p url response s =
    send_future (lookup url s.future_response_url_to_socket_map) p url response s
