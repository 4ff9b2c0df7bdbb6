-- ===== src/RequestManager/Tests.antt =====
-- A request without a timeout, one with a timeout, their answers, and a future response.
use gravity.Prelude.{
  ℕ, ◌≡◌, refl, ◌/◌, String, Bool, true, false, not, some_inj, subst, [], ◌∷◌, ◌++◌, none, some,
  nat_eq, if◌then◌else◌,
}
use gravity.Prelude.Key.{string_key, nat_key}
use gravity.Prelude.Maps.{lookup, insert, place, replace}
use gravity.DataProduct.{new_product}
use gravity.Ports.{Url, tcp_url, other_url, bind_first_available_port}
use gravity.RequestManager.State.{
  Details, Manager, Request, init, new_details, process_request, url_reply, future_answer,
  code_reply, success,
}
use gravity.RequestManager.Timeouts.{Pass, is_due, expire_pass}
use gravity.RequestManager.Futures.{readable, failed, create_future_response, send_future_response}
use gravity.RequestManager.Loop.{Round, Running, request, polled, create_future, round}
use gravity.RequestManager.Invariant.{Inv, init-Inv, process_request-Inv}
use gravity.RequestManager.Endings.{
  due_entries, sockets, timeouts, expire_pass-ends, expire_pass-stuck,
}
use gravity.RequestManager.Rounds.{round-Inv}
use gravity.RequestManager.Roundtrip.{create-send_future_response}

abbrev patient : Request
patient = record {
  service_id = "Zoom";
  url = "tcp://camera:4001";
  request_id = "first";
  timeout_milliseconds = 0;
  registration_time = 5;
  product = new_product "Level";
  requestor = 3;
}

abbrev urgent : Request
urgent = record patient { request_id = "second"; timeout_milliseconds = 50 }

abbrev slow : Request
slow = record patient { request_id = "third"; timeout_milliseconds = 9000 }

-- the requests are made at a million milliseconds
abbrev made : ℕ
made = 1000000000

abbrev later : ℕ → ℕ
later socket = 1000060000

abbrev at_once : ℕ → ℕ
at_once socket = 1000010000

abbrev only_urgent : Manager
only_urgent = process_request made urgent init

urgent_first : only_urgent.poll_items ≡ sockets (due_entries later only_urgent.request_map) ++ []
unfolding process_request insert place replace lookup
urgent_first = refl

expire_pass-ends_example :
    (r : Pass) × (expire_pass later only_urgent ≡ some r)
    × (r.manager.poll_items ≡ [])
    × (r.manager.outputs
        ≡ only_urgent.outputs ++ timeouts (due_entries later only_urgent.request_map))
expire_pass-ends_example = expire_pass-ends later only_urgent [] urgent_first

abbrev patient_first : Manager
patient_first = process_request made urgent (process_request made patient init)

patient_first-Inv : Inv patient_first
patient_first-Inv =
    process_request-Inv made urgent _ (process_request-Inv made patient init init-Inv)

two_polled : patient_first.poll_items ≡ 0 ∷ 1 ∷ []
unfolding process_request
two_polled = refl

patient_waits :
    (d : Details)
    → lookup 0 patient_first.request_map ≡ some d
    → is_due (later 0 / 1000) d.timeout_time_milliseconds ≡ false
unfolding process_request insert place replace lookup
patient_waits d e =
    subst (λ (x : Details). is_due (later 0 / 1000) x.timeout_time_milliseconds ≡ false)
      (some_inj e) refl

urgent_there : lookup 1 patient_first.request_map ≡ some (new_details made urgent)
unfolding process_request insert place replace lookup
urgent_there = refl

expire_pass-stuck_example : expire_pass later patient_first ≡ none
expire_pass-stuck_example =
    expire_pass-stuck later patient_first 0 (1 ∷ []) patient_first-Inv two_polled patient_waits 1
      (new_details made urgent) urgent_there refl

abbrev slow_first : Manager
slow_first = process_request made urgent (process_request made slow init)

slow_first-Inv : Inv slow_first
slow_first-Inv = process_request-Inv made urgent _ (process_request-Inv made slow init init-Inv)

none_due :
    slow_first.poll_items ≡ sockets (due_entries at_once slow_first.request_map) ++ 0 ∷ 1 ∷ []
unfolding process_request insert place replace lookup
none_due = refl

abbrev waiting : Pass
waiting = (expire_pass-ends at_once slow_first (0 ∷ 1 ∷ []) none_due).0

-- the text of a stream, for the ports of the test
abbrev text_of : Url → String
text_of (tcp_url ip port) = ip
text_of (other_url transport endpoint) = endpoint

abbrev can_bind : Url → Bool
can_bind (tcp_url ip port) = not (nat_eq port 4000)
can_bind (other_url transport endpoint) = true

abbrev answer_round : Round
answer_round = record {
  clock = at_once;
  poll = polled;
  command = some (request made patient);
  response_command = some (create_future can_bind "camera" 4000 4002);
  messages = λ socket.
      if nat_eq socket 0
      then some (record (new_product "Level") { registration_time = 5 })
      else none;
}

round-Inv_example : (n : Running) × (round text_of answer_round slow_first ≡ some n) × Inv n.manager
round-Inv_example =
    round-Inv text_of answer_round slow_first waiting slow_first-Inv
      (expire_pass-ends at_once slow_first (0 ∷ 1 ∷ []) none_due).1

port_bound : bind_first_available_port can_bind "camera" 4000 4002 ≡ some 4001
unfolding bind_first_available_port
port_bound = refl

abbrev answered : Manager
answered =
    send_future_response readable "camera" (new_product "Late")
      (create_future_response text_of can_bind "camera" 4000 4002 init)

create-send_future_response_example :
    (answered.outputs
      ≡ url_reply "camera" ∷ future_answer 0 (new_product "Late") ∷ code_reply success ∷ [])
    × (send_future_response failed "camera" (new_product "Again") answered ≡ answered)
create-send_future_response_example =
    create-send_future_response text_of can_bind "camera" 4000 4002 4001 init (new_product "Late")
      (new_product "Again") readable failed port_bound
