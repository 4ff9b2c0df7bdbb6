-- ===== src/RequestManager/Loop.antt =====
-- The loop of start.
use gravity.Prelude.{ℕ, String, Bool, true, false, Option, none, some, if◌then◌else◌}
use gravity.PollItems.{is_polled}
use gravity.DataProduct.{Product}
use gravity.Ports.{Url}
use gravity.RequestManager.State.{Manager, Request, process_request}
use gravity.RequestManager.Timeouts.{Pass, expire_pass}
use gravity.RequestManager.Answers.{receive_answers}
use gravity.RequestManager.Futures.{Poll, create_future_response, send_future_response}

-- a message of the node, at a time in microseconds where one is read
pub data Command : Type 0 where
  request : ℕ → Request → Command
  kill : Command
  set_service_dir_url : String → Command
  unknown_command : Command

-- a message on the response socket, with what can be bound or what a poll says
pub data ResponseCommand : Type 0 where
  create_future : (Url → Bool) → String → ℕ → ℕ → ResponseCommand
  send_answer : Poll → String → Product → ResponseCommand
  unknown_response_command : ResponseCommand

-- what zmq_poll says of all sockets
pub data PollResult : Type 0 where
  polled interrupted_poll failed_poll : PollResult

-- One time through the loop: the clock at each request, the poll, the messages
-- on the first two sockets and on those of the requests.
pub record Round : Type 0 where
  pub clock : ℕ → ℕ
  pub poll : PollResult
  pub command : Option Command
  pub response_command : Option ResponseCommand
  pub messages : ℕ → Option Product

-- whether the loop goes on, and the state
pub record Running : Type 0 where
  pub goes_on : Bool
  pub manager : Manager

unfoldable pub run_command : Option Command → Manager → Running
unfolding process_request
run_command none s = record { goes_on = true; manager = s }
run_command (some (request now q)) s = record { goes_on = true; manager = process_request now q s }
run_command (some kill) s = record { goes_on = false; manager = s }
run_command (some (set_service_dir_url url)) s = record {
  goes_on = true;
  manager = record s { service_directory_url = url };
}
run_command (some unknown_command) s = record { goes_on = true; manager = s }

-- the messages of the sockets that were polled
abbrev pub polled_messages : Manager → (ℕ → Option Product) → ℕ → Option Product
polled_messages s messages socket = if is_polled socket s.poll_items then messages socket else none

abbrev pub go_on : Option Manager → Option Running
go_on none = none
go_on (some t) = some (record { goes_on = true; manager = t })

module _ (text_of : Url → String) where
  unfoldable pub run_response_command : Option ResponseCommand → Manager → Manager
  unfolding create_future_response send_future_response
  run_response_command none s = s
  run_response_command (some (create_future can_bind ip min_port max_port)) s =
      create_future_response text_of can_bind ip min_port max_port s
  run_response_command (some (send_answer p url response)) s = send_future_response p url response s
  run_response_command (some unknown_response_command) s = s

  abbrev pub after_command : Round → Manager → Running → Option Running
  after_command r before n =
      if n.goes_on
      then go_on (
          receive_answers (polled_messages before r.messages)
            (run_response_command r.response_command n.manager))
      else some n

  abbrev pub after_poll : PollResult → Round → Manager → Option Running
  after_poll interrupted_poll r s = some (record { goes_on = true; manager = s })
  after_poll failed_poll r s = some (record { goes_on = false; manager = s })
  after_poll polled r s = after_command r s (run_command r.command s)

  abbrev pub after_pass : Round → Option Pass → Option Running
  after_pass r none = none
  after_pass r (some p) = after_poll r.poll r p.manager

  -- none stands for a pass that does not end or a null pointer that is followed
  unfoldable pub round : Round → Manager → Option Running
  unfolding run_command run_response_command expire_pass receive_answers
  round r s = after_pass r (expire_pass r.clock s)
