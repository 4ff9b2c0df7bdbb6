-- ===== src/Heartbeat.antt =====
-- The listener for heartbeats: what is expected and when, and who is told
-- (src/api/cpp/GravityHeartbeat.cpp).
use gravity.Prelude.{
  ℕ, ◌+◌, ◌-◌, String, Bool, true, false, List, [], ◌∷◌, ◌++◌, Option, none, some, nat_eq, ltb,
  if◌then◌else◌,
}
use gravity.Prelude.Key.{◌==◌, string_key}
use gravity.Prelude.Maps.{Map, Set, lookup, has, insert, erase}
use gravity.Prelude.Sorting.{insert_by}
use gravity.DataProduct.{Product}
pub mod Queue
mod Tests

-- struct ExpectedMessageQueueElement; times are in microseconds
pub record Expected : Type 0 where
  pub expected_time : ℕ
  pub last_heartbeat_time : ℕ
  pub time_to_wait_between_heartbeats : ℕ
  pub data_product_id : String

-- the callbacks of a listener, which is its number; a time of -1 since the last heartbeat is none
pub data Call : Type 0 where
  missed_heartbeat : ℕ → String → Option ℕ → ℕ → Call
  received_heartbeat : ℕ → String → ℕ → Call

-- The static members of class Heartbeat. The priority queue is a list with the earliest time first,
-- where an element that is pushed comes before those of the same time. The calls are oldest first.
pub record Listener : Type 0 where
  pub message_times : List Expected
  pub listener : Map String ℕ
  pub filled_heartbeats : Set String
  pub calls : List Call

abbrev pub init : Listener
init = record { message_times = []; listener = []; filled_heartbeats = []; calls = [] }

-- subscriptionFilled
unfoldable pub subscription_filled : List Product → Listener → Listener
subscription_filled [] s = s
subscription_filled (q ∷ qs) s =
    subscription_filled qs
      (record s { filled_heartbeats = insert q.data_product_id tt s.filled_heartbeats })

-- messageTimes.push
unfoldable pub push : Expected → List Expected → List Expected
push e q = insert_by (λ x. x.expected_time) e q

abbrev pub since_last : ℕ → ℕ → Option ℕ
since_last now last = if nat_eq last 0 then none else some (now - last)

-- the clock at the test, at the callback and at the new expected time
pub record Clock : Type 0 where
  pub now : ℕ
  pub called : ℕ
  pub renewed : ℕ

abbrev pub renew : Clock → Expected → Expected
renew c e = record e { expected_time = c.renewed + e.time_to_wait_between_heartbeats }

abbrev pub heard : Clock → Expected → Expected
heard c e = record e { last_heartbeat_time = c.called }

-- The name of the component in a data product id: what is before the last "_GravityHeartbeat", by
-- the standard library's search.
module _ (component_of : String → String) where
  -- an element whose time has come, by its listener and whether the heartbeat was there
  abbrev pub tell : Clock → Option ℕ → Bool → Expected → List Expected → Listener → Listener
  tell c none got e es s = record s { message_times = push (renew c e) es }
  tell c (some l) true e es s = record s {
    message_times = push (renew c (heard c e)) es;
    calls =
        s.calls
        ++ received_heartbeat l (component_of e.data_product_id) e.time_to_wait_between_heartbeats
          ∷ [];
  }
  tell c (some l) false e es s = record s {
    message_times = push (renew c e) es;
    calls =
        s.calls
        ++ missed_heartbeat l (component_of e.data_product_id)
            (since_last c.called e.last_heartbeat_time) e.time_to_wait_between_heartbeats
          ∷ [];
  }

  abbrev pub check_first : Clock → List Expected → Listener → Listener
  check_first c [] s = s
  check_first c (e ∷ es) s =
      if ltb c.now e.expected_time
      then s
      else tell c (lookup e.data_product_id s.listener) (has e.data_product_id s.filled_heartbeats)
          e es (record s { filled_heartbeats = erase e.data_product_id s.filled_heartbeats })

-- a message of the node; a registration comes with its listener, the time to wait and the clock
pub data Command : Type 0 where
  register : String → ℕ → ℕ → ℕ → Command
  unregister : String → Command
  unknown_command : Command

abbrev pub new_expected : String → ℕ → ℕ → Expected
new_expected id wait now = record {
  expected_time = now + wait;
  last_heartbeat_time = 0;
  time_to_wait_between_heartbeats = wait;
  data_product_id = id;
}

-- the elements of other products, pushed in the order of their times
abbrev pub without_id : String → List Expected → List Expected
without_id id [] = []
without_id id (e ∷ es) =
    let rest = without_id id es in if e.data_product_id == id then rest else push e rest

unfoldable pub command : Command → Listener → Listener
unfolding push
command (register id l wait now) s = record s {
  listener = insert id l s.listener;
  message_times = push (new_expected id wait now) s.message_times;
}
command (unregister id) s = record s {
  listener = erase id s.listener;
  message_times = without_id id s.message_times;
}
command unknown_command s = s

-- what happens: the heartbeats that come, a check of the first element, or a message; kill ends the run
pub data Event : Type 0 where
  filled : List Product → Event
  checked : Clock → Event
  commanded : Command → Event

module _ (component_of : String → String) where
  unfoldable pub step : Event → Listener → Listener
  unfolding subscription_filled push command
  step (filled qs) s = subscription_filled qs s
  step (checked c) s = check_first component_of c s.message_times s
  step (commanded c) s = command c s

  unfoldable pub run : List Event → Listener → Listener
  unfolding step
  run [] s = s
  run (e ∷ es) s = run es (step e s)
