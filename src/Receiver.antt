-- ===== src/Receiver.antt =====
-- The receiver of the broadcasts of other service directories
-- (src/components/cpp/ServiceDirectory/ServiceDirectoryUDPReceiver.cpp): which domains it reports
-- as added, updated and removed.
pub mod Legal
pub mod Keys
pub mod Rounds
mod Tests
use gravity.Prelude.{
  ℕ, ◌+◌, ◌-◌, ◌%◌, ◌^◌, String, Bool, true, false, not, ◌&&◌, ◌||◌, List, [], ◌∷◌, Option, none,
  some, leb, nat_eq, if◌then◌else◌,
}
use gravity.Prelude.Key.{◌==◌, string_key}
use gravity.Prelude.Maps.{Map, lookup, has, get_or, insert, erase}
use gravity.Timeval.{
  Timeval, zero_time, add_time, timevalcmp, is_below, is_same, is_due, subtract_time, Sign,
}
use gravity.Directory.Requests.{DomainCommand, add, update, remove}

abbrev pub max_receive_count : ℕ
max_receive_count = 3

-- ServiceDirectoryBroadcastPB
pub record Broadcast : Type 0 where
  pub domain : String
  pub url : String
  pub rate : ℕ
  pub start_time : ℕ

-- The receiver's parameters, its four maps, the timeout of its socket, and what it sent to the
-- directory, newest first.
pub record Receiver : Type 0 where
  pub our_domain : String
  pub our_url : String
  pub valid_domains : List String
  pub received_count_map : Map String ℕ
  pub broadcast_rate_map : Map String ℕ
  pub expected_msg_time_map : Map String Timeval
  pub connected_domain_map : Map String ℕ
  pub timeout : Timeval
  pub sent : List DomainCommand

-- isValidDomain
unfoldable pub is_valid_domain : String → List String → Bool
is_valid_domain domain [] = false
is_valid_domain domain (v ∷ vs) =
    if (domain == v) || (v == "*") then true else is_valid_domain domain vs

unfoldable pub send : DomainCommand → Receiver → Receiver
send c s = record s { sent = c ∷ s.sent }

-- enough broadcasts have been seen: the directory hears of a new domain, or of a restarted one
unfoldable pub connect : Broadcast → Receiver → Receiver
unfolding send
connect b s = elim (lookup b.domain s.connected_domain_map) [
  | none ↦
      send (add b.domain b.url)
        (record s { connected_domain_map = insert b.domain b.start_time s.connected_domain_map })
  | some start ↦
      if nat_eq start b.start_time
      then s
      else send (update b.domain b.url)
          (record s { connected_domain_map = insert b.domain b.start_time s.connected_domain_map })
]

-- a broadcast of a domain that was seen before
unfoldable pub count_broadcast : Broadcast → ℕ → Receiver → Receiver
unfolding connect
count_broadcast b known s =
    let count = (known + 1) % 2 ^ 32 in
    let enough = leb max_receive_count count in
    let t = (if enough then connect b s else s) in
    record t {
      received_count_map =
          insert b.domain (if enough then max_receive_count else count) t.received_count_map;
    }

-- by what receivedCountMap has for the domain
unfoldable pub note_count : Option ℕ → Broadcast → Receiver → Receiver
unfolding count_broadcast
note_count none b s = record s {
  received_count_map = insert b.domain 1 s.received_count_map;
  broadcast_rate_map = insert b.domain b.rate s.broadcast_rate_map;
}
note_count (some known) b s = count_broadcast b known s

unfoldable pub note_broadcast : Broadcast → Receiver → Receiver
unfolding note_count
note_broadcast b s = note_count (lookup b.domain s.received_count_map) b s

-- messages of our own domain or of a domain that is not valid are ignored
unfoldable pub hear : Broadcast → Timeval → Receiver → Receiver
unfolding note_broadcast is_valid_domain
hear b now s =
    if not (s.our_domain == b.domain) && is_valid_domain b.domain s.valid_domains
    then (let t = note_broadcast b s in
        record t {
          expected_msg_time_map = insert b.domain (add_time now b.rate) t.expected_msg_time_map;
        })
    else s

-- too many messages were missed
unfoldable pub drop_domain : String → Receiver → Receiver
unfolding send
drop_domain domain s =
    let t =
      (if has domain s.connected_domain_map
        then send (remove domain)
            (record s { connected_domain_map = erase domain s.connected_domain_map })
        else s) in
    record t {
      received_count_map = erase domain t.received_count_map;
      broadcast_rate_map = erase domain t.broadcast_rate_map;
    }

-- the domains to remove from the expected times, and the state so far
abbrev pub Scan : Type 0
Scan = List String × Receiver

-- the next timeout is the shortest time to a message, where zero stands for no timeout yet
unfoldable pub shorter : Timeval → Timeval → Timeval
shorter time_to_wait timeout =
    if is_same (timevalcmp zero_time timeout) || is_below (timevalcmp time_to_wait timeout)
    then time_to_wait
    else timeout

unfoldable pub wait_for : Timeval → Timeval → Receiver → Receiver
unfolding shorter
wait_for next now s = record s { timeout = shorter (subtract_time next now) s.timeout }

-- a message was missed, and not too many: the count falls and the next one is expected
unfoldable pub miss_one : String → ℕ → Timeval → Timeval → Receiver → Receiver
unfolding wait_for
miss_one domain count next now s = wait_for next now (record s {
  expected_msg_time_map = insert domain next s.expected_msg_time_map;
  received_count_map = insert domain count s.received_count_map;
})

-- by what the two at() calls find: they throw where a map has no such key, which none stands for
unfoldable pub miss_known : Option ℕ → Option ℕ → String → Timeval → Timeval → Scan → Option Scan
unfolding drop_domain miss_one
miss_known none rate domain time now scan = none
miss_known (some known) rate domain time now (removed, s) =
    if leb known 1 then some (domain ∷ removed, drop_domain domain s) else (elim rate [
      | none ↦ none
      | some r ↦ some (removed, miss_one domain (known - 1) (add_time time r) now s)
    ])

unfoldable pub miss : String → Timeval → Timeval → Scan → Option Scan
unfolding miss_known
miss domain time now (removed, s) =
    miss_known (lookup domain s.received_count_map) (lookup domain s.broadcast_rate_map) domain time
      now (removed, s)

-- one round of the loop over the expected times
unfoldable pub check_time : String → Timeval → Timeval → Scan → Option Scan
unfolding miss
check_time domain time now (removed, s) =
    if is_due time now
    then miss domain time now (removed, s)
    else some (removed, wait_for time now s)

-- the loop writes no key but the one that it stands at
unfoldable pub check_times : Map String Timeval → Timeval → Scan → Option Scan
unfolding check_time
check_times [] now scan = some scan
check_times ((domain, time) ∷ rest) now scan = elim (check_time domain time now scan) [
  | none ↦ none
  | some next ↦ check_times rest now next
]

unfoldable pub forget_times : List String → Receiver → Receiver
forget_times [] s = s
forget_times (domain ∷ rest) s =
    forget_times rest (record s { expected_msg_time_map = erase domain s.expected_msg_time_map })

-- what recvfrom brings: a message, or the end of the timeout; an empty message is skipped
pub data Arrival : Type 0 where
  message : Broadcast → Arrival
  timed_out : Arrival
  empty_message : Arrival

unfoldable pub arrive : Arrival → Timeval → Receiver → Receiver
unfolding hear
arrive (message b) now s = hear b now s
arrive timed_out now s = s
arrive empty_message now s = s

-- the rest of a round: look for missed messages, and set the timeout
unfoldable pub expire : Timeval → Receiver → Option Receiver
unfolding check_times forget_times
expire now s =
    elim (check_times s.expected_msg_time_map now ([], record s { timeout = zero_time })) [
      | none ↦ none
      | some (removed, t) ↦ some (forget_times removed t)
    ]

unfoldable pub round : Arrival → Timeval → Receiver → Option Receiver
unfolding arrive expire
round empty_message now s = some s
round (message b) now s = expire now (arrive (message b) now s)
round timed_out now s = expire now (arrive timed_out now s)

unfoldable pub rounds : List (Arrival × Timeval) → Receiver → Option Receiver
unfolding round
rounds [] s = some s
rounds ((a, now) ∷ rest) s = elim (round a now s) [ none ↦ none | some t ↦ rounds rest t ]

abbrev pub init : String → String → List String → Receiver
init domain url valid = record {
  our_domain = domain;
  our_url = url;
  valid_domains = valid;
  received_count_map = [];
  broadcast_rate_map = [];
  expected_msg_time_map = [];
  connected_domain_map = [];
  timeout = zero_time;
  sent = [];
}
