-- ===== src/SubscriptionManager/Monitors.antt =====
-- setTimeoutMonitor and clearTimeoutMonitor.
use gravity.Prelude.{
  ℕ, ◌/◌, String, Bool, false, ◌&&◌, List, [], ◌∷◌, Option, none, some, is_empty, nat_eq,
  if◌then◌else◌,
}
use gravity.Prelude.Key.{string_key, nat_key}
use gravity.SubscriptionManager.State.{
  DomainDataKey, domain_data_key, Timeout, plus, TimeoutMonitor, Manager, new_details, details_at,
  set_details,
}
use gravity.SubscriptionManager.Subscribing.{known_object, map_details, Found, forget_details}

-- what setTimeoutMonitor reads
pub record MonitorRequest : Type 0 where
  pub key : DomainDataKey
  pub monitor : ℕ
  pub timeout : Timeout
  pub filter : String

-- the object of the filter; a new one is the only one of its key afterwards
abbrev pub monitored_details : MonitorRequest → Option ℕ → Manager → Found
monitored_details q (some p) s = record { object = p; manager = s }
monitored_details q none s = record {
  object = s.next_object;
  manager = map_details q.key q.filter s.next_object [] (new_details q.key q.filter false none) s;
}

-- the first monitor with the number starts anew, or a new one is put in
abbrev pub put_monitor : ℕ → ℕ → Timeout → List TimeoutMonitor → List TimeoutMonitor
put_monitor now monitor timeout [] =
    record {
      monitor = monitor;
      timeout = timeout;
      end_time = plus now timeout;
      last_received = none;
    }
    ∷ []
put_monitor now monitor timeout (m ∷ ms) =
    let rest = put_monitor now monitor timeout ms in
    if nat_eq m.monitor monitor
    then record m { timeout = timeout; end_time = plus now timeout } ∷ ms
    else m ∷ rest

-- setTimeoutMonitor, at a time in microseconds
unfoldable pub set_timeout_monitor : ℕ → MonitorRequest → Manager → Manager
set_timeout_monitor now q s =
    let found = monitored_details q (known_object q.key q.filter s) s in
    let d = details_at found.object found.manager in
    set_details found.object
      (record d { monitors = put_monitor (now / 1000) q.monitor q.timeout d.monitors })
      found.manager

abbrev pub take_monitor : ℕ → List TimeoutMonitor → List TimeoutMonitor
take_monitor monitor [] = []
take_monitor monitor (m ∷ ms) =
    let rest = take_monitor monitor ms in if nat_eq m.monitor monitor then ms else m ∷ rest

-- the monitor that the poll waits for is let go when it is the one that is cleared
abbrev pub is_current : ℕ → ℕ → Option (ℕ × ℕ) → Bool
is_current p monitor none = false
is_current p monitor (some (q, m)) = nat_eq p q && nat_eq monitor m

abbrev pub release : ℕ → ℕ → Manager → Manager
release p monitor s =
    if is_current p monitor s.curr_timeout_monitor
    then record s { curr_timeout_monitor = none; poll_timeout = none }
    else s

abbrev pub clear_monitor : DomainDataKey → String → ℕ → Option ℕ → Manager → Manager
clear_monitor key filter monitor none s = s
clear_monitor key filter monitor (some p) s =
    let d = details_at p s in
    let left = record d { monitors = take_monitor monitor d.monitors } in
    let t = release p monitor (set_details p left s) in
    if is_empty left.monitors && is_empty left.subscribers
    then forget_details key filter left t
    else t

-- clearTimeoutMonitor
unfoldable pub clear_timeout_monitor : DomainDataKey → String → ℕ → Manager → Manager
clear_timeout_monitor key filter monitor s =
    clear_monitor key filter monitor (known_object key filter s) s
