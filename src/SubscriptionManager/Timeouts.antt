-- ===== src/SubscriptionManager/Timeouts.antt =====
-- calculateTimeout, and a poll that times out.
use gravity.Prelude.{
  ℕ, ◌+◌, ◌-◌, ◌/◌, String, Bool, true, List, [], ◌∷◌, ◌++◌, Option, none, some, is_empty, nat_eq,
  ltb, leb, if◌then◌else◌,
}
use gravity.Prelude.Key.{string_key, nat_key}
use gravity.Prelude.Maps.{Map}
use gravity.SubscriptionManager.State.{
  DomainDataKey, Timeout, wait, never, TimeoutMonitor, Details, Output, subscription_timeout,
  Manager, details_at, set_details, emit,
}

-- The shortest time so far, none for -1, and the monitor that is put down for it.
pub record Shortest : Type 0 where
  pub min_time : Option ℕ
  pub current : Option (ℕ × ℕ)

abbrev pub is_shorter : ℕ → Option ℕ → Bool
is_shorter t none = true
is_shorter t (some m) = ltb t m

-- the time of a monitor that is out: its next one may be the shortest, and the monitor that was put
-- down stays
abbrev pub note_timeout : ℕ → Shortest → Shortest
note_timeout timeout b =
    if is_shorter timeout b.min_time then record b { min_time = some timeout } else b

abbrev pub note_remaining : ℕ → ℕ → ℕ → Shortest → Shortest
note_remaining p monitor left b =
    if is_shorter left b.min_time
    then record { min_time = some left; current = some (p, monitor) }
    else b

-- the milliseconds since the last product, none for -1
abbrev pub since : ℕ → Option ℕ → Option ℕ
since now none = none
since now (some t) = if ltb 0 t then some (now - t) else none

abbrev pub timeout_call : ℕ → Details → TimeoutMonitor → Output
timeout_call now d m =
    subscription_timeout m.monitor d.data_product_id (since now m.last_received) d.filter d.domain

-- what is left to do with the monitors of an object, and what was done
pub record Checked : Type 0 where
  pub monitors : List TimeoutMonitor
  pub outputs : List Output
  pub shortest : Shortest

abbrev pub before : List Output → TimeoutMonitor → Checked → Checked
before os m r = record r { monitors = m ∷ r.monitors; outputs = os ++ r.outputs }

-- a monitor with a timeout of 0 or more, at a time in milliseconds
abbrev pub check_active :
    ℕ → ℕ → Details → TimeoutMonitor → ℕ → Shortest → (Shortest → Checked) → Checked
check_active now p d m timeout b rest =
    if leb m.end_time now
    then before (timeout_call now d m ∷ []) (record m { end_time = m.end_time + timeout })
        (rest (note_timeout timeout b))
    else before [] m (rest (note_remaining p m.monitor (m.end_time - now) b))

abbrev pub check_monitor :
    ℕ → ℕ → Details → TimeoutMonitor → Timeout → Shortest → (Shortest → Checked) → Checked
check_monitor now p d m (never n) b rest = before [] m (rest b)
check_monitor now p d m (wait timeout) b rest = check_active now p d m timeout b rest

-- over the monitors of an object with subscribers; the clock shows microseconds at each
unfoldable pub check_monitors : (ℕ → ℕ) → ℕ → Details → List TimeoutMonitor → Shortest → Checked
check_monitors clock p d [] b = record { monitors = []; outputs = []; shortest = b }
check_monitors clock p d (m ∷ ms) b =
    check_monitor (clock m.monitor / 1000) p d m m.timeout b (check_monitors clock p d ms)

-- the state and the shortest time, as the objects are gone through
pub record Scan : Type 0 where
  pub manager : Manager
  pub shortest : Shortest

abbrev pub take_checked : ℕ → Details → Manager → Checked → Scan
take_checked p d s r = record {
  manager = record (set_details p (record d { monitors = r.monitors }) s) {
    outputs = s.outputs ++ r.outputs;
  };
  shortest = r.shortest;
}

abbrev pub scan_object : (ℕ → ℕ) → ℕ → Scan → Scan
scan_object clock p c =
    let d = details_at p c.manager in
    if is_empty d.subscribers
    then c
    else take_checked p d c.manager (check_monitors clock p d d.monitors c.shortest)

unfoldable pub scan_filters : (ℕ → ℕ) → Map String ℕ → Scan → Scan
unfolding check_monitors
scan_filters clock [] c = c
scan_filters clock ((filter, p) ∷ fs) c = scan_filters clock fs (scan_object clock p c)

unfoldable pub scan_keys : (ℕ → ℕ) → Map DomainDataKey (Map String ℕ) → Scan → Scan
unfolding scan_filters
scan_keys clock [] c = c
scan_keys clock ((key, fs) ∷ ks) c = scan_keys clock ks (scan_filters clock fs c)

-- calculateTimeout
unfoldable pub calculate_timeout : (ℕ → ℕ) → Manager → Manager
unfolding scan_keys
calculate_timeout clock s =
    let c =
      scan_keys clock s.subscription_map
        (record { manager = s; shortest = record { min_time = none; current = none } }) in
    record c.manager {
      poll_timeout = c.shortest.min_time;
      curr_timeout_monitor = c.shortest.current;
    }

abbrev pub timeout_of : Timeout → ℕ
timeout_of (wait n) = n
timeout_of (never n) = 0

-- the milliseconds since the last product, as a poll that times out tells them
abbrev pub since_last : ℕ → Option ℕ → Option ℕ
since_last now none = none
since_last now (some t) = some (now - t)

abbrev pub postpone : ℕ → List TimeoutMonitor → List TimeoutMonitor
postpone monitor [] = []
postpone monitor (m ∷ ms) =
    let rest = postpone monitor ms in
    if nat_eq m.monitor monitor
    then record m { end_time = m.end_time + timeout_of m.timeout } ∷ ms
    else m ∷ rest

abbrev pub last_received_of : ℕ → List TimeoutMonitor → Option ℕ
last_received_of monitor [] = none
last_received_of monitor (m ∷ ms) =
    let rest = last_received_of monitor ms in
    if nat_eq m.monitor monitor then m.last_received else rest

abbrev pub tell_timeout : ℕ → Option (ℕ × ℕ) → Manager → Manager
tell_timeout now none s = s
tell_timeout now (some (p, monitor)) s =
    let d = details_at p s in
    emit
      (subscription_timeout monitor d.data_product_id
        (since_last now (last_received_of monitor d.monitors)) d.filter d.domain)
      (set_details p (record d { monitors = postpone monitor d.monitors }) s)

-- a poll that times out, at a time in microseconds
unfoldable pub poll_timed_out : ℕ → Manager → Manager
poll_timed_out now s = tell_timeout (now / 1000) s.curr_timeout_monitor s
