-- ===== src/RequestManager/Timeouts.antt =====
-- The requests that have timed out, before the loop polls.
use gravity.Prelude.{
  ℕ, ◌-◌, ◌/◌, ◌&&◌, Bool, false, List, [], ◌∷◌, Option, none, some, nat_eq, ltb, leb,
  if◌then◌else◌,
}
use gravity.Prelude.Key.{nat_key}
use gravity.Prelude.Maps.{erase}
use gravity.RequestManager.State.{Details, Manager, timed_out, emit}

-- the loop that looks for the poll item: it ends at the first item or at no item, since it does not
-- go on to the next one; none is the loop that does not end
abbrev pub erase_poll_item : ℕ → List ℕ → Option (List ℕ)
erase_poll_item socket [] = some []
erase_poll_item socket (x ∷ xs) = if nat_eq socket x then some xs else none

-- the pass over the request map, and the time for the poll, none for -1
pub record Pass : Type 0 where
  pub manager : Manager
  pub next_timeout : Option ℕ

abbrev pub drop_request : ℕ → Details → Option (List ℕ) → Manager → Option Manager
drop_request socket d none s = none
drop_request socket d (some items) s =
    some (
      emit (timed_out d)
        (record s { poll_items = items; request_map = erase socket s.request_map }))

abbrev pub expire : ℕ → Details → Manager → Option Manager
expire socket d s = drop_request socket d (erase_poll_item socket s.poll_items) s

-- an absolute time is compared with what was left until another
abbrev pub sooner : ℕ → ℕ → Option ℕ → Option ℕ
sooner t now none = some (t - now)
sooner t now (some left) = if ltb t left then some (t - now) else some left

abbrev pub is_due : ℕ → Option ℕ → Bool
is_due now none = false
is_due now (some t) = ltb 0 t && leb t now

abbrev pub wait : ℕ → Option ℕ → Option ℕ → Option ℕ
wait now none left = left
wait now (some t) left = if ltb 0 t then sooner t now left else left

-- over the entries, where the clock shows an own time in microseconds at each
unfoldable pub expire_all : (ℕ → ℕ) → List (ℕ × Details) → Pass → Option Pass
unfolding emit
expire_all clock [] r = some r
expire_all clock ((socket, d) ∷ ds) r =
    let rest = expire_all clock ds in
    if is_due (clock socket / 1000) d.timeout_time_milliseconds
    then (elim (expire socket d r.manager) [
      | none ↦ none
      | some s ↦ rest (record r { manager = s })
    ])
    else rest (record r {
      next_timeout = wait (clock socket / 1000) d.timeout_time_milliseconds r.next_timeout;
    })

unfoldable pub expire_pass : (ℕ → ℕ) → Manager → Option Pass
unfolding expire_all
expire_pass clock s = expire_all clock s.request_map (record { manager = s; next_timeout = none })
