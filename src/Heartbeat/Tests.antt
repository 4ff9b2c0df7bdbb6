-- ===== src/Heartbeat/Tests.antt =====
-- A product that is registered twice, heard once and checked twice.
use gravity.Prelude.{ℕ, ◌≡◌, String, List, [], ◌∷◌}
use gravity.Prelude.Sorting.{IsSortedBy}
use gravity.Prelude.Counting.{tally}
use gravity.DataProduct.{new_product}
use gravity.Heartbeat.{init, Clock, register, unregister, Event, filled, checked, commanded, run}
use gravity.Heartbeat.Queue.{is_for, registrations, run-init-registrations}

-- the name before the suffix, of the one product here
abbrev camera_of : String → String
camera_of id = "Camera"

abbrev clock : ℕ → Clock
clock t = record { now = t; called = t; renewed = t }

abbrev events : List Event
events =
    commanded (register "Camera_GravityHeartbeat" 1 50 0)
    ∷ commanded (register "Camera_GravityHeartbeat" 2 70 0)
    ∷ filled (new_product "Camera_GravityHeartbeat" ∷ [])
    ∷ checked (clock 60)
    ∷ checked (clock 80)
    ∷ commanded (unregister "Lens_GravityHeartbeat")
    ∷ []

run-init-registrations_example :
    IsSortedBy (λ e. e.expected_time) (run camera_of events init).message_times
    × (tally (is_for "Camera_GravityHeartbeat") (run camera_of events init).message_times
        ≡ registrations "Camera_GravityHeartbeat" events 0)
run-init-registrations_example = run-init-registrations camera_of "Camera_GravityHeartbeat" events
