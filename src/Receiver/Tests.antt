-- ===== src/Receiver/Tests.antt =====
-- A receiver that hears another domain four times and then no more.
use gravity.Prelude.{◌≡◌, List, [], ◌∷◌, some}
use gravity.Timeval.{Timeval}
use gravity.Receiver.{Broadcast, Receiver, Arrival, message, timed_out, rounds, init}
use gravity.Receiver.Rounds.{Inv, rounds-init}

abbrev beat : Broadcast
beat = record { domain = "Lab"; url = "tcp://lab:1"; rate = 10; start_time = 7 }

abbrev events : List (Arrival × Timeval)
events =
    (message beat, record { tv_sec = 100; tv_usec = 0 })
    ∷ (message beat, record { tv_sec = 110; tv_usec = 0 })
    ∷ (message beat, record { tv_sec = 120; tv_usec = 0 })
    ∷ (timed_out, record { tv_sec = 140; tv_usec = 0 })
    ∷ (timed_out, record { tv_sec = 150; tv_usec = 0 })
    ∷ (timed_out, record { tv_sec = 160; tv_usec = 0 })
    ∷ []

rounds-init_example :
    (t : Receiver) × (rounds events (init "Ours" "tcp://ours:1" ("*" ∷ [])) ≡ some t) × Inv t
rounds-init_example = rounds-init "Ours" "tcp://ours:1" ("*" ∷ []) events
