-- ===== src/ServiceManager/Tests.antt =====
-- Two services, of which one is unregistered.
use gravity.Prelude.{ℕ, ◌≡◌, String, Bool, true, not, List, [], ◌∷◌, Option, some, nat_eq, refl}
use gravity.Prelude.Key.{string_key, nat_key}
use gravity.DataProduct.{Product, new_product}
use gravity.Ports.{Url, tcp_url, other_url}
use gravity.ServiceManager.{Manager, Addition, Event, register, unregister, request_at, run, init}
use gravity.ServiceManager.Invariant.{Inv, run-init_total}

-- the provider puts its address before what it is given
abbrev provide : ℕ → String → Product → Option Product
provide server id q = some (record q { contents = server ∷ q.contents })

-- the port 4000 is taken
abbrev can_bind : Url → Bool
can_bind (tcp_url ip port) = not (nat_eq port 4000)
can_bind (other_url transport endpoint) = true

abbrev zoom : Addition
zoom = record {
  service_id = "Zoom";
  binding = record {
    transport_type = "tcp";
    min_port = 4000;
    max_port = 4002;
    endpoint = "camera";
  };
  registration_time = 5;
  server = 77;
}

abbrev focus : Addition
focus = record zoom {
  service_id = "Focus";
  binding = record zoom.binding { transport_type = "ipc" };
  server = 78;
}

abbrev question : Product
question = record (new_product "Level") { registration_time = 5; contents = 1 ∷ [] }

abbrev events : List Event
events =
    register can_bind zoom
    ∷ register can_bind focus
    ∷ request_at 0 question
    ∷ unregister "Zoom"
    ∷ request_at 0 question
    ∷ request_at 1 question
    ∷ []

run-init_total_example : (t : Manager) × (run provide "Camera" "Lab" events init ≡ some t) × Inv t
run-init_total_example = run-init_total provide "Camera" "Lab" (λ server id q. (_, refl)) events
