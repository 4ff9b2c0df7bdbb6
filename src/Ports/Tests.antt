-- ===== src/Ports/Tests.antt =====
-- A range of ports of which the first is taken.
use gravity.Prelude.{Bool, true, not, nat_eq}
use gravity.Ports.{Url, tcp_url, other_url, bind_first_available_port}
use gravity.Ports.First.{IsFirst, bind_first_available_port-IsFirst}

abbrev can_bind : Url → Bool
can_bind (tcp_url ip port) = not (nat_eq port 4000)
can_bind (other_url transport endpoint) = true

bind_first_available_port-IsFirst_example :
    IsFirst can_bind "camera" 4000 4003 (bind_first_available_port can_bind "camera" 4000 4002)
bind_first_available_port-IsFirst_example =
    bind_first_available_port-IsFirst can_bind "camera" 4000 4002
