-- ===== src/Ports.antt =====
-- Where a socket is bound: bindFirstAvailablePort (src/api/cpp/CommUtil.cpp), and the binding that
-- the managers of services and of publishers do with it.
pub mod First
mod Tests
use gravity.Prelude.{
  ℕ, zero, suc, ◌+◌, ◌-◌, String, Bool, true, false, Option, none, some, if◌then◌else◌,
}
use gravity.Prelude.Key.{◌==◌, string_key}

-- a connection url, before it is written as a text
pub data Url : Type 0 where
  tcp_url : String → ℕ → Url
  other_url : String → String → Url

-- bindFirstAvailablePort, over a number of ports from the first; which urls can be bound is up to
-- the system
unfoldable pub bind_from : (Url → Bool) → String → ℕ → ℕ → Option ℕ
bind_from can_bind ip zero port = none
bind_from can_bind ip (suc n) port =
    let rest = bind_from can_bind ip n (port + 1) in
    if can_bind (tcp_url ip port) then some port else rest

unfoldable pub bind_first_available_port : (Url → Bool) → String → ℕ → ℕ → Option ℕ
unfolding bind_from
bind_first_available_port can_bind ip min_port max_port =
    bind_from can_bind ip (max_port + 1 - min_port) min_port

-- what a registration asks for; the ports are read only for tcp
pub record Endpoint : Type 0 where
  pub transport_type : String
  pub min_port : ℕ
  pub max_port : ℕ
  pub endpoint : String

-- the url that the new socket is bound to, if there is one
unfoldable pub bound_url : (Url → Bool) → Endpoint → Option Url
unfolding bind_first_available_port
bound_url can_bind e =
    if e.transport_type == "tcp"
    then (elim (bind_first_available_port can_bind e.endpoint e.min_port e.max_port) [
      | none ↦ none
      | some port ↦ some (tcp_url e.endpoint port)
    ])
    else (let url = other_url e.transport_type e.endpoint in
        if can_bind url then some url else none)
