-- ===== src/Node/Address.antt =====
-- updateServiceDirectoryUrl: the address of the service directory from its url.
use gravity.Prelude.{◌%◌, ◌^◌, Bool, ◌||◌, Option, none, some, if◌then◌else◌, nat_eq}
use Prim.Native.Char.{Char, code}
use Prim.Native.String.{String}
use gravity.Prelude.Key.{◌==◌, string_key}
use gravity.Node.State.{Node, service_directory_url, send}
use gravity.Node.World.{World}

-- the two searches with find_first_of
abbrev pub is_colon : Char → Bool
is_colon c = nat_eq (code c) b':'

abbrev pub is_colon_or_slash : Char → Bool
is_colon_or_slash c = nat_eq (code c) b':' || nat_eq (code c) b'/'

-- the text before the first hit, and the text behind it
unfoldable pub before : (Char → Bool) → String → String
before p String.[] = ""
before p (String.◌∷◌ c s) = let rest = before p s in if p c then "" else String.◌∷◌ c rest

unfoldable pub behind : (Char → Bool) → String → Option String
behind p String.[] = none
behind p (String.◌∷◌ c s) = if p c then some s else behind p s

-- two more characters; none where substr throws
abbrev pub behind_two : String → Option String
behind_two (String.◌∷◌ c (String.◌∷◌ d s)) = some s
behind_two _ = none

pub record Address : Type 0 where
  pub transport : String
  pub host : String
  pub port : String

-- The host ends at the next colon. Without one the port is read from the whole url.
abbrev pub address : String → String → String → Address
address url transport rest = record {
  transport = transport;
  host = before is_colon rest;
  port = elim (behind is_colon rest) [ none ↦ url | some port ↦ port ];
}

abbrev pub address_behind : String → String → Option String → Option Address
address_behind url transport none = none
address_behind url transport (some rest) = some (address url transport rest)

unfoldable pub parse_url : String → Option Address
unfolding before behind
parse_url url = elim (behind is_colon_or_slash url) [
  | none ↦ some (address url "tcp" url)
  | some rest ↦ address_behind url (before is_colon_or_slash url) (behind_two rest)
]

-- a url without a host, or with a star for it, is of this machine
abbrev pub host_or_local : String → String
host_or_local host = if host == "" || host == "*" then "localhost" else host

module _ {W R : Type 0} (world : World W R) where
  abbrev pub quad_of : String → String
  quad_of host =
      if host == "localhost" || host == "0.0.0.0" then host else world.to_dotted_quad host

  abbrev pub set_address : String → Address → Node → Node
  set_address url a n = send (service_directory_url url) (
      send (service_directory_url url) (record n {
        service_directory_node = record {
          transport = a.transport;
          ip_address = quad_of (host_or_local a.host);
          port = world.string_to_int a.port 5555 % 2 ^ 16;
        };
      }))

  -- updateServiceDirectoryUrl, which tells the subscription manager and the request manager
  unfoldable pub update_service_directory_url : String → Node → Option Node
  unfolding parse_url
  update_service_directory_url url n = elim (parse_url url) [
    | none ↦ none
    | some a ↦ some (set_address url a n)
  ]
