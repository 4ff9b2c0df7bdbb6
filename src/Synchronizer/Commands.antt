-- ===== src/Synchronizer/Commands.antt =====
-- The commands from the directory: Add, Update and Remove.
use gravity.Prelude.{
  ℕ, ◌+◌, String, false, List, [], ◌∷◌, ◌++◌, Option, none, some, nat_eq, if◌then◌else◌,
}
use gravity.Prelude.Key.{string_key, nat_key}
use gravity.Prelude.Maps.{lookup, has, insert, erase}
use gravity.PollItems.{without}
use gravity.Directory.Requests.{DomainCommand, add, update, remove}
use gravity.Synchronizer.State.{Details, Sync, empty_map, push, domain_removals}

abbrev pub replace_first : ℕ → ℕ → List ℕ → List ℕ
replace_first old new [] = []
replace_first old new (x ∷ xs) = if nat_eq x old then new ∷ xs else x ∷ replace_first old new xs

-- the object that syncMap has for the domain; a missing one is a null pointer
abbrev pub details_of : String → Sync → Option (ℕ × Details)
details_of domain s = elim (lookup domain s.sync_map) [
  | none ↦ none
  | some p ↦ (elim (lookup p s.objects) [ none ↦ none | some details ↦ some (p, details) ])
]

-- a new request socket to a directory, polled, with a lookup of its domain's details sent on it
unfoldable pub ask : ℕ → Details → String → Sync → Sync
ask p details domain s = record s {
  objects = insert p (record details { socket = s.next_socket }) s.objects;
  next_socket = s.next_socket + 1;
  sync_map = insert domain p s.sync_map;
  poll_items = s.poll_items ++ s.next_socket ∷ [];
  lookups = s.lookups ++ (s.next_socket, domain) ∷ [];
}

abbrev pub new_details : String → String → Details
new_details domain ip = record {
  domain = domain;
  ip_address = ip;
  socket = 0;
  initialized = false;
  provider_map = empty_map;
  registration_time = 0;
}

unfoldable pub restart : String → String → Option (ℕ × Details) → Sync → Option Sync
unfolding ask
restart domain ip none s = none
restart domain ip (some (p, details)) s = some (
    ask p (record details { domain = domain; ip_address = ip; initialized = false }) domain
      (record s {
        poll_items = without details.socket s.poll_items;
        socket_map = erase details.socket s.socket_map;
      }))

unfoldable pub discard : String → Option (ℕ × Details) → Sync → Option Sync
unfolding push domain_removals
discard domain none s = none
discard domain (some (p, details)) s = some (
    push (domain_removals domain details) (record s {
      poll_items = without details.socket s.poll_items;
      sync_map = erase domain s.sync_map;
      socket_map = erase details.socket s.socket_map;
    }))

-- the commands from the directory; none stands for a null pointer that is followed
unfoldable pub command : DomainCommand → Sync → Option Sync
unfolding ask restart discard
command (add domain ip) s =
    if has domain s.sync_map
    then some s
    else some (
        ask s.next_object (new_details domain ip) domain
          (record s { next_object = s.next_object + 1 }))
command (update domain ip) s = restart domain ip (details_of domain s) s
command (remove domain) s =
    if has domain s.sync_map then discard domain (details_of domain s) s else some s
