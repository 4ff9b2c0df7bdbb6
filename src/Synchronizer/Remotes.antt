-- ===== src/Synchronizer/Remotes.antt =====
-- The messages of other directories: answers to lookups, and provider maps.
use gravity.Prelude.{
  ℕ, ◌+◌, String, Bool, true, false, not, ◌&&◌, List, [], ◌∷◌, ◌++◌, Option, none, some, nat_eq,
  if◌then◌else◌,
}
use gravity.Prelude.Key.{string_key, nat_key}
use gravity.Prelude.Maps.{lookup, insert, erase}
use gravity.Directory.Messages.{Publisher, DataLookupResponse, ProviderMap}
use gravity.Directory.Requests.{Request}
use gravity.Synchronizer.State.{Details, Sync, change_of, push, initial_updates, incremental_update}
use gravity.Synchronizer.Commands.{replace_first, details_of}

-- a message of another directory: whether it has any bytes, the registration time and the domain
-- of its data product, and what it carries
pub data Content : Type 0 where
  lookup_answer : DataLookupResponse → Content
  details_update : ProviderMap → Content
  other_content : Content

pub record Remote : Type 0 where
  pub has_bytes : Bool
  pub registration_time : ℕ
  pub domain : String
  pub content : Content

-- the socket's object expects messages of another registration
abbrev pub is_foreign : ℕ → Remote → Sync → Bool
is_foreign socket m s = m.has_bytes && (elim (lookup socket s.socket_map) [
  | none ↦ false
  | some p ↦ (elim (lookup p s.objects) [
    | none ↦ false
    | some details ↦ not (nat_eq details.registration_time m.registration_time)
  ])
])

-- a lookup was answered: subscribe to the publisher, in place of the request socket
unfoldable pub subscribe : ℕ → ℕ → Option (ℕ × Details) → Sync → Option Sync
subscribe socket time none s = none
subscribe socket time (some (p, details)) s = some (record s {
  objects =
      insert p
        (record details { socket = s.next_socket; initialized = false; registration_time = time })
        s.objects;
  next_socket = s.next_socket + 1;
  socket_map = insert s.next_socket p (erase details.socket s.socket_map);
  poll_items = replace_first socket s.next_socket s.poll_items;
})

-- with no publisher, ask again; else take the first
unfoldable pub answer : ℕ → String → String → List Publisher → Sync → Option Sync
unfolding subscribe
answer socket domain of_domain [] s =
    some (record s { lookups = s.lookups ++ (socket, domain) ∷ [] })
answer socket domain of_domain (publisher ∷ _) s =
    subscribe socket publisher.registration_time (details_of of_domain s) s

-- what a new map has the synchronizer register: all of it the first time, then the changes
unfoldable pub updates_of : Bool → ProviderMap → Option (List Request)
unfolding initial_updates incremental_update
updates_of true m = some (incremental_update m.domain (change_of m) ∷ [])
updates_of false m = initial_updates m.domain m

unfoldable pub store_map : ProviderMap → ℕ → Details → Option (List Request) → Sync → Option Sync
unfolding push
store_map m p details none s = none
store_map m p details (some us) s = some (
    push us (record s {
      objects = insert p (record details { provider_map = m; initialized = true }) s.objects;
    }))

unfoldable pub new_map : ProviderMap → Option (ℕ × Details) → Sync → Option Sync
unfolding updates_of store_map
new_map m none s = none
new_map m (some (p, details)) s = store_map m p details (updates_of details.initialized m) s

unfoldable pub receive : ℕ → String → Content → Sync → Option Sync
unfolding answer new_map
receive socket domain (lookup_answer r) s = answer socket domain r.domain_id r.publishers s
receive socket domain (details_update m) s = new_map m (details_of m.domain s) s
receive socket domain other_content s = some s

unfoldable pub remote : ℕ → Remote → Sync → Option Sync
unfolding receive
remote socket m s = if is_foreign socket m s then some s else receive socket m.domain m.content s

unfoldable pub and_then : Option Sync → (Sync → Option Sync) → Option Sync
and_then none f = none
and_then (some s) f = f s

unfoldable pub remotes : List (ℕ × Remote) → Sync → Option Sync
unfolding remote and_then
remotes [] s = some s
remotes ((socket, m) ∷ rest) s = and_then (remote socket m s) (remotes rest)
