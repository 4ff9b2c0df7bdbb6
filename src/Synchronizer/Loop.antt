-- ===== src/Synchronizer/Loop.antt =====
-- The loop: what came, then at most one update is sent.
use gravity.Prelude.{ℕ, true, false, List, [], ◌∷◌, ◌++◌, Option, some, if◌then◌else◌}
use gravity.Prelude.Key.{string_key, nat_key}
use gravity.Directory.Requests.{Request, DomainCommand}
use gravity.Synchronizer.State.{Sync}
use gravity.Synchronizer.Commands.{command}
use gravity.Synchronizer.Remotes.{Remote, and_then, remotes}

-- send the next update, if the last one was answered
unfoldable pub send_next : List Request → Sync → Sync
send_next [] s = s
send_next (u ∷ us) s = if s.pending_response then s else record s {
  registration_updates = us;
  pending_response = true;
  requests = s.requests ++ u ∷ [];
}

unfoldable pub flush : Sync → Sync
unfolding send_next
flush s = send_next s.registration_updates s

-- the poll of the first two sockets; a command goes first
pub data Input : Type 0 where
  command_input : DomainCommand → Input
  own_response : Input
  no_input : Input

unfoldable pub take_input : Input → Sync → Option Sync
unfolding command
take_input (command_input c) s = command c s
take_input own_response s = some (record s { pending_response = false })
take_input no_input s = some s

-- one round of the loop
unfoldable pub round : Input → List (ℕ × Remote) → Sync → Option Sync
unfolding take_input remotes flush and_then
round i ms s = and_then (take_input i s) λ t. and_then (remotes ms t) λ u. some (flush u)

unfoldable pub run : List (Input × List (ℕ × Remote)) → Sync → Option Sync
unfolding round and_then
run [] s = some s
run ((i, ms) ∷ rest) s = and_then (round i ms s) (run rest)

abbrev pub init : Sync
init = record {
  objects = [];
  next_object = 0;
  next_socket = 0;
  sync_map = [];
  socket_map = [];
  poll_items = [];
  registration_updates = [];
  pending_response = false;
  lookups = [];
  requests = [];
}
