-- ===== src/RequestManager/Answers.antt =====
-- The answers of the services.
use gravity.Prelude.{
  ℕ, String, ◌+◌, ◌++◌, List, [], ◌∷◌, Option, none, some, nat_eq, ltb, if◌then◌else◌,
}
use gravity.Prelude.Key.{nat_key}
use gravity.Prelude.Maps.{lookup, insert, erase}
use gravity.DataProduct.{Product}
use gravity.RequestManager.State.{
  Details, Manager, request_filled, refused, Output, stale_entry, future_request, emit,
}

-- notifyServiceDirectoryOfStaleEntry
abbrev pub notify_service_directory_of_stale_entry : String → Details → Output
notify_service_directory_of_stale_entry directory_url d =
    stale_entry directory_url d.service_id d.url d.registration_time

-- what is done with an answer that is no placeholder
abbrev pub delivery : String → Details → Product → List Output
delivery directory_url d response =
    if nat_eq response.registration_time d.registration_time
    then request_filled d response ∷ []
    else refused d response
      ∷ (if ltb 0 response.registration_time
          then notify_service_directory_of_stale_entry directory_url d ∷ []
          else [])

abbrev pub deliver : Details → Product → Manager → Manager
deliver d response s = record s {
  outputs = s.outputs ++ delivery s.service_directory_url d response;
}

-- a placeholder's request goes on at a new socket
abbrev pub await : Details → Product → Manager → Manager
await d response s = emit (future_request response.future_socket_url) (record s {
  next_socket = s.next_socket + 1;
  request_map = insert s.next_socket d s.request_map;
})

-- the new poll item, too, that a placeholder needs
abbrev pub new_items : Product → Manager → List ℕ
new_items response s = if response.future_response then s.next_socket ∷ [] else []

abbrev pub close_request : ℕ → Manager → Manager
close_request socket s = record s { request_map = erase socket s.request_map }

abbrev pub receive_for : ℕ → Product → Option Details → Manager → Option Manager
receive_for socket response none s = none
receive_for socket response (some d) s = some (
    close_request socket
      (if response.future_response then await d response s else deliver d response s))

-- the answer on a socket; without its request a null pointer is followed, at once or, for a
-- placeholder, with the answer behind it
abbrev pub receive : ℕ → Product → Manager → Option Manager
receive socket response s = receive_for socket response (lookup socket s.request_map) s

-- the poll items that stay and the new ones, with the state
pub record Received : Type 0 where
  pub kept : List ℕ
  pub new : List ℕ
  pub manager : Manager

abbrev pub keep_item : ℕ → Option Received → Option Received
keep_item socket none = none
keep_item socket (some r) = some (record r { kept = socket ∷ r.kept })

abbrev pub add_items : List ℕ → Option Received → Option Received
add_items items none = none
add_items items (some r) = some (record r { new = items ++ r.new })

abbrev pub receive_rest : List ℕ → (Manager → Option Received) → Option Manager → Option Received
receive_rest items rest none = none
receive_rest items rest (some t) = add_items items (rest t)

-- a poll item, by the message at its socket, and what is done with those behind it
abbrev pub receive_item :
    ℕ → (Manager → Option Received) → Manager → Option Product → Option Received
receive_item socket rest s none = keep_item socket (rest s)
receive_item socket rest s (some response) =
    receive_rest (new_items response s) rest (receive socket response s)

-- the loop over the poll items
unfoldable pub receive_all : (ℕ → Option Product) → List ℕ → Manager → Option Received
unfolding emit
receive_all messages [] s = some (record { kept = []; new = []; manager = s })
receive_all messages (x ∷ xs) s = receive_item x (receive_all messages xs) s (messages x)

unfoldable pub receive_answers : (ℕ → Option Product) → Manager → Option Manager
unfolding receive_all
receive_answers messages s = elim (receive_all messages s.poll_items s) [
  | none ↦ none
  | some r ↦ some (record r.manager { poll_items = r.kept ++ r.new })
]
