-- ===== src/Directory/Register.antt =====
-- handleRegister.
use gravity.Prelude.{
  ℕ, String, Bool, true, false, not, ◌&&◌, List, [], ◌∷◌, ◌++◌, if◌then◌else◌, ltb, nat_eq, Option,
  none, some, or_else,
}
use gravity.Prelude.Key.{◌==◌, string_key}
use gravity.Prelude.Maps.{lookup, get_or, insert}
use gravity.Directory.Messages.{
  Publisher, Registration, Response, directory_response, success, added, data_product, service,
}
use gravity.Directory.State.{
  Directory, registered_publishers_id, publishers_of, seconds, set_publishers, open_publishers,
  set_services,
}
use gravity.Directory.Locations.{update_product_locations}
use gravity.Directory.Publishers.{find_url, announce, purge_obsolete_publishers}

-- the domain that a request names, or our own
abbrev pub domain_or : Directory → Option String → String
domain_or s domain = or_else s.domain domain

-- whether the url has a newer registration
abbrev pub is_stale : ℕ → Option ℕ → Bool
is_stale timestamp none = false
is_stale timestamp (some known) = ltb timestamp known

-- the timestamp of a registration that is not ignored
unfoldable pub accepted : Registration → Directory → Option ℕ
accepted r s = elim r.timestamp [
  | none ↦ none
  | some timestamp ↦
      if is_stale timestamp (lookup r.url s.registration_instance_map) then none else some timestamp
]

-- a field that the registration gives replaces what the publisher had
abbrev pub given {ℓ} : {A : Type ℓ} → Option A → Option A → Option A
given none old = old
given (some a) old = some a

abbrev pub new_publisher : Registration → ℕ → Publisher
new_publisher r secs = record {
  url = r.url;
  is_relay = r.is_relay;
  component_id = r.component_id;
  ip_address = r.ip_address;
  registration_time = secs;
}

abbrev pub update_publisher : Registration → ℕ → Publisher → Publisher
update_publisher r secs p = record p {
  is_relay = given r.is_relay p.is_relay;
  component_id = given r.component_id p.component_id;
  ip_address = given r.ip_address p.ip_address;
  registration_time = secs;
}

-- write through the iterator that the search for the url left
unfoldable pub update_url : Registration → ℕ → List Publisher → List Publisher
update_url r secs [] = []
update_url r secs (p ∷ ps) =
    if p.url == r.url then update_publisher r secs p ∷ ps else p ∷ update_url r secs ps

abbrev pub put_publisher : Registration → ℕ → List Publisher → List Publisher
put_publisher r secs infos = elim (find_url r.url infos) [
  | none ↦ infos ++ new_publisher r secs ∷ []
  | some p ↦ update_url r secs infos
]

-- the same url at the same second
abbrev pub is_duplicate : Registration → ℕ → List Publisher → Bool
is_duplicate r secs infos = elim (find_url r.url infos) [
  | none ↦ false
  | some p ↦ nat_eq p.registration_time secs
]

unfoldable pub set_component : String → Option String → Directory → Directory
set_component url component s = record s {
  url_to_component_map = insert url (or_else "" component) s.url_to_component_map;
}

unfoldable pub set_instance : String → ℕ → Directory → Directory
set_instance url timestamp s = record s {
  registration_instance_map = insert url timestamp s.registration_instance_map;
}

-- the product by which publishers are announced is now registered with our node
unfoldable pub note_ready : String → Directory → Directory
note_ready id s = record s {
  registered_publishers_ready =
      if id == registered_publishers_id then true else s.registered_publishers_ready;
}

-- a new publisher, or a new time or detail of a known one
unfoldable pub store_publisher : Registration → String → ℕ → Directory → Directory
unfolding set_publishers set_component announce purge_obsolete_publishers update_product_locations
store_publisher r domain timestamp s =
    let infos = put_publisher r (seconds timestamp) (publishers_of s domain r.id) in
    let s1 = set_component r.url r.component_id (set_publishers domain r.id infos s) in
    let s2 = purge_obsolete_publishers r.id r.url (announce r.id domain s1) in
    if domain == s.domain && not (r.id == registered_publishers_id)
    then update_product_locations r.id r.url timestamp added data_product s2
    else s2

unfoldable pub repeat_publisher : Registration → String → ℕ → Directory → Directory
unfolding update_product_locations
repeat_publisher r domain timestamp s =
    if domain == s.domain
    then update_product_locations r.id r.url timestamp added data_product s
    else s

unfoldable pub register_data : Registration → String → ℕ → Directory → Directory
unfolding note_ready open_publishers set_instance store_publisher repeat_publisher
register_data r domain timestamp s =
    let s1 = set_instance r.url timestamp (open_publishers domain r.id (note_ready r.id s)) in
    if is_duplicate r (seconds timestamp) (publishers_of s domain r.id)
    then repeat_publisher r domain timestamp s1
    else store_publisher r domain timestamp s1

unfoldable pub register_service : Registration → String → ℕ → Directory → Directory
unfolding set_services set_component purge_obsolete_publishers set_instance update_product_locations
register_service r domain timestamp s =
    let s1 = set_services domain (insert r.id r.url (get_or [] domain s.service_map)) s in
    let s2 = purge_obsolete_publishers r.id r.url (set_component r.url r.component_id s1) in
    let s3 = set_instance r.url timestamp s2 in
    if domain == s.domain
    then update_product_locations r.id r.url timestamp added service s3
    else s3

unfoldable pub register_kind : Registration → String → ℕ → Directory → Directory
unfolding register_data register_service
register_kind r domain timestamp s = elim r.kind [
  | data_product ↦ register_data r domain timestamp s
  | service ↦ register_service r domain timestamp s
]

-- handleRegister: the answer is the same for a registration that is ignored or repeated
unfoldable pub handle_register : Registration → Directory → Response × Directory
unfolding register_kind
handle_register r s = (
  directory_response r.id success,
  elim (accepted r s) [
    | none ↦ s
    | some timestamp ↦ register_kind r (domain_or s r.domain) timestamp s
  ],
)
