-- ===== src/SubscriptionManager/Updates.antt =====
-- The publisher lists of the service directory, and the sockets that are to be deleted.
use gravity.Prelude.{
  ℕ, String, Bool, false, not, is_some, ◌||◌, List, [], ◌∷◌, ◌++◌, none, some, or_else, nat_eq,
  if◌then◌else◌,
}
use gravity.Prelude.Key.{◌==◌, string_key, nat_key}
use gravity.Prelude.Maps.{Map, has, get_or, insert, erase, touch}
use gravity.PollItems.{without}
use gravity.SubscriptionManager.Trim.{Info, trim_publishers}
use gravity.SubscriptionManager.State.{
  DomainDataKey, domain_data_key, Socket, Details, closed, Manager, details_at, set_details, emit,
}
use gravity.SubscriptionManager.Subscribing.{open_publisher}

-- the state and the delete list, of objects and sockets
pub record Listed : Type 0 where
  pub manager : Manager
  pub delete_list : List (ℕ × Socket)

-- the registration time that is known at the socket of a url, 0 for a socket without one
abbrev pub time_at : Socket → Manager → ℕ
time_at none s = 0
time_at (some socket) s = get_or 0 socket s.socket_verification_map

abbrev pub is_outdated : Socket → ℕ → Manager → Bool
is_outdated o time s = not (nat_eq (time_at o s) time)

abbrev pub verify : Socket → ℕ → Manager → Manager
verify none time s = s
verify (some socket) time s = record s {
  socket_verification_map = insert socket time s.socket_verification_map;
}

-- a publisher of the list: a url that is new, or has a new time, gets a new socket; what was at the
-- url, the null socket of a new url too, goes on the delete list when its time differs
abbrev pub update_url : ℕ → String → ℕ → Listed → Listed
update_url p url time l =
    let m = (details_at p l.manager).poll_item_map in
    let o = get_or none url m in
    let t = open_publisher p url time l.manager in
    if is_outdated o time l.manager
    then record { manager = t; delete_list = l.delete_list ++ (p, o) ∷ [] }
    else if has url m
    then record l { manager = verify o time l.manager }
    else record l { manager = t }

abbrev pub url_of : Info → String
url_of i = or_else "" i.url

unfoldable pub update_all : ℕ → List Info → Listed → Listed
unfolding open_publisher
update_all p [] l = l
update_all p (i ∷ is) l = update_all p is (update_url p (url_of i) i.registration_time l)

abbrev pub is_listed : String → List Info → Bool
is_listed url [] = false
is_listed url (i ∷ is) = url_of i == url || is_listed url is

-- the urls that have disappeared from the list
abbrev pub gone : ℕ → List Info → Map String Socket → List (ℕ × Socket)
gone p is [] = []
gone p is ((url, o) ∷ m) =
    let rest = gone p is m in if is_listed url is then rest else (p, o) ∷ rest

abbrev pub update_object : ℕ → List Info → Listed → Listed
update_object p is l =
    let t = update_all p is l in
    record t { delete_list = t.delete_list ++ gone p is (details_at p t.manager).poll_item_map }

unfoldable pub update_filters : Map String ℕ → List Info → Listed → Listed
unfolding update_all
update_filters [] is l = l
update_filters ((filter, p) ∷ fs) is l = update_filters fs is (update_object p is l)

-- an update for a domain and data product
unfoldable pub update_publishers : DomainDataKey → List Info → Listed → Listed
unfolding update_filters
update_publishers key publishers l =
    update_filters (get_or [] key l.manager.subscription_map)
      (trim_publishers l.manager.component_id l.manager.ip_address publishers) l

-- the url of a socket that was not replaced since; reading its entry makes a missing one
abbrev pub is_socket : ℕ → Socket → Bool
is_socket socket none = false
is_socket socket (some k) = nat_eq k socket

abbrev pub drop_url : String → ℕ → Map String Socket → Map String Socket
drop_url url socket m =
    if is_socket socket (get_or none url m) then erase url m else touch none url m

abbrev pub drop_socket : ℕ → Details → Details
drop_socket socket d = record d {
  poll_item_map = drop_url (get_or "" socket d.socket_to_url_map) socket d.poll_item_map;
  socket_to_url_map = erase socket d.socket_to_url_map;
}

-- the null socket has the empty url, whose entry is null again
abbrev pub drop_null : Details → Details
drop_null d = record d {
  poll_item_map =
      if is_some (get_or none "" d.poll_item_map)
      then d.poll_item_map
      else erase "" d.poll_item_map;
}

-- a socket of the delete list
abbrev pub delete_socket : ℕ → Socket → Manager → Manager
delete_socket p none s = set_details p (drop_null (details_at p s)) s
delete_socket p (some socket) s = emit (closed socket) (
    set_details p (drop_socket socket (details_at p s)) (record s {
      subscription_socket_map = erase socket s.subscription_socket_map;
      socket_verification_map = erase socket s.socket_verification_map;
      last_cached_value_map = erase socket s.last_cached_value_map;
      poll_items = without socket s.poll_items;
    }))

unfoldable pub delete_all : List (ℕ × Socket) → Manager → Manager
delete_all [] s = s
delete_all ((p, o) ∷ ds) s = delete_all ds (delete_socket p o s)
