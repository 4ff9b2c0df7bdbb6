-- ===== src/SubscriptionManager/Leaving.antt =====
-- The last subscriber leaves.
use gravity.Prelude.{
  ℕ, ◌≡◌, refl, sym, ap, ◌∙◌, String, Bool, true, false, ◌||◌, ◌&&◌, Option, none, some, List, [],
  ◌∷◌, nat_eq, is_empty, if◌then◌else◌, arith, if_true, if_false, or_else, subst,
}
use gravity.Prelude.Key.{string_key, nat_key, beq_refl}
use gravity.Prelude.Maps.{Map, lookup, has, get_or, erase, lookup-erase, lookup-insert_key}
use gravity.PollItems.{is_polled, is_polled-without}
use gravity.Metrics
use gravity.SubscriptionManager.Trim.{Info}
use gravity.SubscriptionManager.State.{
  DomainDataKey, domain_data_key, Socket, Details, Manager, new_details, details_at, set_details,
}
use gravity.SubscriptionManager.Subscribing.{
  known_object, close_socket, close_sockets, remove_subscriber, remove_subscription, subscribe_url,
  subscribe_all,
}

-- Whether a socket is one of a map of urls.
abbrev pub is_socket_of : ℕ → Map String Socket → Bool
is_socket_of k [] = false
is_socket_of k ((url, none) ∷ m) = is_socket_of k m
is_socket_of k ((url, some j) ∷ m) = nat_eq j k || is_socket_of k m

close_sockets-polled :
    (m : Map String Socket) (k : ℕ) (s : Manager)
    → is_polled k (close_sockets m s).poll_items
      ≡ (if is_socket_of k m then false else is_polled k s.poll_items)
unfolding close_sockets
close_sockets-polled [] k s = refl
close_sockets-polled ((url, none) ∷ m) k s = close_sockets-polled m k s
close_sockets-polled ((url, some j) ∷ m) k s =
    ground (arith, close_sockets-polled m k (close_socket j s), is_polled-without k j s.poll_items)

close_sockets-known :
    (m : Map String Socket) (k : ℕ) (s : Manager)
    → has k (close_sockets m s).subscription_socket_map
      ≡ (if is_socket_of k m then false else has k s.subscription_socket_map)
unfolding close_sockets
close_sockets-known [] k s = refl
close_sockets-known ((url, none) ∷ m) k s = close_sockets-known m k s
close_sockets-known ((url, some j) ∷ m) k s =
    ground (
      arith,
      close_sockets-known m k (close_socket j s),
      lookup-erase j k s.subscription_socket_map,
    )

-- Closing sockets leaves the objects and the main map.
close_sockets-objects :
    (m : Map String Socket) (s : Manager)
    → ((close_sockets m s).objects ≡ s.objects)
      × ((close_sockets m s).subscription_map ≡ s.subscription_map)
unfolding close_sockets
close_sockets-objects [] s = (refl, refl)
close_sockets-objects ((url, none) ∷ m) s = close_sockets-objects m s
close_sockets-objects ((url, some j) ∷ m) s = close_sockets-objects m (close_socket j s)

-- Whether all publishers of a list are at urls of a map, if they have one.
abbrev pub has_url : Map String Socket → Option String → Bool
has_url m none = true
has_url m (some url) = has url m

abbrev pub has_urls : Map String Socket → List Info → Bool
has_urls m [] = true
has_urls m (i ∷ is) = has_url m i.url && has_urls m is

subscribe_url-has :
    (p : ℕ) (o : Option String) (time : ℕ) (s : Manager)
    → has_url (details_at p s).poll_item_map o ≡ true
    → subscribe_url p o time s ≡ s
subscribe_url-has p none time s h = refl
subscribe_url-has p (some url) time s h = if_true _ _ _ h

-- Publishers whose urls an object has are not subscribed to.
pub subscribe_all-has :
    (p : ℕ) (is : List Info) (s : Manager)
    → has_urls (details_at p s).poll_item_map is ≡ true
    → subscribe_all p is s ≡ s
unfolding subscribe_all
subscribe_all-has p [] s h = refl
subscribe_all-has p (i ∷ is) s h =
    let both : (has_url (details_at p s).poll_item_map i.url ≡ true)
        × (has_urls (details_at p s).poll_item_map is ≡ true) =
      ground (arith, h) in
    ap (subscribe_all p is) (subscribe_url-has p i.url i.registration_time s both.0)
    ∙ subscribe_all-has p is s both.1

-- the details without a subscriber
abbrev pub left_details : ℕ → Details → Details
left_details subscriber d = record d { subscribers = erase subscriber d.subscribers }

details_at-set_details : (p : ℕ) (d : Details) (s : Manager) → details_at p (set_details p d s) ≡ d
details_at-set_details p d s =
    ap (or_else (new_details (record { domain = ""; data_product_id = "" }) "" false none))
      (lookup-insert_key p p d s.objects (beq_refl p))

module _ (key : DomainDataKey) (filter : String) (subscriber p : ℕ) (s : Manager)
    (known : known_object key filter s ≡ some p)
    (last : is_empty (left_details subscriber (details_at p s)).subscribers ≡ true)
    (monitored : is_empty (details_at p s).monitors ≡ false) where
  m : Map String Socket
  m = (details_at p s).poll_item_map

  -- the state before the sockets are closed
  unmeasured : Manager
  unmeasured = record s { metrics_data = Metrics.remove key.data_product_id s.metrics_data }

  waiting : Manager
  waiting = set_details p (left_details subscriber (details_at p s)) unmeasured

  closes : remove_subscription key filter subscriber s ≡ close_sockets m waiting
  unfolding remove_subscription m waiting unmeasured
  closes =
      ap (λ o. remove_subscriber key filter subscriber o unmeasured) known
      ∙ if_true _ _ _ last
      ∙ ap (close_sockets m) (if_false _ _ _ monitored)

  details_kept : details_at p (close_sockets m waiting) ≡ left_details subscriber (details_at p s)
  unfolding waiting
  details_kept =
      ap (λ o. details_at p (record waiting { objects = o })) (close_sockets-objects m waiting).0
      ∙ details_at-set_details p (left_details subscriber (details_at p s)) unmeasured

  known_kept : known_object key filter (close_sockets m waiting) ≡ some p
  unfolding waiting unmeasured
  known_kept = ap (λ x. lookup filter (get_or [] key x)) (close_sockets-objects m waiting).1 ∙ known

  -- When the last subscriber leaves while a monitor is there, all sockets of the publishers are
  -- closed, but the details stay known, with the urls of those sockets: a later subscription at any
  -- of these urls opens no socket.
  pub subscribe_all-remove_subscription :
      (is : List Info) (k : ℕ)
      → has_urls (details_at p s).poll_item_map is ≡ true
      → is_socket_of k (details_at p s).poll_item_map ≡ true
      → let t = remove_subscription key filter subscriber s in
        (is_polled k t.poll_items ≡ false)
        × (has k t.subscription_socket_map ≡ false)
        × (known_object key filter t ≡ some p)
        × (subscribe_all p is t ≡ t)
  unfolding m
  subscribe_all-remove_subscription is k listed one =
      subst
        (λ t.
          (is_polled k t.poll_items ≡ false)
          × (has k t.subscription_socket_map ≡ false)
          × (known_object key filter t ≡ some p)
          × (subscribe_all p is t ≡ t))
        (sym closes)
        (
          close_sockets-polled m k waiting ∙ if_true _ _ _ one,
          close_sockets-known m k waiting ∙ if_true _ _ _ one,
          known_kept,
          subscribe_all-has p is (close_sockets m waiting)
              (ap (λ (d : Details). has_urls d.poll_item_map is) details_kept ∙ listed),
        )
