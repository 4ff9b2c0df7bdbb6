-- ===== src/Node/Reregister.antt =====
-- ServiceDirectoryReregister, and the listener that calls it when the directory has restarted.
use gravity.Prelude.{
  ℕ, zero, suc, String, Bool, true, false, List, [], ◌∷◌, ◌++◌, Option, none, some, if◌then◌else◌,
  nat_eq, ltb,
}
use gravity.Prelude.Key.{◌==◌, string_key}
use gravity.Prelude.Maps.{Map, get_or, touch}
use gravity.Directory.Messages.{Registration}
use gravity.Directory.Requests.{Request, registration_request}
use gravity.Node.State.{GravityReturnCode, success, is_success, SubscriptionDetails, Node}
use gravity.Node.World.{Answer, got, failed, World, ask_directory}
use gravity.Node.Publishers.{data_registration}
use gravity.Node.Services.{service_registration}
use gravity.Node.Subscriptions.{subscribe_internal}
use gravity.Node.Address.{update_service_directory_url}

-- the tries after the first
abbrev pub num_tries : ℕ
num_tries = 3

abbrev pub worst : {R : Type 0} → GravityReturnCode → Answer R → GravityReturnCode
worst c (got r) = c
worst c (failed d) = d

abbrev pub is_got : {R : Type 0} → Answer R → Bool
is_got (got r) = true
is_got (failed c) = false

abbrev pub with_cached_values : SubscriptionDetails → SubscriptionDetails
with_cached_values d = record d { receive_last_cached_value = true }

module _ {W R : Type 0} (world : World W R) where
  -- the loop of requests of one registration; the directory's own code is not looked at
  unfoldable pub ask_again : ℕ → Node → Request → Answer R × W → Answer R × W
  unfolding ask_directory
  ask_again zero n q a = a
  ask_again (suc k) n q a =
      let rest = ask_again k n q (ask_directory world n q a.1) in if is_got a.0 then a else rest

  -- the loop over publishMap or serviceMap, with what it registers by id, url and timestamp
  unfoldable pub reannounce :
      (String → String → ℕ → Registration)
      → Map String String
      → GravityReturnCode
      → Node
      → W
      → GravityReturnCode × Node × W
  unfolding ask_again ask_directory
  reannounce registration [] c n w = (c, n, w)
  reannounce registration ((id, url) ∷ m) c n w =
      let q = registration_request (registration id url (get_or 0 url n.url_instance_map)) in
      let t = record n { url_instance_map = touch 0 url n.url_instance_map } in
      let a = ask_again num_tries t q (ask_directory world t q w) in
      reannounce registration m (worst c a.0) t a.1

  unfoldable pub subscribe_again :
      ℕ → SubscriptionDetails → GravityReturnCode × Node × W → GravityReturnCode × Node × W
  unfolding subscribe_internal
  subscribe_again zero d r = r
  subscribe_again (suc k) d r =
      let rest = subscribe_again k d (subscribe_internal world d r.1 r.2) in
      if is_success r.0 then r else rest

  -- The loop over the copy of the subscription list: the code is not looked at, and the flag of
  -- cached values is the default.
  unfoldable pub resubscribe : List SubscriptionDetails → Node → W → Node × W
  unfolding subscribe_again subscribe_internal
  resubscribe [] n w = (n, w)
  resubscribe (d ∷ ds) n w =
      let e = with_cached_values d in
      let r = subscribe_again num_tries e (subscribe_internal world e n w) in resubscribe ds r.1 r.2

  unfoldable pub reannounce_products : String → Node → W → GravityReturnCode × Node × W
  unfolding reannounce
  reannounce_products component n w =
      reannounce (λ id url timestamp. data_registration id url timestamp none none component)
        n.publish_map success n w

  -- the part behind the products, which takes the lock of the service manager first
  unfoldable pub reannounce_services :
      String → GravityReturnCode × Node × W → Option GravityReturnCode × Node × W
  unfolding reannounce resubscribe
  reannounce_services component r =
      if r.1.service_manager_locked
      then (none, r.1, r.2)
      else let s =
          reannounce (λ id url timestamp. service_registration id url timestamp component)
            r.1.service_map r.0 r.1 r.2 in
        let t = resubscribe s.1.subscription_list s.1 s.2 in (some s.0, t.0, t.1)

  -- ServiceDirectoryReregister; none stands for an exception or a wait for a lock that stays taken
  unfoldable pub reregister : String → String → Node → W → Option GravityReturnCode × Node × W
  unfolding update_service_directory_url reannounce_products reannounce_services
  reregister component url n w = elim (update_service_directory_url world url n) [
    | none ↦ (none, n, w)
    | some m ↦ reannounce_services component (reannounce_products component m w)
  ]

-- ServiceDirectoryBroadcastPB, as far as the listener reads it
pub record Broadcast : Type 0 where
  pub domain : String
  pub url : String
  pub start_time : ℕ

-- what GravityNodeDomainListener does about a broadcast
pub data Action : Type 0 where
  connect : String → String → Action
  reregister_at : String → Action

-- the listener, with the start time of the directory that it heard last, or 0
pub record DomainListener : Type 0 where
  pub domain : String
  pub service_directory_start_time : ℕ
  pub actions : List Action

abbrev pub heed_start : Broadcast → DomainListener → DomainListener
heed_start b l =
    if ltb l.service_directory_start_time b.start_time
    then record l {
      service_directory_start_time = b.start_time;
      actions =
          if nat_eq l.service_directory_start_time 0
          then l.actions
          else l.actions ++ reregister_at b.url ∷ [];
    }
    else l

-- a round of the listener's loop with a message
unfoldable pub hear : Broadcast → DomainListener → DomainListener
hear b l =
    if l.domain == b.domain
    then heed_start b (record l { actions = l.actions ++ connect l.domain b.url ∷ [] })
    else l

unfoldable pub listen : List Broadcast → DomainListener → DomainListener
unfolding hear
listen [] l = l
listen (b ∷ bs) l = listen bs (hear b l)
