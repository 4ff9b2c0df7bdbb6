-- ===== src/Node/Restart.antt =====
-- What a restart of the service directory does to the subscriptions of a node.
use gravity.Prelude.{
  ℕ, ◌≡◌, refl, sym, ap, ◌∙◌, subst, String, true, false, not, List, [], ◌∷◌, ◌++◌, map, append_nil,
  append_last, Option, none, some, if_true, if_false, if◌then◌else◌,
}
use gravity.Prelude.Key.{◌==◌, string_key}
use gravity.Prelude.Maps.{Map}
use gravity.Directory.Messages.{Publisher, Registration}
use gravity.Directory.State.{registered_publishers_id}
use gravity.Node.State.{GravityReturnCode, success, is_success, SubscriptionDetails, Node}
use gravity.Node.World.{World}
use gravity.Node.Serving.{Serves, AllOwn, reannounce-Good, lookup-Good}
use gravity.Node.Subscriptions.{
  domain_of, tries, Publishers, listed, unknown, listed_by, try_again, product_publishers,
  find_updates, finish_subscription, subscribe_known, subscribe_internal,
}
use gravity.Node.Publishers.{data_registration}
use gravity.Node.Services.{service_registration}
use gravity.Node.Address.{Address, parse_url, set_address, update_service_directory_url}
use gravity.Node.Reregister.{
  with_cached_values, reannounce, subscribe_again, num_tries, resubscribe, reannounce_products,
  reannounce_services, reregister,
}

-- a subscription as it is made again
abbrev pub made_again : String → SubscriptionDetails → SubscriptionDetails
made_again ours d = record d {
  domain = if d.domain == "" then ours else d.domain;
  receive_last_cached_value = true;
}

-- What stays of a node while it subscribes and registers again.
pub record Keeps (n m : Node) : Type 0 where
  pub ready : m.initialized ≡ n.initialized
  pub ours : m.my_domain ≡ n.my_domain
  pub unlocked : m.service_manager_locked ≡ n.service_manager_locked
  pub services : m.service_map ≡ n.service_map

module _ {W R : Type 0} (world : World W R) where
  reannounce-Keeps :
      (f : String → String → ℕ → Registration) (m : Map String String) (c : GravityReturnCode)
      (n : Node) (w : W)
      → Keeps n (reannounce world f m c n w).1
        × ((reannounce world f m c n w).1.subscription_list ≡ n.subscription_list)
  unfolding reannounce
  reannounce-Keeps f [] c n w =
      (record { ready = refl; ours = refl; unlocked = refl; services = refl }, refl)
  reannounce-Keeps f ((id, url) ∷ m) c n w =
      let r = reannounce-Keeps f m _ _ _ in
      (
        record {
          ready = r.0.ready;
          ours = r.0.ours;
          unlocked = r.0.unlocked;
          services = r.0.services;
        },
        r.1,
      )

-- The products of these subscriptions are Wanted, in their domains.
abbrev pub AllWanted : (String → String → Type 0) → String → List SubscriptionDetails → Type 0
AllWanted Wanted ours [] = Unit {0}
AllWanted Wanted ours (d ∷ ds) =
    Wanted d.data_product_id (made_again ours d).domain × AllWanted Wanted ours ds

module _ {W R : Type 0} (world : World W R) (Good : W → Type 0) (Wanted : String → String → Type 0)
    (Own : Registration → Type 0) (up : Serves world Good Wanted Own) where
  -- what a lookup finds
  abbrev Finds : Publishers × W → Type 0
  Finds x =
      (p : Publisher) × (ps : List Publisher) × (x.0 ≡ listed (p ∷ ps))
      × (world.has_url p ≡ true)
      × Good x.1

  product_publishers-Finds :
      (id domain : String) (n : Node) (w : W)
      → Good w
      → Wanted id domain
      → Finds (product_publishers world id domain n w)
  unfolding product_publishers
  product_publishers-Finds id domain n w h wanted =
      let (r, p, ps, e, l, u, g) = lookup-Good world Good Wanted Own up n id domain w h wanted in
      (p, ps, ap (listed_by world) e ∙ ap listed l, u, g)

  find_updates-Finds :
      (n : Node) (w : W)
      → Good w
      → Wanted registered_publishers_id n.my_domain
      → Finds (find_updates world tries n w)
  unfolding find_updates
  find_updates-Finds n w h wanted =
      first (product_publishers world registered_publishers_id n.my_domain n w)
        (product_publishers-Finds registered_publishers_id n.my_domain n w h wanted)
    where
      first : (x : Publishers × W) → Finds x → Finds (try_again world (find_updates world 4 n) x)
      first (listed (q ∷ qs), w) f = f
      first (listed [], w) (p, ps, e, u, g) = absurd (cc)
      first (unknown c, w) (p, ps, e, u, g) = absurd (cc)

  -- how a subscription went
  abbrev Subscribed : SubscriptionDetails → Node → GravityReturnCode × Node × W → Type 0
  Subscribed d n r =
      (r.0 ≡ success)
      × (r.1.subscription_list ≡ n.subscription_list ++ d ∷ [])
      × Keeps n r.1
      × Good r.2

  finish-Subscribed :
      (d : SubscriptionDetails) (ps : List Publisher) (n : Node) (x : Publishers × W)
      → Finds x
      → Subscribed d n (finish_subscription world d ps n x)
  finish-Subscribed d ps n (listed (q ∷ rs), w) (p, qs, e, u, g) =
      let v : world.has_url q ≡ true = cc in
      subst (Subscribed d n) (sym (if_true (world.has_url q) _ _ v))
        (refl, refl, record { ready = refl; ours = refl; unlocked = refl; services = refl }, g)
  finish-Subscribed d ps n (listed [], w) (p, qs, e, u, g) = absurd (cc)
  finish-Subscribed d ps n (unknown c, w) (p, qs, e, u, g) = absurd (cc)

  known-Subscribed :
      (d : SubscriptionDetails) (n : Node) (x : Publishers × W)
      → Wanted registered_publishers_id n.my_domain
      → Finds x
      → Subscribed d n (subscribe_known world d n x)
  unfolding find_updates
  known-Subscribed d n (listed qs, w) wanted (p, ps, e, u, g) =
      finish-Subscribed d qs n (find_updates world tries n w) (find_updates-Finds n w g wanted)
  known-Subscribed d n (unknown c, w) wanted (p, ps, e, u, g) = absurd (cc)

  subscribe-Subscribed :
      (d : SubscriptionDetails) (n : Node) (w : W)
      → n.initialized ≡ true
      → Good w
      → Wanted registered_publishers_id n.my_domain
      → Wanted d.data_product_id (domain_of d.domain n)
      → Subscribed (record d { domain = domain_of d.domain n }) n (subscribe_internal world d n w)
  unfolding subscribe_internal
  subscribe-Subscribed d n w ready h updates wanted =
      let e = record d { domain = domain_of d.domain n } in
      subst (Subscribed e n) (sym (if_false (not n.initialized) _ _ (ap not ready))) (
        known-Subscribed e n (product_publishers world e.data_product_id e.domain n w) updates
          (product_publishers-Finds e.data_product_id e.domain n w h wanted))

  again-first :
      (d : SubscriptionDetails) (r : GravityReturnCode × Node × W)
      → r.0 ≡ success
      → subscribe_again world num_tries d r ≡ r
  unfolding subscribe_again
  again-first d r h = if_true (is_success r.0) _ _ (ap is_success h)

  resubscribe-list :
      (ds : List SubscriptionDetails) (n : Node) (w : W)
      → n.initialized ≡ true
      → Good w
      → Wanted registered_publishers_id n.my_domain
      → AllWanted Wanted n.my_domain ds
      → (resubscribe world ds n w).0.subscription_list
        ≡ n.subscription_list ++ map (made_again n.my_domain) ds
  unfolding resubscribe
  resubscribe-list [] n w ready h updates wanted = sym (append_nil n.subscription_list)
  resubscribe-list (d ∷ ds) n w ready h updates wanted =
      let e = with_cached_values d in
      let r = subscribe_internal world e n w in
      let s = subscribe-Subscribed e n w ready h updates wanted.0 in
      let same : r.1.my_domain ≡ n.my_domain = s.2.ours in
      ap (λ x. (resubscribe world ds x.1 x.2).0.subscription_list) (again-first e r s.0)
      ∙ resubscribe-list ds r.1 r.2 (s.2.ready ∙ ready) s.3
          (subst (Wanted registered_publishers_id) (sym same) updates)
          (subst (λ o. AllWanted Wanted o ds) (sym same) wanted.1)
      ∙ ap (λ o. r.1.subscription_list ++ map (made_again o) ds) same
      ∙ ap (λ l. l ++ map (made_again n.my_domain) ds) s.1
      ∙ append_last n.subscription_list (map (made_again n.my_domain) ds) (made_again n.my_domain d)

  services-list :
      (component : String) (r : GravityReturnCode × Node × W)
      → r.1.initialized ≡ true
      → r.1.service_manager_locked ≡ false
      → Good r.2
      → AllOwn Own (λ id url t. service_registration id url t component) r.1.service_map
      → Wanted registered_publishers_id r.1.my_domain
      → AllWanted Wanted r.1.my_domain r.1.subscription_list
      → (reannounce_services world component r).1.subscription_list
        ≡ r.1.subscription_list ++ map (made_again r.1.my_domain) r.1.subscription_list
  unfolding reannounce_services
  services-list component r ready free h own updates wanted =
      let f =
        λ (id url : String) (timestamp : ℕ). service_registration id url timestamp component in
      let s = reannounce world f r.1.service_map r.0 r.1 r.2 in
      let k = reannounce-Keeps world f r.1.service_map r.0 r.1 r.2 in
      let g = reannounce-Good world Good Wanted Own up f r.1.service_map r.0 r.1 r.2 own h in
      ap (λ (x : Option GravityReturnCode × Node × W). x.1.subscription_list)
        (if_false r.1.service_manager_locked _ _ free)
      ∙ resubscribe-list s.1.subscription_list s.1 s.2 (k.0.ready ∙ ready) g
          (subst (Wanted registered_publishers_id) (sym k.0.ours) updates)
          (subst (λ l. AllWanted Wanted s.1.my_domain l) (sym k.1)
            (subst (λ o. AllWanted Wanted o r.1.subscription_list) (sym k.0.ours) wanted))
      ∙ ap (λ l. l ++ map (made_again s.1.my_domain) l) k.1
      ∙ ap (λ o. r.1.subscription_list ++ map (made_again o) r.1.subscription_list) k.0.ours

  -- When a node that is initialized registers again, with the lock of the service manager free and
  -- an address that can be read, and its directory serves it, while the node's own registrations
  -- are made, with a publisher for each subscription and one of publisher updates: the list of its
  -- subscriptions keeps all it had and gets each of them once more, with the node's domain for none
  -- and the flag of cached values set whatever the first one asked for.
  pub reregister-subscription_list :
      (component url : String) (a : Address) (n : Node) (w : W)
      → parse_url url ≡ some a
      → n.initialized ≡ true
      → n.service_manager_locked ≡ false
      → Good w
      → AllOwn Own (λ id u t. data_registration id u t none none component) n.publish_map
      → AllOwn Own (λ id u t. service_registration id u t component) n.service_map
      → Wanted registered_publishers_id n.my_domain
      → AllWanted Wanted n.my_domain n.subscription_list
      → (reregister world component url n w).1.subscription_list
        ≡ n.subscription_list ++ map (made_again n.my_domain) n.subscription_list
  unfolding reregister update_service_directory_url reannounce_products
  reregister-subscription_list component url a n w parsed ready free h own_products own_services
        updates wanted =
      let m = set_address world url a n in
      let f =
        λ (id u : String) (timestamp : ℕ). data_registration id u timestamp none none component in
      let r = reannounce world f m.publish_map success m w in
      let k = reannounce-Keeps world f m.publish_map success m w in
      let g = reannounce-Good world Good Wanted Own up f m.publish_map success m w own_products h in
      ap
        (λ o.
          (again (elim o [
            | none ↦ none
            | some x ↦ some (set_address world url x n)
          ])).1.subscription_list)
        parsed
      ∙ services-list component r (k.0.ready ∙ ready) (k.0.unlocked ∙ free) g
          (subst (AllOwn Own (λ id u t. service_registration id u t component)) (sym k.0.services)
            own_services)
          (subst (Wanted registered_publishers_id) (sym k.0.ours) updates)
          (subst (λ l. AllWanted Wanted r.1.my_domain l) (sym k.1)
            (subst (λ o. AllWanted Wanted o n.subscription_list) (sym k.0.ours) wanted))
      ∙ ap (λ l. l ++ map (made_again r.1.my_domain) l) k.1
      ∙ ap (λ o. n.subscription_list ++ map (made_again o) n.subscription_list) k.0.ours
    where
      again : Option Node → Option GravityReturnCode × Node × W
      again o = elim o [
        | none ↦ (none, n, w)
        | some m ↦ reannounce_services world component (reannounce_products world component m w)
      ]
