-- ===== src/SubscriptionManager/Forgetting.antt =====
-- A monitor for a new filter, and the subscriptions with other filters.
use gravity.Prelude.{
  ℕ, ◌≡◌, refl, ap, ◌∙◌, String, false, Option, none, some, [], if_true, if_false,
}
use gravity.Prelude.Key.{◌==◌, string_key, beq_refl}
use gravity.Prelude.Maps.{lookup, insert, get_or-insert, lookup-insert}
use gravity.Metrics
use gravity.SubscriptionManager.State.{domain_data_key, Manager}
use gravity.SubscriptionManager.Subscribing.{known_object, remove_subscriber, remove_subscription}
use gravity.SubscriptionManager.Monitors.{MonitorRequest, monitored_details, set_timeout_monitor}

known_object-set_timeout_monitor :
    (now : ℕ) (q : MonitorRequest) (g : String) (s : Manager)
    → known_object q.key q.filter s ≡ none
    → (q.filter == g) ≡ false
    → known_object q.key g (set_timeout_monitor now q s) ≡ none
unfolding set_timeout_monitor lookup
known_object-set_timeout_monitor now q g s unknown other =
    ap (λ o. known_object q.key g (monitored_details q o s).manager) unknown
    ∙ ap (lookup g) (
        get_or-insert [] q.key q.key (insert q.filter s.next_object []) s.subscription_map
        ∙ if_true _ _ _ (beq_refl q.key))
    ∙ lookup-insert q.filter g s.next_object []
    ∙ if_false _ _ _ other

monitored_outside :
    (q : MonitorRequest) (o : Option ℕ) (s : Manager)
    → let t = (monitored_details q o s).manager in
      (t.outputs ≡ s.outputs)
      × (t.poll_items ≡ s.poll_items)
      × (t.subscription_socket_map ≡ s.subscription_socket_map)
monitored_outside q none s = (refl, refl, refl)
monitored_outside q (some p) s = (refl, refl, refl)

-- After a monitor was set for a filter that has no subscription, the subscriptions of the same
-- domain and data product with other filters are not known any more: to unsubscribe from one of
-- them closes no socket, tells no one and leaves all that is polled.
pub remove_subscription-set_timeout_monitor :
    (now : ℕ) (q : MonitorRequest) (g : String) (subscriber : ℕ) (s : Manager)
    → known_object q.key q.filter s ≡ none
    → (q.filter == g) ≡ false
    → let t = set_timeout_monitor now q s in
      let u = remove_subscription q.key g subscriber t in
      (known_object q.key g t ≡ none)
      × (u.outputs ≡ s.outputs)
      × (u.poll_items ≡ s.poll_items)
      × (u.subscription_socket_map ≡ s.subscription_socket_map)
unfolding remove_subscription set_timeout_monitor
remove_subscription-set_timeout_monitor now q g subscriber s unknown other =
    let t = set_timeout_monitor now q s in
    let gone = known_object-set_timeout_monitor now q g s unknown other in
    let left : remove_subscription q.key g subscriber t ≡ _ =
      ap
        (λ o.
          remove_subscriber q.key g subscriber o
            (record t { metrics_data = Metrics.remove q.key.data_product_id t.metrics_data }))
        gone in
    let same = monitored_outside q (known_object q.key q.filter s) s in
    (
      gone,
      ap (λ (x : Manager). x.outputs) left ∙ same.0,
      ap (λ (x : Manager). x.poll_items) left ∙ same.1,
      ap (λ (x : Manager). x.subscription_socket_map) left ∙ same.2,
    )
