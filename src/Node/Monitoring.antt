-- ===== src/Node/Monitoring.antt =====
-- Monitors that are set and cleared without a domain, up to the subscription manager.
use gravity.Prelude.{
  ℕ, ◌≡◌, ◌≢◌, refl, sym, subst, ap, ◌∙◌, String, true, false, not, List, [], ◌∷◌, ◌++◌, Option,
  none, some, if_false, arith,
}
use gravity.Prelude.Key.{◌==◌, string_key}
use gravity.Prelude.Maps.{lookup, insert, get_or-insert}
use gravity.Node.State.{
  GravityReturnCode, success, send, Node, Message, set_monitor_message, clear_monitor_message,
}
use gravity.Node.Subscriptions.{
  set_subscription_timeout_monitor, clear_subscription_timeout_monitor,
}
use gravity.SubscriptionManager.State.{DomainDataKey, domain_data_key, Manager, wait}
use gravity.SubscriptionManager.Monitors.{
  MonitorRequest, monitored_details, clear_monitor, set_timeout_monitor, clear_timeout_monitor,
}
use gravity.SubscriptionManager.Subscribing.{known_object}

abbrev pub monitor_request : String → ℕ → ℕ → String → String → MonitorRequest
monitor_request id monitor timeout filter domain = record {
  key = record { domain = domain; data_product_id = id };
  monitor = monitor;
  timeout = wait timeout;
  filter = filter;
}

-- what the subscription manager makes of the messages about monitors
abbrev pub deliver : ℕ → Message → Manager → Manager
deliver now (set_monitor_message id monitor timeout filter domain) s =
    set_timeout_monitor now (monitor_request id monitor timeout filter domain) s
deliver now (clear_monitor_message id monitor filter domain) s =
    clear_timeout_monitor (record { domain = domain; data_product_id = id }) filter monitor s
deliver now _ s = s

unfoldable pub deliver_all : ℕ → List Message → Manager → Manager
deliver_all now [] s = s
deliver_all now (m ∷ ms) s = deliver_all now ms (deliver now m s)

deliver_all-append :
    (now : ℕ) (ms ks : List Message) (s : Manager)
    → deliver_all now (ms ++ ks) s ≡ deliver_all now ks (deliver_all now ms s)
unfolding deliver_all
deliver_all-append now [] ks s = refl
deliver_all-append now (m ∷ ms) ks s = deliver_all-append now ms ks (deliver now m s)

known_object-monitored :
    (q : MonitorRequest) (o : Option ℕ) (key : DomainDataKey) (f : String) (s : Manager)
    → (q.key == key) ≡ false
    → known_object key f (monitored_details q o s).manager ≡ known_object key f s
unfolding lookup
known_object-monitored q none key f s apart = ap (lookup f) (
    get_or-insert [] q.key key (insert q.filter s.next_object []) s.subscription_map
    ∙ if_false _ _ _ apart)
known_object-monitored q (some p) key f s apart = refl

clear_unknown :
    (key : DomainDataKey) (f : String) (monitor : ℕ) (s : Manager)
    → known_object key f s ≡ none
    → clear_timeout_monitor key f monitor s ≡ s
unfolding clear_timeout_monitor
clear_unknown key f monitor s e = ap (λ o. clear_monitor key f monitor o s) e

deliver_all-one :
    (now : ℕ) (ms : List Message) (m : Message) (s : Manager)
    → deliver_all now (ms ++ m ∷ []) s ≡ deliver now m (deliver_all now ms s)
unfolding deliver_all
deliver_all-one now ms m s = deliver_all-append now ms (m ∷ []) s

known_object-set :
    (now : ℕ) (q : MonitorRequest) (key : DomainDataKey) (f : String) (s : Manager)
    → (q.key == key) ≡ false
    → known_object key f (set_timeout_monitor now q s) ≡ known_object key f s
unfolding set_timeout_monitor
known_object-set now q key f s apart =
    known_object-monitored q (known_object q.key q.filter s) key f s apart

clear_sent :
    (id : String) (monitor : ℕ) (filter : String) (n : Node)
    → n.initialized ≡ true
    → clear_subscription_timeout_monitor id monitor filter "" n
      ≡ (success, send (clear_monitor_message id monitor filter "") n)
unfolding clear_subscription_timeout_monitor
clear_sent id monitor filter n ready = if_false _ _ _ (ap not ready)

-- In a domain with a name, a monitor that is set and then cleared, both without a domain, stays:
-- both calls succeed, and the subscription manager, where nothing of the product is in a domain
-- without a name, has after the second message what it had after the first one.
pub clear-set_subscription_timeout_monitor :
    (now monitor timeout : ℕ) (id filter : String) (n : Node) (s : Manager)
    → n.initialized ≡ true
    → (n.my_domain == "") ≡ false
    → timeout ≢ 0
    → known_object (record { domain = ""; data_product_id = id }) filter (deliver_all now n.sent s)
      ≡ none
    → let a = set_subscription_timeout_monitor id monitor timeout filter "" n in
      let b = clear_subscription_timeout_monitor id monitor filter "" a.1 in
      (a.0 ≡ success)
      × (b.0 ≡ success)
      × (deliver_all now b.1.sent s ≡ deliver_all now a.1.sent s)
      × (deliver_all now a.1.sent s
          ≡ set_timeout_monitor now
              (monitor_request id monitor timeout filter n.my_domain)
              (deliver_all now n.sent s))
unfolding set_subscription_timeout_monitor clear_subscription_timeout_monitor
clear-set_subscription_timeout_monitor now monitor timeout id filter n s ready named positive
      unknown =
    let q = set_monitor_message id monitor timeout filter n.my_domain in
    let m = send q n in
    let t = deliver_all now n.sent s in
    let first : set_subscription_timeout_monitor id monitor timeout filter "" n ≡ (success, m) =
      ground (arith, ready, positive) in
    let made : deliver_all now m.sent s
        ≡ set_timeout_monitor now (monitor_request id monitor timeout filter n.my_domain) t =
      deliver_all-one now n.sent q s in
    let second = clear_sent id monitor filter m ready in
    let gone =
      ap (known_object (record { domain = ""; data_product_id = id }) filter) made
      ∙ known_object-set now (monitor_request id monitor timeout filter n.my_domain)
          (record { domain = ""; data_product_id = id }) filter t (ground (arith, named))
      ∙ unknown in
    subst
      (λ (a : GravityReturnCode × Node).
        let b = clear_subscription_timeout_monitor id monitor filter "" a.1 in
        (a.0 ≡ success)
        × (b.0 ≡ success)
        × (deliver_all now b.1.sent s ≡ deliver_all now a.1.sent s)
        × (deliver_all now a.1.sent s
            ≡ set_timeout_monitor now (monitor_request id monitor timeout filter n.my_domain) t))
      (sym first)
      (
        refl,
        ap (λ (b : GravityReturnCode × Node). b.0) second,
        ap (λ (b : GravityReturnCode × Node). deliver_all now b.1.sent s) second
            ∙ deliver_all-one now m.sent (clear_monitor_message id monitor filter "") s
            ∙ clear_unknown (record { domain = ""; data_product_id = id }) filter monitor
                (deliver_all now m.sent s) gone,
        made,
      )
