-- ===== src/Directory/Invariant.antt =====
-- What holds of the directory between any two requests.
use gravity.Prelude.{
  ℕ, ◌≡◌, refl, sym, ◌∙◌, String, Bool, true, false, not, ◌&&◌, List, [], ◌∷◌, if◌then◌else◌,
  Option, none, some,
}
use gravity.Prelude.Key.{◌==◌, string_key}
use gravity.Prelude.Maps.{lookup}
use gravity.Directory.Messages.{
  Publisher, Registration, Unregistration, RegistrationType, data_product, service,
}
use gravity.Directory.State.{Directory, publishers_of, seconds}
use gravity.Directory.Register.{accepted, handle_register, domain_or, is_duplicate}
use gravity.Directory.Unregister.{handle_unregister, erase_registration}
use gravity.Directory.Requests.{
  Request, lookup_request, registration_request, unregistration_request, get_domain,
  unknown_request, Event, main_request, own_request, from_receiver, request, send_updates,
  process_pending, serve, step, run, init,
}
use gravity.Directory.View.{SameView, SameView-refl}
use gravity.Directory.ReadOnly.{
  handle_lookup-SameView, service_request-SameView, domain_command-SameView, send_updates-SameView,
}
use gravity.Directory.Distinct.{
  Distinct, put_publisher-Distinct, erase_url-Distinct, erase_registration-Distinct,
}
use gravity.Directory.Purged.{WellFormed}
use gravity.Directory.Registered.{
  publishers_of-handle_register, registered, registered_as, service_registered, data_registered,
  SamePublishers-WellFormed, SameView-SamePublishers,
}
use gravity.Directory.Unregistered.{publishers_of-handle_unregister, unregistered}
use gravity.Directory.Settled.{Settled, SameView-Settled, handle_register-Settled}
use gravity.Directory.SettledRemoval.{handle_unregister-Settled}

-- Publishers are announced as soon as they can be: the flags agree, and nothing waits.
pub record Prompt (s : Directory) : Type 0 where
  pub agreed : s.registered_publishers_processed ≡ s.registered_publishers_ready
  pub sent : s.registered_publishers_ready ≡ true → s.register_updates_to_send ≡ []

pub record Inv (s : Directory) : Type 0 where
  pub well_formed : WellFormed s
  pub prompt : Prompt s

SameView-WellFormed : {s t : Directory} → SameView s t → WellFormed s → WellFormed t
SameView-WellFormed v w = SamePublishers-WellFormed (SameView-SamePublishers v) w

pub SameView-Inv : {s t : Directory} → SameView s t → Inv s → Inv t
SameView-Inv v h = record {
  well_formed = SameView-WellFormed v h.well_formed;
  prompt = record {
    agreed = v.same_processed ∙ h.prompt.agreed ∙ sym v.same_ready;
    sent = λ r. let before = sym v.same_ready ∙ r in v.settled before ∙ h.prompt.sent before;
  };
}

if-Distinct :
    (c : Bool) (ps qs : List Publisher)
    → Distinct ps
    → Distinct qs
    → Distinct (if c then ps else qs)
if-Distinct true ps qs a b = a
if-Distinct false ps qs a b = b

module _ (r : Registration) (s : Directory) (w : WellFormed s) (d i : String) where
  service_registered-Distinct : Distinct (service_registered r s d i)
  service_registered-Distinct =
      if-Distinct ((s.domain == d) && not (i == r.id)) _ _
        (erase_url-Distinct r.url (publishers_of s d i) (w.distinct d i)) (w.distinct d i)

  data_registered-Distinct :
      (domain : String) (timestamp : ℕ) → Distinct (data_registered r domain timestamp s d i)
  data_registered-Distinct domain timestamp =
      let infos = publishers_of s domain r.id in
      if-Distinct (is_duplicate r (seconds timestamp) infos) _ _ (w.distinct d i) (
        if-Distinct ((domain == d) && (r.id == i)) _ _
          (put_publisher-Distinct r (seconds timestamp) infos (w.distinct domain r.id))
          service_registered-Distinct)

  registered-Distinct : Distinct (registered r s d i)
  registered-Distinct = go (accepted r s) r.kind
    where
      go : (a : Option ℕ) (k : RegistrationType) → Distinct (registered_as a k r s d i)
      go none k = w.distinct d i
      go (some timestamp) data_product = data_registered-Distinct (domain_or s r.domain) timestamp
      go (some timestamp) service = service_registered-Distinct

pub handle_register-WellFormed :
    (r : Registration) (s : Directory) → WellFormed s → WellFormed (handle_register r s).1
handle_register-WellFormed r s w = record {
  distinct = λ d i. rw (publishers_of-handle_register r s w d i) (registered-Distinct r s w d i);
}

unregistered-Distinct :
    (u : Unregistration) (s : Directory)
    → WellFormed s
    → (d i : String) → Distinct (unregistered u s d i)
unregistered-Distinct u s w d i = go u.kind
  where
    go :
        (k : RegistrationType)
        → Distinct (elim k [
          | data_product ↦
              if (domain_or s u.domain == d) && (u.id == i)
              then erase_registration u.url u.registration_time (publishers_of s d i)
              else publishers_of s d i
          | service ↦ publishers_of s d i
        ])
    go data_product =
        if-Distinct ((domain_or s u.domain == d) && (u.id == i)) _ _
          (erase_registration-Distinct u.url u.registration_time (publishers_of s d i)
            (w.distinct d i))
          (w.distinct d i)
    go service = w.distinct d i

handle_unregister-WellFormed :
    (u : Unregistration) (s : Directory) → WellFormed s → WellFormed (handle_unregister u s).1
handle_unregister-WellFormed u s w = record {
  distinct = λ d i. rw (publishers_of-handle_unregister u s d i) (unregistered-Distinct u s w d i);
}

-- The end of the round makes the flags agree again.
process_pending-Inv :
    (s t : Directory) → Inv s → Settled s t → WellFormed t → Inv (process_pending t)
unfolding process_pending
process_pending-Inv s t h v w =
    go t.registered_publishers_processed t.registered_publishers_ready refl refl
  where
    sends : SameView t (send_updates t.register_updates_to_send t)
    sends = send_updates-SameView t.register_updates_to_send t

    go :
        (p r : Bool)
        → t.registered_publishers_processed ≡ p
        → t.registered_publishers_ready ≡ r
        → Inv (
            if not p && r
            then record (send_updates t.register_updates_to_send t) {
              register_updates_to_send = [];
              registered_publishers_processed = true;
            }
            else t)
    go true r e f =
        let ready = sym h.prompt.agreed ∙ sym v.same_processed ∙ e in
        record {
          well_formed = w;
          prompt = record {
            agreed = e ∙ sym (v.kept_ready ready);
            sent = λ _. v.settled ready ∙ h.prompt.sent ready;
          };
        }
    go false true e f = record {
      well_formed = record { distinct = (SameView-WellFormed sends w).distinct };
      prompt = record { agreed = sym (sends.same_ready ∙ f); sent = λ _. refl };
    }
    go false false e f = record {
      well_formed = w;
      prompt = record { agreed = e ∙ sym f; sent = λ k. cc };
    }

request-Settled : (q : Request) (s : Directory) → Settled s (request q s).1
unfolding request
request-Settled (lookup_request q) s = SameView-Settled (handle_lookup-SameView q s)
request-Settled (registration_request r) s = handle_register-Settled r s
request-Settled (unregistration_request u) s = handle_unregister-Settled u s
request-Settled get_domain s = SameView-Settled (SameView-refl s)
request-Settled unknown_request s = SameView-Settled (SameView-refl s)

request-WellFormed : (q : Request) (s : Directory) → WellFormed s → WellFormed (request q s).1
unfolding request
request-WellFormed (lookup_request q) s w = SameView-WellFormed (handle_lookup-SameView q s) w
request-WellFormed (registration_request r) s w = handle_register-WellFormed r s w
request-WellFormed (unregistration_request u) s w = handle_unregister-WellFormed u s w
request-WellFormed get_domain s w = w
request-WellFormed unknown_request s w = w

serve-Inv : (q : Request) (s : Directory) → Inv s → Inv (serve q s).1
unfolding serve
serve-Inv q s h =
    process_pending-Inv s (request q s).1 h (request-Settled q s)
      (request-WellFormed q s h.well_formed)

step-Inv : (e : Event) (s : Directory) → Inv s → Inv (step e s)
unfolding step
step-Inv (main_request q) s h = serve-Inv q s h
step-Inv (own_request id q) s h = SameView-Inv (service_request-SameView id q s) h
step-Inv (from_receiver c) s h = SameView-Inv (domain_command-SameView c s) h

run-Inv : (es : List Event) (s : Directory) → Inv s → Inv (run es s)
unfolding run
run-Inv [] s h = h
run-Inv (e ∷ es) s h = run-Inv es (step e s) (step-Inv e s h)

pub init-Inv : (domain : String) → Inv (init domain)
unfolding lookup
init-Inv domain = record {
  well_formed = record { distinct = λ d i. tt };
  prompt = record { agreed = refl; sent = λ h. refl };
}

-- After any history from start(), every list of publishers names each url once; the two flags
-- agree; and once publishers can be announced no announcement waits.
pub run-init-Inv : (domain : String) (es : List Event) → Inv (run es (init domain))
run-init-Inv domain es = run-Inv es (init domain) (init-Inv domain)
