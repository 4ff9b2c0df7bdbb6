-- ===== src/Node/Delivery.antt =====
-- A registration on its way to the service directory, over requests and answers that may be lost.
use gravity.Prelude.{
  ℕ, zero, suc, ◌≡◌, refl, sym, ap, ◌∙◌, subst, String, Bool, true, not, ◌&&◌, ◌⊎◌, inl, inr,
  Option, none, some, if_cases, arith,
}
use gravity.Prelude.Key.{string_key}
use gravity.Directory.Messages.{Publisher, Registration}
use gravity.Directory.State.{Directory, publishers_of, seconds}
use gravity.Directory.Publishers.{find_url}
use gravity.Directory.Register.{accepted, handle_register, register_kind, domain_or}
use gravity.Directory.Requests.{Request, registration_request, request, serve, process_pending}
use gravity.Directory.ReadOnly.{send_updates-SameView}
use gravity.Directory.Purged.{WellFormed}
use gravity.Directory.Registered.{SamePublishers, SamePublishers-WellFormed}
use gravity.Directory.Invariant.{handle_register-WellFormed}
use gravity.Directory.Settled.{handle_register-Settled}
use gravity.Directory.Lookups.{registered_data, data_registered_entry, kept_time, kept}
use gravity.Node.State.{NetworkNode}
use gravity.Node.Publishers.{data_registration}
use gravity.Node.World.{
  Opening, Attempt, answered, timed_out, poll_interrupted, poll_failed, no_input, signalled, World,
  Answer, answer_of, is_final, retry,
}
use gravity.Node.Reregister.{is_got}

pub process_pending-SamePublishers : (s : Directory) → SamePublishers s (process_pending s)
unfolding process_pending
process_pending-SamePublishers s =
    if_cases (λ t. SamePublishers s t)
      (not s.registered_publishers_processed && s.registered_publishers_ready) _ _
      (λ h.
        let v = send_updates-SameView s.register_updates_to_send s in
        record { same_domain = v.same_domain; same_publishers = v.same_publishers })
      (λ h. record { same_domain = refl; same_publishers = λ d i. refl })

-- The directory lists the url of a registration in its own domain, with a time in seconds.
abbrev pub IsListed : String → String → ℕ → Directory → Type 0
IsListed id url secs d =
    (p : Publisher) × (find_url url (publishers_of d d.domain id) ≡ some p)
    × (p.registration_time ≡ secs)

IsListed-SamePublishers :
    {s t : Directory} (id url : String) (secs : ℕ)
    → SamePublishers s t
    → IsListed id url secs s
    → IsListed id url secs t
IsListed-SamePublishers {s} {t} id url secs v (p, found, time) = (
  p,
  ap (λ d. find_url url (publishers_of t d id)) v.same_domain
      ∙ ap (find_url url) (v.same_publishers s.domain id)
      ∙ found,
  time,
)

-- the registrations that are followed are those that the node makes of a data product
module _ (id url : String) (timestamp : ℕ) (relay : Option Bool) (ip : Option String)
    (component : String) where
  abbrev pub registration : Registration
  registration = data_registration id url timestamp relay ip component

  abbrev IsRegistered : Directory → Type 0
  IsRegistered d = WellFormed d × IsListed id url (seconds timestamp) d

  accepted-cases :
      (d : Directory)
      → (accepted registration d ≡ none) ⊎ (accepted registration d ≡ some timestamp)
  unfolding accepted
  accepted-cases d = ground arith

  handle_accepted :
      (d : Directory)
      → WellFormed d
      → accepted registration d ≡ some timestamp
      → IsListed id url (seconds timestamp) (handle_register registration d).1
  handle_accepted d w heard =
      let infos = publishers_of d d.domain id in
      (
        kept registration (seconds timestamp) infos,
        ap (λ e. find_url url (publishers_of (handle_register registration d).1 e id))
              (handle_register-Settled registration d).same_domain
            ∙ ap (find_url url) (registered_data registration d w timestamp heard refl d.domain id)
            ∙ data_registered_entry registration d.domain timestamp d,
        kept_time registration (seconds timestamp) infos,
      )

  handle_ignored :
      (d : Directory) → accepted registration d ≡ none → (handle_register registration d).1 ≡ d
  unfolding handle_register
  handle_ignored d e =
      ap
        (λ a. elim a [
          | none ↦ d
          | some t ↦ register_kind registration (domain_or d registration.domain) t d
        ])
        e

  handle-IsRegistered :
      (d : Directory)
      → WellFormed d
      → (accepted registration d ≡ some timestamp) ⊎ IsListed id url (seconds timestamp) d
      → IsRegistered (handle_register registration d).1
  handle-IsRegistered d w (inl heard) =
      (handle_register-WellFormed registration d w, handle_accepted d w heard)
  handle-IsRegistered d w (inr l) = elim (accepted-cases d) [
    | inl e ↦ subst IsRegistered (sym (handle_ignored d e)) (w, l)
    | inr heard ↦ (handle_register-WellFormed registration d w, handle_accepted d w heard)
  ]

  serve-IsRegistered :
      (d : Directory)
      → WellFormed d
      → (accepted registration d ≡ some timestamp) ⊎ IsListed id url (seconds timestamp) d
      → IsRegistered (serve (registration_request registration) d).1
  unfolding serve request
  serve-IsRegistered d w h =
      let t = (handle_register registration d).1 in
      let g = handle-IsRegistered d w h in
      let v = process_pending-SamePublishers t in
      (SamePublishers-WellFormed v g.0, IsListed-SamePublishers id url (seconds timestamp) v g.1)

-- What becomes of a request: it is answered, or the directory did or did not get it.
abbrev pub Delivered :
    {W R : Type 0} → World W R → Directory → Request → Directory → Attempt R → Type 0
Delivered world d q e (answered r) = e ≡ (serve q d).1
Delivered world d q e _ = (e ≡ d) ⊎ (e ≡ (serve q d).1)

-- A world in which there is a directory, which only the requests to it change.
pub record HasDirectory {W R : Type 0} (world : World W R) (directory_of : W → Directory)
    : Type 0 where
  pub served :
      (node : NetworkNode) (q : Request) (w : W)
      → Delivered world
          (directory_of w)
          q
          (directory_of (world.directory node q w).1)
          (world.directory node q w).0
  pub quiet_clock : (w : W) → directory_of (world.now w).1 ≡ directory_of w
  pub quiet_register :
      (o : Opening) (cache : Bool) (w : W)
      → directory_of (world.publish_register o cache w).1 ≡ directory_of w

module _ {W R : Type 0} (world : World W R) (directory_of : W → Directory)
    (link : HasDirectory world directory_of) (id url : String) (timestamp : ℕ) (relay : Option Bool)
    (ip : Option String) (component : String) where
  abbrev q : Request
  q = registration_request (registration id url timestamp relay ip component)

  abbrev Registered : Directory → Type 0
  Registered d = IsRegistered id url timestamp relay ip component d

  -- nothing was delivered yet, or the directory has the registration
  abbrev Pending : Directory → Directory → Type 0
  Pending d0 d = (d ≡ d0) ⊎ Registered d

  abbrev Follows : Directory → Answer R × W → Type 0
  Follows d0 a = Pending d0 (directory_of a.1) × (is_got a.0 ≡ true → Registered (directory_of a.1))

  module _ (d0 : Directory) (well : WellFormed d0)
      (heard : accepted (registration id url timestamp relay ip component) d0
        ≡ some timestamp) where
    serve-Registered : (d : Directory) → Pending d0 d → Registered (serve q d).1
    serve-Registered d (inl e) =
        subst (λ x. Registered (serve q x).1) (sym e)
          (serve-IsRegistered id url timestamp relay ip component d0 well (inl heard))
    serve-Registered d (inr (w, l)) =
        serve-IsRegistered id url timestamp relay ip component d w (inr l)

    lost-Pending : (d e : Directory) → Pending d0 d → (e ≡ d) ⊎ (e ≡ (serve q d).1) → Pending d0 e
    lost-Pending d e p (inl same) = subst (Pending d0) (sym same) p
    lost-Pending d e p (inr done) = inr (subst Registered (sym done) (serve-Registered d p))

    answer-Follows :
        (t : Attempt R) (d : Directory) (w : W)
        → Pending d0 d
        → Delivered world d q (directory_of w) t
        → Follows d0 (answer_of t, w)
    answer-Follows (answered r) d w p h =
        let g = subst Registered (sym h) (serve-Registered d p) in (inr g, λ e. g)
    answer-Follows timed_out d w p h = (lost-Pending d (directory_of w) p h, λ e. cc)
    answer-Follows poll_interrupted d w p h = (lost-Pending d (directory_of w) p h, λ e. cc)
    answer-Follows poll_failed d w p h = (lost-Pending d (directory_of w) p h, λ e. cc)
    answer-Follows no_input d w p h = (lost-Pending d (directory_of w) p h, λ e. cc)
    answer-Follows signalled d w p h = (lost-Pending d (directory_of w) p h, λ e. cc)

    pub retry-Follows :
        (k : ℕ) (node : NetworkNode) (a : Answer R) (w : W)
        → Follows d0 (a, w)
        → Follows d0 (retry world k node q a w)
    unfolding retry
    retry-Follows zero node a w h = h
    retry-Follows (suc k) node a w h =
        let t = world.directory node q w in
        if_cases (Follows d0) (is_final a) (a, w) (retry world k node q (answer_of t.0) t.1)
          (λ e. h)
          (λ e.
            retry-Follows k node (answer_of t.0) t.1
              (answer-Follows t.0 (directory_of w) t.1 h.0 (link.served node q w)))
