-- ===== src/Heartbeat/Queue.antt =====
-- The queue of expected heartbeats.
use gravity.Prelude.{
  ℕ, ◌+◌, ◌≡◌, refl, sym, ap, ◌∙◌, String, Bool, true, false, List, [], ◌∷◌, Option, none, some,
  arith, if◌then◌else◌, ltb, if_cases, subst,
}
use gravity.Prelude.Key.{◌==◌, string_key}
use gravity.Prelude.Sorting.{insert_by, IsSortedBy, insert_by-IsSortedBy}
use gravity.Prelude.Counting.{tick, tally}
use gravity.DataProduct.{Product}
use gravity.Heartbeat.{
  Expected, Listener, init, subscription_filled, push, Clock, renew, heard, tell, check_first,
  register, unregister, unknown_command, new_expected, without_id, command, Event, filled, checked,
  commanded, step, run,
}

abbrev pub is_for : String → Expected → Bool
is_for id e = e.data_product_id == id

-- the registrations of a product that were not undone
abbrev pub registered_step : String → Event → ℕ → ℕ
registered_step id (commanded (register j l wait now)) n = tick (j == id) + n
registered_step id (commanded (unregister j)) n = if j == id then 0 else n
registered_step id e n = n

abbrev pub registrations : String → List Event → ℕ → ℕ
registrations id [] n = n
registrations id (e ∷ es) n = registrations id es (registered_step id e n)

tally-push :
    (p : Expected → Bool) (e : Expected) (q : List Expected)
    → tally p (push e q) ≡ tick (p e) + tally p q
unfolding push insert_by
tally-push p e [] = refl
tally-push p e (x ∷ q) = ground (arith, tally-push p e q)

tally-without_id :
    (id j : String) (q : List Expected)
    → tally (is_for id) (without_id j q) ≡ (if j == id then 0 else tally (is_for id) q)
tally-without_id id j [] = ground arith
tally-without_id id j (e ∷ q) = ground (
  arith,
  tally-without_id id j q,
  tally-push (is_for id) e (without_id j q),
  string_key.beq_iff j id,
  string_key.beq_iff e.data_product_id id,
  string_key.beq_iff e.data_product_id j,
)

abbrev IsSorted : List Expected → Type 0
IsSorted q = IsSortedBy (λ e. e.expected_time) q

push-IsSorted : (e : Expected) (q : List Expected) → IsSorted q → IsSorted (push e q)
unfolding push
push-IsSorted e q s = insert_by-IsSortedBy (λ x. x.expected_time) e q s

without_id-IsSorted : (id : String) (q : List Expected) → IsSorted (without_id id q)
without_id-IsSorted id [] = tt
without_id-IsSorted id (e ∷ q) =
    if_cases IsSorted (e.data_product_id == id) (without_id id q) (push e (without_id id q))
      (λ same. without_id-IsSorted id q)
      (λ other. push-IsSorted e (without_id id q) (without_id-IsSorted id q))

subscription_filled-message_times :
    (qs : List Product) (s : Listener) → (subscription_filled qs s).message_times ≡ s.message_times
unfolding subscription_filled
subscription_filled-message_times [] s = refl
subscription_filled-message_times (q ∷ qs) s = subscription_filled-message_times qs _

module _ (component_of : String → String) (id : String) where
  -- The queue is in the order of its times, and has a product as often as a number says.
  abbrev Holds : ℕ → List Expected → Type 0
  Holds n q = IsSorted q × (tally (is_for id) q ≡ n)

  tell-Holds :
      (c : Clock) (o : Option ℕ) (got : Bool) (e : Expected) (es : List Expected) (s : Listener)
      (n : ℕ)
      → IsSorted es
      → tick (is_for id e) + tally (is_for id) es ≡ n
      → Holds n (tell component_of c o got e es s).message_times
  tell-Holds c none got e es s n sorted h =
      (push-IsSorted (renew c e) es sorted, tally-push (is_for id) (renew c e) es ∙ h)
  tell-Holds c (some l) true e es s n sorted h = (
    push-IsSorted (renew c (heard c e)) es sorted,
    tally-push (is_for id) (renew c (heard c e)) es ∙ h,
  )
  tell-Holds c (some l) false e es s n sorted h =
      (push-IsSorted (renew c e) es sorted, tally-push (is_for id) (renew c e) es ∙ h)

  tail-IsSorted : (e : Expected) (es : List Expected) → IsSorted (e ∷ es) → IsSorted es
  tail-IsSorted e [] sorted = tt
  tail-IsSorted e (x ∷ es) sorted = sorted.1

  check_first-Holds :
      (c : Clock) (q : List Expected) (s : Listener) (n : ℕ)
      → s.message_times ≡ q
      → Holds n q
      → Holds n (check_first component_of c q s).message_times
  check_first-Holds c [] s n e h = subst (Holds n) (sym e) h
  check_first-Holds c (x ∷ q) s n e h =
      if_cases (λ (t : Listener). Holds n t.message_times) (ltb c.now x.expected_time) s _
        (λ early. subst (Holds n) (sym e) h)
        (λ due. tell-Holds c _ _ x q _ n (tail-IsSorted x q h.0) h.1)

  step-Holds :
      (e : Event) (s : Listener) (n : ℕ)
      → Holds n s.message_times
      → Holds (registered_step id e n) (step component_of e s).message_times
  unfolding step command
  step-Holds (filled qs) s n h = subst (Holds n) (sym (subscription_filled-message_times qs s)) h
  step-Holds (checked c) s n h = check_first-Holds c s.message_times s n refl h
  step-Holds (commanded (register j l wait now)) s n h = (
    push-IsSorted (new_expected j wait now) s.message_times h.0,
    tally-push (is_for id) (new_expected j wait now) s.message_times
        ∙ ap (λ k. tick (j == id) + k) h.1,
  )
  step-Holds (commanded (unregister j)) s n h = (
    without_id-IsSorted j s.message_times,
    tally-without_id id j s.message_times ∙ ap (λ k. if j == id then 0 else k) h.1,
  )
  step-Holds (commanded unknown_command) s n h = h

  run-Holds :
      (es : List Event) (s : Listener) (n : ℕ)
      → Holds n s.message_times
      → Holds (registrations id es n) (run component_of es s).message_times
  unfolding run
  run-Holds [] s n h = h
  run-Holds (e ∷ es) s n h =
      run-Holds es (step component_of e s) (registered_step id e n) (step-Holds e s n h)

  -- From its start, whatever heartbeats come, are missed, and are registered for and not, the queue
  -- is in the order of the times at which heartbeats are expected, and has each product as often as
  -- it was registered since it was last unregistered.
  pub run-init-registrations :
      (es : List Event)
      → IsSortedBy (λ e. e.expected_time) (run component_of es init).message_times
        × (tally (is_for id) (run component_of es init).message_times ≡ registrations id es 0)
  run-init-registrations es = run-Holds es init 0 (tt, refl)
