-- ===== src/PublishManager/Cache.antt =====
-- The loop as a whole: the map of slots that it refines, and the histories that it survives.
use gravity.Prelude.{
  ℕ, ◌≡◌, refl, sym, ap, ◌∙◌, String, Bool, true, false, Bool-cases, inl, inr, List, [], ◌∷◌,
  Option, none, some, is_some, arith, some_inj, if_true, if_false, ◌&&◌, subst, or_else, is_some,
}
use gravity.Prelude.Key.{string_key, nat_key}
use gravity.Prelude.Maps.{lookup}
use gravity.PollItems.{is_polled}
use gravity.DataProduct.{Product}
use gravity.Ports.{bound_url}
use gravity.PublishManager.State.{Manager, init}
use gravity.PublishManager.Commands.{
  register_data_product, remove_known, unregister_data_product, set_hwm, set_keep_alive,
  subscribers_exist,
}
use gravity.PublishManager.Publishing.{subscription}
use gravity.PublishManager.Loop.{
  Event, register, unregister, hwm, keep_alive, ask_subscribers, published, metrics_enable,
  metrics_disable, get_metrics, subscribed, unknown_command, collect, step, run,
}
use gravity.PublishManager.Agreement.{init-Inv, Inv}
use gravity.PublishManager.Invariant.{is_null}
use gravity.PublishManager.Steps.{removes_null, step_total}
use gravity.PublishManager.Refinement.{
  slot-add_publisher, slot-remove_known, slot-touch_id, slot-note_at,
}
use gravity.PublishManager.Published.{slot-publish}
use gravity.PublishManager.Slots.{Slot, slot_of, slot, slot_step}

module _ (size_of : Product → ℕ) (id f : String) where
  pub step-slot :
      (e : Event) (s t : Manager)
      → Inv s
      → step size_of e s ≡ some t
      → slot id f t ≡ slot_step id f e (slot id f s)
  unfolding step set_hwm set_keep_alive subscribers_exist collect unregister_data_product
      subscription register_data_product
  step-slot (register true can_bind r) s t h e =
      ap (slot id f) (sym (some_inj e))
      ∙ slot-add_publisher id f r (bound_url can_bind r.binding) s h
  step-slot (register false can_bind r) s t h e = ap (slot id f) (sym (some_inj e))
  step-slot (unregister j) s t h e =
      slot-remove_known id f j (lookup j s.publish_map_by_id) _ t h refl e
  step-slot (hwm n) s t h e = ap (slot id f) (sym (some_inj e))
  step-slot (keep_alive time probes interval) s t h e = ap (slot id f) (sym (some_inj e))
  step-slot (ask_subscribers j) s t h e = ap (slot id f) (sym (some_inj e)) ∙ slot-touch_id id f j s
  step-slot (published q) s t h e =
      ap (slot id f) (sym (some_inj e)) ∙ slot-publish id f size_of q s h
  step-slot (metrics_enable now) s t h e = ap (slot id f) (sym (some_inj e))
  step-slot (metrics_disable now) s t h e = ap (slot id f) (sym (some_inj e))
  step-slot (get_metrics now) s t h e = ap (slot id f) (sym (some_inj e))
  step-slot (subscribed socket new) s t h e = elim (Bool-cases (is_polled socket s.poll_items)) [
    | inl here ↦
        slot-note_at id f new (lookup socket s.publish_map_by_socket) s t
          (sym (if_true _ _ _ here) ∙ e)
    | inr absent ↦ ap (slot id f) (sym (some_inj (sym (if_false _ _ _ absent) ∙ e)))
  ]
  step-slot unknown_command s t h e = ap (slot id f) (sym (some_inj e))

-- What the messages do to a slot.
abbrev pub slots : String → String → List Event → Slot → Slot
slots id f [] o = o
slots id f (e ∷ es) o = slots id f es (slot_step id f e o)

-- The node removes only what is registered.
abbrev pub is_allowed : (String → Slot) → Event → Bool
is_allowed known (unregister id) = is_some (known id)
is_allowed known e = true

abbrev pub is_guarded : (String → Slot) → List Event → Bool
is_guarded known [] = true
is_guarded known (e ∷ es) = is_allowed known e && is_guarded (λ id. slot_step id "" e (known id)) es

null_none :
    (size_of : Product → ℕ) (e : Event) (s : Manager)
    → removes_null e s ≡ true
    → step size_of e s ≡ none
unfolding step unregister_data_product
null_none size_of (unregister id) s h = go (lookup id s.publish_map_by_id) _ h
  where
    go : (o : Option (Option ℕ)) (u : Manager) → is_null o ≡ true → remove_known id o u ≡ none
    go none u n = absurd (ground (arith, n))
    go (some none) u n = refl
    go (some (some p)) u n = absurd (ground (arith, n))
null_none size_of e s h = absurd (ground (arith, h))

known_safe :
    (id : String) (s : Manager)
    → is_some (slot id "" s) ≡ true
    → removes_null (unregister id) s ≡ false
known_safe id s h = go (lookup id s.publish_map_by_id) refl
  where
    go : (o : Option (Option ℕ)) → lookup id s.publish_map_by_id ≡ o → is_null o ≡ false
    go none e = refl
    go (some none) e =
        absurd (ground (arith, h, ap (λ x. is_some (slot_of (or_else none x) s.objects "")) e))
    go (some (some p)) e = refl

module _ (size_of : Product → ℕ) where
  done_Inv : (e : Event) (s t : Manager) → Inv s → step size_of e s ≡ some t → Inv t
  done_Inv e s t h done = elim (Bool-cases (removes_null e s)) [
    | inl null ↦ absurd (ground (arith, done, null_none size_of e s null))
    | inr safe ↦
        let (u, found, inv) = step_total size_of e s h safe in
        subst Inv (some_inj (sym found ∙ done)) inv
  ]

  run-cons :
      (e : Event) (es : List Event) (s t : Manager)
      → run size_of (e ∷ es) s ≡ some t
      → (u : Manager) × (step size_of e s ≡ some u) × (run size_of es u ≡ some t)
  unfolding run
  run-cons e es s t done = go (step size_of e s) refl done
    where
      go :
          (o : Option Manager)
          → step size_of e s ≡ o
          → elim o [ none ↦ none | some u ↦ run size_of es u ] ≡ some t
          → (u : Manager) × (step size_of e s ≡ some u) × (run size_of es u ≡ some t)
      go none found rest = absurd (ground (arith, rest))
      go (some u) found rest = (u, found, rest)

  run-slots :
      (id f : String) (es : List Event) (s t : Manager)
      → Inv s
      → run size_of es s ≡ some t
      → slot id f t ≡ slots id f es (slot id f s)
  unfolding run
  run-slots id f [] s t h done = ap (slot id f) (sym (some_inj done))
  run-slots id f (e ∷ es) s t h done =
      let (u, found, rest) = run-cons e es s t done in
      run-slots id f es u t (done_Inv e s u h found) rest
      ∙ ap (slots id f es) (step-slot size_of id f e s u h found)

  -- Whatever the loop of start does from its beginning, what it keeps for a product and a filter is
  -- what the messages say one by one: a registration that binds a port starts with no value, a
  -- publication is kept, under its filter, only by a registered product that caches values, the
  -- removal of the product forgets all, and every other message changes nothing.
  pub run-init-slots :
      (id f : String) (es : List Event) (t : Manager)
      → run size_of es init ≡ some t
      → slot id f t ≡ slots id f es none
  unfolding lookup
  run-init-slots id f es t done = run-slots id f es init t init-Inv done

  allowed_safe :
      (known : String → Slot) (e : Event) (s : Manager)
      → ((id : String) → known id ≡ slot id "" s)
      → is_allowed known e ≡ true
      → removes_null e s ≡ false
  allowed_safe known (unregister id) s same h = known_safe id s (sym (ap is_some (same id)) ∙ h)
  allowed_safe known e s same h = refl

  guarded_total :
      (known : String → Slot) (es : List Event) (s : Manager)
      → Inv s
      → ((id : String) → known id ≡ slot id "" s)
      → is_guarded known es ≡ true
      → (t : Manager) × (run size_of es s ≡ some t) × Inv t
  unfolding run
  guarded_total known [] s h same ok = (s, refl, h)
  guarded_total known (e ∷ es) s h same ok =
      let both : (is_allowed known e ≡ true)
          × (is_guarded (λ id. slot_step id "" e (known id)) es ≡ true) =
        ground (arith, ok) in
      let (u, done, inv) = step_total size_of e s h (allowed_safe known e s same both.0) in
      let (t, rest, last) =
        guarded_total (λ id. slot_step id "" e (known id)) es u inv
          (λ id. ap (slot_step id "" e) (same id) ∙ sym (step-slot size_of id "" e s u h done))
          both.1 in
      (t, ground (arith, done, rest), last)

  -- When the node removes a product only while it is registered, which is what it checks before it
  -- asks, the publish manager never follows a null pointer, and after any such messages its maps,
  -- its objects and its poll items agree.
  pub run-init_guarded :
      (es : List Event)
      → is_guarded (λ id. none) es ≡ true
      → (t : Manager) × (run size_of es init ≡ some t) × Inv t
  unfolding lookup
  run-init_guarded es ok = guarded_total (λ id. none) es init init-Inv (λ id. refl) ok
