-- ===== src/PublishManager/Steps.antt =====
-- Every step of the loop keeps the invariant, and which steps follow a null pointer.
use gravity.Prelude.{
  ℕ, ◌≡◌, refl, sym, ap, ◌∙◌, Bool, true, false, Bool-cases, inl, inr, Option, none, some, is_some,
  if◌then◌else◌, arith, some_inj,
}
use gravity.Prelude.Key.{string_key, nat_key}
use gravity.Prelude.Maps.{Map, lookup, insert, get_or}
use gravity.PollItems.{is_polled}
use gravity.DataProduct.{Product}
use gravity.PublishManager.State.{Details, Manager}
use gravity.PublishManager.Commands.{
  unregister_data_product, touch_id, numbered, object_of, known_details, subscribers_exist, set_hwm,
  set_keep_alive,
}
use gravity.PublishManager.Publishing.{
  Publication, cache, count, publish_details, publish, note_subscribers, note_at, subscription,
  send,
}
use gravity.PublishManager.Loop.{
  Event, register, unregister, hwm, keep_alive, ask_subscribers, published, metrics_enable,
  metrics_disable, get_metrics, subscribed, unknown_command, collect, step,
}
use gravity.PublishManager.Agreement.{Inv}
use gravity.PublishManager.Invariant.{
  is_null, register-Inv, remove_known_total, touch_id-Inv, write-Inv,
}

if-Inv : (c : Bool) (s t : Manager) → Inv s → Inv t → Inv (if c then s else t)
if-Inv true s t h i = h
if-Inv false s t h i = i

same_parts :
    (c : Bool) (d d' : Details)
    → d'.data_product_id ≡ d.data_product_id
    → (if c then d' else d).data_product_id ≡ d.data_product_id
same_parts true d d' e = e
same_parts false d d' e = refl

pub cache_id : (q : Publication) (d : Details) → (cache q d).data_product_id ≡ d.data_product_id
unfolding cache
cache_id q d = same_parts d.cache_last_value d _ refl

numbered-some :
    (p q : ℕ) (o : Option Details) (d : Details)
    → numbered p o ≡ some (q, d)
    → (p ≡ q) × (o ≡ some d)
numbered-some p q none d e = absurd (ground (arith, e))
numbered-some p q (some c) d e = (ap (λ x. x.0) (some_inj e), ap (λ x. some x.1) (some_inj e))

pub object_of-some :
    (o : Option ℕ) (m : Map ℕ Details) (p : ℕ) (d : Details)
    → object_of o m ≡ some (p, d)
    → (o ≡ some p) × (lookup p m ≡ some d)
object_of-some none m p d e = absurd (ground (arith, e))
object_of-some (some q) m p d e =
    let both = numbered-some q p (lookup q m) d e in
    (ap some both.0, sym (ap (λ k. lookup k m) both.0) ∙ both.1)

module _ (size_of : Product → ℕ) where
  count-Inv : (q : Publication) (s : Manager) → Inv s → Inv (count size_of q s)
  unfolding count
  count-Inv q s h = if-Inv s.metrics_enabled _ s h h

  pub publish-Inv : (q : Publication) (s : Manager) → Inv s → Inv (publish size_of q s)
  unfolding publish publish_details send touch_id count
  publish-Inv q s h = go (known_details q.data_product_id s) refl
    where
      go :
          (o : Option (ℕ × Details))
          → known_details q.data_product_id s ≡ o
          → Inv (publish_details size_of q o (touch_id q.data_product_id s))
      go none e = touch_id-Inv q.data_product_id s h
      go (some (p, d)) e =
          let t : Manager = touch_id q.data_product_id s in
          count-Inv q
            (send (record { socket = d.socket; filter_text = q.filter_text; product = q.product })
              (record t { objects = insert p (cache q d) t.objects }))
            (write-Inv t (touch_id-Inv q.data_product_id s h) p d (cache q d)
              (object_of-some (get_or none q.data_product_id s.publish_map_by_id) s.objects p d e).1
              (cache_id q d))

note_subscribers-Inv :
    (new : Bool) (p : ℕ) (o : Option Details) (s : Manager)
    → Inv s
    → lookup p s.objects ≡ o
    → is_some o ≡ true
    → (t : Manager) × (note_subscribers new p o s ≡ some t) × Inv t
unfolding note_subscribers
note_subscribers-Inv new p none s h e here = absurd (ground (arith, here))
note_subscribers-Inv false p (some d) s h e here =
    (_, refl, write-Inv s h p d (record d { has_subscribers = false }) e refl)
note_subscribers-Inv true p (some d) s h e here =
    (_, refl, write-Inv s h p d (record d { has_subscribers = true }) e refl)

note_at-Inv :
    (new : Bool) (socket : ℕ) (o : Option ℕ) (s : Manager)
    → Inv s
    → lookup socket s.publish_map_by_socket ≡ o
    → is_some o ≡ true
    → (t : Manager) × (note_at new o s ≡ some t) × Inv t
unfolding note_at
note_at-Inv new socket none s h e here = absurd (ground (arith, here))
note_at-Inv new socket (some p) s h e here =
    note_subscribers-Inv new p (lookup p s.objects) s h refl (h.linked socket p e)

-- Whether a message is the removal of a product that has a null pointer.
abbrev pub removes_null : Event → Manager → Bool
removes_null (unregister id) s = is_null (lookup id s.publish_map_by_id)
removes_null e s = false

module _ (size_of : Product → ℕ) where
  -- A step that does not remove a null pointer is done, and keeps the invariant.
  pub step_total :
      (e : Event) (s : Manager)
      → Inv s
      → removes_null e s ≡ false
      → (t : Manager) × (step size_of e s ≡ some t) × Inv t
  unfolding step set_hwm set_keep_alive subscribers_exist collect unregister_data_product
      subscription
  step_total (register can_open can_bind r) s h safe =
      (_, refl, register-Inv can_open can_bind r s h)
  step_total (unregister id) s h safe =
      remove_known_total id (lookup id s.publish_map_by_id) _ h refl safe
  step_total (hwm n) s h safe = (_, refl, h)
  step_total (keep_alive time probes interval) s h safe = (_, refl, h)
  step_total (ask_subscribers id) s h safe = (_, refl, touch_id-Inv id s h)
  step_total (published q) s h safe = (_, refl, publish-Inv size_of q s h)
  step_total (metrics_enable now) s h safe = (_, refl, h)
  step_total (metrics_disable now) s h safe = (_, refl, h)
  step_total (get_metrics now) s h safe = (_, refl, h)
  step_total (subscribed socket new) s h safe = elim (Bool-cases (is_polled socket s.poll_items)) [
    | inl here ↦
        let (t, e, inv) =
          note_at-Inv new socket (lookup socket s.publish_map_by_socket) s h refl
            (sym (h.polled socket) ∙ here) in
        (t, ground (arith, here, e), inv)
    | inr absent ↦ (s, ground (arith, absent), h)
  ]
  step_total unknown_command s h safe = (_, refl, h)
