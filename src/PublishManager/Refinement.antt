-- ===== src/PublishManager/Refinement.antt =====
-- The loop refines the map of slots.
use gravity.Prelude.{
  ℕ, ◌≡◌, refl, sym, ap, ◌∙◌, String, Bool, true, false, Bool-cases, inl, inr, Option, none, some,
  nat_eq_iff, if◌then◌else◌, arith, some_inj, if_true, if_false,
}
use gravity.Prelude.Key.{◌==◌, string_key, nat_key}
use gravity.Prelude.Maps.{
  Map, lookup, get_or, insert, lookup-insert, lookup-insert_key, get_or-insert, get_or-erase,
  get_or-touch,
}
use gravity.Ports.{Url}
use gravity.PublishManager.State.{Details, Manager}
use gravity.PublishManager.Commands.{
  Registration, new_details, add_publisher, forget_values, remove_publisher, remove_known, touch_id,
}
use gravity.PublishManager.Publishing.{Publication, cache_value, cache, note_subscribers, note_at}
use gravity.PublishManager.Agreement.{Inv}
use gravity.PublishManager.Slots.{
  seen, slot_of, slot, registered_slot, cached_slot, slot_of-insert_same, slot-insert_elsewhere,
  slot-insert_fresh,
}

module _ (id f : String) where
  pub slot-add_publisher :
      (r : Registration) (o : Option Url) (s : Manager)
      → Inv s
      → slot id f (add_publisher r o s).1 ≡ registered_slot id r o (slot id f s)
  unfolding add_publisher lookup
  slot-add_publisher r none s h = refl
  slot-add_publisher r (some url) s h = elim (Bool-cases (r.data_product_id == id)) [
    | inl at ↦
        ap (λ o. slot_of o objects f)
          (get_or-insert none r.data_product_id id (some s.next_object) s.publish_map_by_id
            ∙ if_true _ _ _ at)
        ∙ ap (seen f) (
            lookup-insert_key s.next_object s.next_object d s.objects
              ((nat_eq_iff s.next_object s.next_object).1 refl))
        ∙ sym (if_true (r.data_product_id == id) (some (r.cache_last_value, none)) (slot id f s) at)
    | inr off ↦
        ap (λ o. slot_of o objects f)
          (get_or-insert none r.data_product_id id (some s.next_object) s.publish_map_by_id
            ∙ if_false _ _ _ off)
        ∙ slot-insert_fresh s h id f d
        ∙ sym (if_false _ _ _ off)
  ]
    where
      d : Details
      d = new_details r url s.next_socket

      objects : Map ℕ Details
      objects = insert s.next_object d s.objects

  pub slot-remove_known :
      (j : String) (o : Option (Option ℕ)) (s t : Manager)
      → Inv s
      → lookup j s.publish_map_by_id ≡ o
      → remove_known j o s ≡ some t
      → slot id f t ≡ (if j == id then none else slot id f s)
  unfolding remove_known remove_publisher
  slot-remove_known j none s t h e done =
      ap (slot id f) (sym (some_inj done)) ∙ elim (Bool-cases (j == id)) [
        | inl at ↦
            let unknown : get_or none id s.publish_map_by_id ≡ none =
              ground (arith, e, (string_key.beq_iff j id).0 at) in
            ap (λ o. slot_of o s.objects f) unknown ∙ sym (if_true (j == id) none (slot id f s) at)
        | inr off ↦ sym (if_false _ _ _ off)
      ]
  slot-remove_known j (some none) s t h e done = absurd (ground (arith, done))
  slot-remove_known j (some (some p)) s t h e done =
      let (d, there, name) = h.named j p e in
      let objects : Map ℕ Details = insert p (forget_values d) s.objects in
      let u_is_t = sym (ap (λ o. remove_publisher j p o s) there) ∙ done in
      ap (slot id f) (sym (some_inj u_is_t)) ∙ elim (Bool-cases (j == id)) [
        | inl at ↦
            ap (λ o. slot_of o objects f)
              (get_or-erase none j id s.publish_map_by_id ∙ if_true _ _ _ at)
            ∙ sym (if_true _ _ _ at)
        | inr off ↦
            ap (λ o. slot_of o objects f)
              (get_or-erase none j id s.publish_map_by_id ∙ if_false _ _ _ off)
            ∙ slot-insert_elsewhere s h j id f p (forget_values d) (d, there, name) off
            ∙ sym (if_false _ _ _ off)
      ]

  pub slot-touch_id : (j : String) (s : Manager) → slot id f (touch_id j s) ≡ slot id f s
  unfolding touch_id
  slot-touch_id j s = ap (λ o. slot_of o s.objects f) (get_or-touch none j id s.publish_map_by_id)

  pub slot-note_at :
      (new : Bool) (o : Option ℕ) (s t : Manager)
      → note_at new o s ≡ some t
      → slot id f t ≡ slot id f s
  unfolding note_at note_subscribers
  slot-note_at new none s t done = absurd (ground (arith, done))
  slot-note_at new (some p) s t done = go new (lookup p s.objects) refl done
    where
      go :
          (n : Bool) (o : Option Details)
          → lookup p s.objects ≡ o
          → note_subscribers n p o s ≡ some t
          → slot id f t ≡ slot id f s
      go n none e done' = absurd (ground (arith, done'))
      go true (some d) e done' =
          ap (slot id f) (sym (some_inj done'))
          ∙ slot_of-insert_same (get_or none id s.publish_map_by_id) p d
              (record d { has_subscribers = true }) s.objects f e refl
      go false (some d) e done' =
          ap (slot id f) (sym (some_inj done'))
          ∙ slot_of-insert_same (get_or none id s.publish_map_by_id) p d
              (record d { has_subscribers = false }) s.objects f e refl

  pub seen-cache :
      (q : Publication) (d : Details)
      → seen f (some (cache q d)) ≡ cached_slot f q (seen f (some d))
  unfolding cache
  seen-cache q d = elim (Bool-cases d.cache_last_value) [
    | inl on ↦
        ap (λ x. seen f (some x)) (if_true _ _ _ on)
        ∙ ap (λ v. some (d.cache_last_value, v))
            (ground (arith, on, lookup-insert q.filter_text f (cache_value q) d.last_cached_values))
    | inr off ↦
        ap (λ x. seen f (some x)) (if_false _ _ _ off)
        ∙ ap (λ v. some (d.cache_last_value, v)) (ground (arith, off))
  ]
