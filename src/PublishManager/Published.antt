-- ===== src/PublishManager/Published.antt =====
-- What a publication does to the slots.
use gravity.Prelude.{
  ℕ, ◌≡◌, refl, sym, ap, ◌∙◌, String, Bool-cases, inl, inr, Option, none, some, nat_eq_iff,
  if◌then◌else◌, if_true, if_false,
}
use gravity.Prelude.Key.{◌==◌, string_key, nat_key}
use gravity.Prelude.Maps.{Map, lookup, get_or, insert, lookup-insert_key, get_or-touch}
use gravity.DataProduct.{Product}
use gravity.PublishManager.State.{Details, Manager}
use gravity.PublishManager.Commands.{touch_id, numbered, object_of, known_details}
use gravity.PublishManager.Publishing.{Publication, cache, send, count, publish_details, publish}
use gravity.PublishManager.Agreement.{Inv}
use gravity.PublishManager.Steps.{object_of-some}
use gravity.PublishManager.Slots.{
  Slot, seen, slot_of, slot, cached_slot, get_or-some, slot-insert_elsewhere,
}
use gravity.PublishManager.Refinement.{slot-touch_id, seen-cache}

module _ (id f : String) where
  numbered_slot : Option (ℕ × Details) → Slot
  numbered_slot none = none
  numbered_slot (some (p, d)) = seen f (some d)

  slot_of-object :
      (o : Option ℕ) (m : Map ℕ Details) → slot_of o m f ≡ numbered_slot (object_of o m)
  unfolding numbered_slot
  slot_of-object none m = refl
  slot_of-object (some p) m = elim (lookup p m) as (λ o. seen f o ≡ numbered_slot (numbered p o)) [
    | none ↦ refl
    | some d ↦ refl
  ]

  module _ (size_of : Product → ℕ) where
    slot-count : (q : Publication) (s : Manager) → slot id f (count size_of q s) ≡ slot id f s
    unfolding count
    slot-count q s = elim (Bool-cases s.metrics_enabled) [
      | inl on ↦ ap (slot id f) (if_true _ _ _ on)
      | inr off ↦ ap (slot id f) (if_false _ _ _ off)
    ]

    pub slot-publish :
        (q : Publication) (s : Manager)
        → Inv s
        → slot id f (publish size_of q s)
          ≡ (if q.data_product_id == id then cached_slot f q (slot id f s) else slot id f s)
    unfolding publish publish_details send numbered_slot touch_id
    slot-publish q s h = go (known_details q.data_product_id s) refl
      where
        known : Option ℕ
        known = get_or none id s.publish_map_by_id

        go :
            (o : Option (ℕ × Details))
            → known_details q.data_product_id s ≡ o
            → slot id f (publish_details size_of q o (touch_id q.data_product_id s))
              ≡ (if q.data_product_id == id then cached_slot f q (slot id f s) else slot id f s)
        go none e =
            slot-touch_id id f q.data_product_id s ∙ elim (Bool-cases (q.data_product_id == id)) [
              | inl at ↦
                  let id_is : q.data_product_id ≡ id =
                    (string_key.beq_iff q.data_product_id id).0 at in
                  let empty : slot id f s ≡ none =
                    slot_of-object known s.objects
                    ∙ ap (λ j. numbered_slot (known_details j s)) (sym id_is)
                    ∙ ap numbered_slot e in
                  empty
                  ∙ sym (
                      if_true (q.data_product_id == id) (cached_slot f q (slot id f s))
                        (slot id f s) at
                      ∙ ap (cached_slot f q) empty)
              | inr off ↦ sym (
                  if_false (q.data_product_id == id) (cached_slot f q (slot id f s)) (slot id f s)
                    off)
            ]
        go (some (p, d)) e =
            let (leads, there) =
              object_of-some (get_or none q.data_product_id s.publish_map_by_id) s.objects p d e in
            let objects : Map ℕ Details = insert p (cache q d) s.objects in
            slot-count q _
            ∙ ap (λ o. slot_of o objects f)
                (get_or-touch none q.data_product_id id s.publish_map_by_id)
            ∙ elim (Bool-cases (q.data_product_id == id)) [
              | inl at ↦
                  let id_is : q.data_product_id ≡ id =
                    (string_key.beq_iff q.data_product_id id).0 at in
                  let known_p : known ≡ some p =
                    ap (λ j. get_or none j s.publish_map_by_id) (sym id_is) ∙ leads in
                  let was : slot id f s ≡ seen f (some d) =
                    ap (λ o. slot_of o s.objects f) known_p ∙ ap (seen f) there in
                  ap (λ o. slot_of o objects f) known_p
                  ∙ ap (seen f)
                      (lookup-insert_key p p (cache q d) s.objects ((nat_eq_iff p p).1 refl))
                  ∙ seen-cache id f q d
                  ∙ ap (cached_slot f q) (sym was)
                  ∙ sym (
                      if_true (q.data_product_id == id) (cached_slot f q (slot id f s))
                        (slot id f s) at)
              | inr off ↦
                  slot-insert_elsewhere s h q.data_product_id id f p (cache q d)
                    (h.named q.data_product_id p
                      (get_or-some q.data_product_id s.publish_map_by_id p leads))
                    off
                  ∙ sym (
                      if_false (q.data_product_id == id) (cached_slot f q (slot id f s))
                        (slot id f s) off)
            ]
