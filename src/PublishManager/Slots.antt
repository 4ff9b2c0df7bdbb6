-- ===== src/PublishManager/Slots.antt =====
-- What the publish manager keeps for a product and a filter, as a map of its own: whether the
-- product is registered, whether its values are cached, and the last value of the filter.
use gravity.Prelude.{
  ℕ, ◌≡◌, refl, sym, ap, ◌∙◌, String, Bool, false, ◌&&◌, Bool-cases, inl, inr, Option, none, some,
  nat_eq, nat_eq_iff, if◌then◌else◌, arith, some_inj, ap-if, if_true, if_false,
}
use gravity.Prelude.Key.{◌==◌, string_key, nat_key}
use gravity.Prelude.Maps.{Map, lookup, get_or, insert, lookup-insert}
use gravity.Ports.{Url, bound_url}
use gravity.PublishManager.State.{CacheValue, Details, Manager}
use gravity.PublishManager.Commands.{Registration}
use gravity.PublishManager.Publishing.{Publication, cache_value}
use gravity.PublishManager.Loop.{Event, register, unregister, published}
use gravity.PublishManager.Agreement.{Inv, Names}

abbrev pub Slot : Type 0
Slot = Option (Bool × Option CacheValue)

abbrev pub seen : String → Option Details → Slot
seen f none = none
seen f (some d) = some (d.cache_last_value, lookup f d.last_cached_values)

abbrev pub slot_of : Option ℕ → Map ℕ Details → String → Slot
slot_of none m f = none
slot_of (some p) m f = seen f (lookup p m)

-- the slot of a product and a filter in the state
abbrev pub slot : String → String → Manager → Slot
slot id f s = slot_of (get_or none id s.publish_map_by_id) s.objects f

abbrev pub registered_slot : String → Registration → Option Url → Slot → Slot
registered_slot id r none o = o
registered_slot id r (some url) o =
    if r.data_product_id == id then some (r.cache_last_value, none) else o

abbrev pub cached_slot : String → Publication → Slot → Slot
cached_slot f q none = none
cached_slot f q (some (c, v)) =
    some (c, if c && (q.filter_text == f) then some (cache_value q) else v)

-- What a message does to a slot.
abbrev pub slot_step : String → String → Event → Slot → Slot
slot_step id f (register can_open can_bind r) o =
    if can_open then registered_slot id r (bound_url can_bind r.binding) o else o
slot_step id f (unregister j) o = if j == id then none else o
slot_step id f (published q) o = if q.data_product_id == id then cached_slot f q o else o
slot_step id f e o = o

abbrev pub is_at : ℕ → Option ℕ → Bool
is_at p none = false
is_at p (some q) = nat_eq p q

pub slot_of-insert :
    (o : Option ℕ) (p : ℕ) (d : Details) (m : Map ℕ Details) (f : String)
    → slot_of o (insert p d m) f ≡ (if is_at p o then seen f (some d) else slot_of o m f)
slot_of-insert none p d m f = refl
slot_of-insert (some q) p d m f =
    ap (seen f) (lookup-insert p q d m) ∙ ap-if (seen f) (nat_eq p q) (some d) (lookup q m)

-- Writing what a slot does not see.
pub slot_of-insert_same :
    (o : Option ℕ) (p : ℕ) (d d' : Details) (m : Map ℕ Details) (f : String)
    → lookup p m ≡ some d
    → seen f (some d') ≡ seen f (some d)
    → slot_of o (insert p d' m) f ≡ slot_of o m f
slot_of-insert_same none p d d' m f there same = refl
slot_of-insert_same (some q) p d d' m f there same = elim (Bool-cases (nat_eq p q)) [
  | inl at ↦
      slot_of-insert (some q) p d' m f
      ∙ if_true _ _ _ at
      ∙ same
      ∙ ap (seen f) (sym there ∙ ap (λ k. lookup k m) ((nat_eq_iff p q).0 at))
  | inr off ↦ slot_of-insert (some q) p d' m f ∙ if_false _ _ _ off
]

pub get_or-some :
    (id : String) (m : Map String (Option ℕ)) (p : ℕ)
    → get_or none id m ≡ some p
    → lookup id m ≡ some (some p)
get_or-some id m p e = ground (arith, e)

-- An object's slots are those of its product only.
module _ (s : Manager) (h : Inv s) where
  elsewhere :
      (j id : String) (p : ℕ)
      → Names s.objects j p
      → (j == id) ≡ false
      → is_at p (get_or none id s.publish_map_by_id) ≡ false
  elsewhere j id p (d, there, name) off = go (get_or none id s.publish_map_by_id) refl
    where
      go : (o : Option ℕ) → get_or none id s.publish_map_by_id ≡ o → is_at p o ≡ false
      go none e = refl
      go (some q) e = elim (Bool-cases (nat_eq p q)) [
        | inl at ↦
            let (x, found, named) = h.named id q (get_or-some id s.publish_map_by_id q e) in
            let x_is_d : d ≡ x =
              some_inj (sym there ∙ ap (λ k. lookup k s.objects) ((nat_eq_iff p q).0 at) ∙ found) in
            let j_is_id : j ≡ id =
              sym name ∙ ap (λ (y : Details). y.data_product_id) x_is_d ∙ named in
            absurd (ground (arith, off, (string_key.beq_iff j id).1 j_is_id))
        | inr away ↦ away
      ]

  pub slot-insert_elsewhere :
      (j id f : String) (p : ℕ) (d : Details)
      → Names s.objects j p
      → (j == id) ≡ false
      → slot_of (get_or none id s.publish_map_by_id) (insert p d s.objects) f ≡ slot id f s
  slot-insert_elsewhere j id f p d named off =
      slot_of-insert (get_or none id s.publish_map_by_id) p d s.objects f
      ∙ if_false _ _ _ (elsewhere j id p named off)

  pub slot-insert_fresh :
      (id f : String) (d : Details)
      → slot_of (get_or none id s.publish_map_by_id) (insert s.next_object d s.objects) f
        ≡ slot id f s
  slot-insert_fresh id f d =
      slot_of-insert (get_or none id s.publish_map_by_id) s.next_object d s.objects f
      ∙ if_false _ _ _ (go (get_or none id s.publish_map_by_id) refl)
    where
      go : (o : Option ℕ) → get_or none id s.publish_map_by_id ≡ o → is_at s.next_object o ≡ false
      go none e = refl
      go (some q) e =
          let (x, found, named) = h.named id q (get_or-some id s.publish_map_by_id q e) in
          ground (arith, found, h.fresh_object q, nat_eq_iff s.next_object q)
