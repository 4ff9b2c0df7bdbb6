-- ===== src/PublishManager/Invariant.antt =====
-- The operations of the node keep the agreement.
use gravity.Prelude.{ℕ, ◌≡◌, refl, String, Bool, true, false, Option, none, some, is_some, arith}
use gravity.Prelude.Key.{string_key, nat_key}
use gravity.Prelude.Maps.{lookup, insert}
use gravity.Ports.{Url, bound_url}
use gravity.PublishManager.State.{Details, Manager}
use gravity.PublishManager.Commands.{
  Registration, add_publisher, register_data_product, forget_values, remove_publisher, remove_known,
  touch_id,
}
use gravity.PublishManager.Agreement.{Inv, write-Agrees, touch-Agrees, remove-Agrees, add-Agrees}

add_publisher-Inv :
    (r : Registration) (o : Option Url) (s : Manager) → Inv s → Inv (add_publisher r o s).1
unfolding add_publisher
add_publisher-Inv r none s h = record {
  fresh_object = h.fresh_object;
  fresh_socket = λ k n. h.fresh_socket k (omega (arith, n));
  named = h.named;
  linked = h.linked;
  polled = h.polled;
}
add_publisher-Inv r (some url) s h =
    add-Agrees s.objects s.next_object s.next_socket s.publish_map_by_socket s.publish_map_by_id
      s.poll_items h r url

pub register-Inv :
    (can_open : Bool) (can_bind : Url → Bool) (r : Registration) (s : Manager)
    → Inv s
    → Inv (register_data_product can_open can_bind r s).1
unfolding register_data_product
register-Inv true can_bind r s h = add_publisher-Inv r (bound_url can_bind r.binding) s h
register-Inv false can_bind r s h = h

remove_publisher_total :
    (id : String) (p : ℕ) (o : Option Details) (s : Manager)
    → Inv s
    → lookup p s.objects ≡ o
    → is_some o ≡ true
    → (t : Manager) × (remove_publisher id p o s ≡ some t) × Inv t
unfolding remove_publisher forget_values
remove_publisher_total id p none s h e here = absurd (ground (arith, here))
remove_publisher_total id p (some d) s h e here = (
  _,
  refl,
  remove-Agrees _ s.next_object s.next_socket s.publish_map_by_socket s.publish_map_by_id
      s.poll_items
      (write-Agrees s.objects s.next_object s.next_socket s.publish_map_by_socket
        s.publish_map_by_id s.poll_items h p d (forget_values d) e refl)
      id d.socket,
)

abbrev pub is_null : Option (Option ℕ) → Bool
is_null none = false
is_null (some none) = true
is_null (some (some p)) = false

pub remove_known_total :
    (id : String) (o : Option (Option ℕ)) (s : Manager)
    → Inv s
    → lookup id s.publish_map_by_id ≡ o
    → is_null o ≡ false
    → (t : Manager) × (remove_known id o s ≡ some t) × Inv t
unfolding remove_known
remove_known_total id none s h e safe = (s, refl, h)
remove_known_total id (some none) s h e safe = absurd (ground (arith, safe))
remove_known_total id (some (some p)) s h e safe =
    let (d, found, name) = h.named id p e in
    remove_publisher_total id p (lookup p s.objects) s h refl (ground (arith, found))

pub touch_id-Inv : (id : String) (s : Manager) → Inv s → Inv (touch_id id s)
unfolding touch_id
touch_id-Inv id s h =
    touch-Agrees s.objects s.next_object s.next_socket s.publish_map_by_socket s.publish_map_by_id
      s.poll_items h id

-- Writing an object of the state.
pub write-Inv :
    (s : Manager)
    → Inv s
    → (p : ℕ) (d d' : Details) → lookup p s.objects ≡ some d
    → d'.data_product_id ≡ d.data_product_id
    → Inv (record s { objects = insert p d' s.objects })
write-Inv s h =
    write-Agrees s.objects s.next_object s.next_socket s.publish_map_by_socket s.publish_map_by_id
      s.poll_items h
