-- ===== src/PublishManager/Resend.antt =====
-- What a new subscriber is sent.
use gravity.Prelude.{
  ℕ, ◌≡◌, refl, sym, ap, ◌∙◌, subst, String, true, List, [], ◌∷◌, ◌++◌, map, some, some_inj,
  if_true, is_some,
}
use gravity.Prelude.Key.{nat_key}
use gravity.Prelude.Maps.{Map, lookup}
use gravity.Prelude.Sorting.{sort_by, IsSortedBy, sort_by-Perm, sort_by-IsSortedBy}
use gravity.PollItems.{is_polled}
use gravity.DataProduct.{Product}
use gravity.PublishManager.State.{CacheValue, Details, Manager}
use gravity.PublishManager.Publishing.{values, note_subscribers, note_at, subscription}
use gravity.PublishManager.Loop.{subscribed, step}
use gravity.PublishManager.Agreement.{Inv}
use mathlib.Core.List.{Perm}

values-map : (m : Map String CacheValue) → values m ≡ map (λ e. e.1) m
unfolding values
values-map [] = refl
values-map ((k, v) ∷ m) = ap (◌∷◌ v) (values-map m)

-- A new subscriber at a publisher's socket, in a state whose maps and poll items agree, is sent,
-- behind what was sent before, a message for each value that the map of cached values has, once
-- each and in the order of their times: at that publisher's socket, with the value's filter, and
-- with its product marked as cached.
pub step-subscribed-resent :
    (size_of : Product → ℕ) (socket p : ℕ) (d : Details) (s t : Manager)
    → Inv s
    → lookup socket s.publish_map_by_socket ≡ some p
    → lookup p s.objects ≡ some d
    → step size_of (subscribed socket true) s ≡ some t
    → (vs : List CacheValue) × (t.sent
        ≡ s.sent
          ++ map
              (λ v. record {
                socket = d.socket;
                filter_text = v.filter_text;
                product = record v.value { is_cached = true };
              })
              vs)
      × Perm vs (map (λ e. e.1) d.last_cached_values)
      × IsSortedBy (λ v. v.timestamp) vs
unfolding step subscription note_at note_subscribers
step-subscribed-resent size_of socket p d s t h leads there done =
    let here : is_polled socket s.poll_items ≡ true = h.polled socket ∙ ap is_some leads in
    let same : note_at true (lookup socket s.publish_map_by_socket) s ≡ some t =
      sym (if_true _ _ _ here) ∙ done in
    let at_p : note_subscribers true p (lookup p s.objects) s ≡ some t =
      sym (ap (λ o. note_at true o s) leads) ∙ same in
    let u_is_t = sym (ap (λ o. note_subscribers true p o s) there) ∙ at_p in
    (
      sort_by (λ v. v.timestamp) (values d.last_cached_values),
      ap (λ (x : Manager). x.sent) (sym (some_inj u_is_t)),
      subst (Perm (sort_by (λ v. v.timestamp) (values d.last_cached_values)))
          (values-map d.last_cached_values)
          (sort_by-Perm (λ v. v.timestamp) (values d.last_cached_values)),
      sort_by-IsSortedBy (λ v. v.timestamp) (values d.last_cached_values),
    )
