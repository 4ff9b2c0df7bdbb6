-- ===== src/SubscriptionManager/Fresh.antt =====
-- The products that subscribers get are never older than those before.
use gravity.Prelude.{
  ℕ, ◌≤◌, ◌≡◌, refl, sym, ◌∙◌, Bool, true, false, not, ◌&&◌, List, [], ◌∷◌, Option, none, some,
  nat_eq, nat_eq_iff, arith, if_true, if_cases, subst,
}
use gravity.Prelude.Key.{nat_key}
use gravity.Prelude.Maps.{Map, get_or, insert, touch, get_or-insert, get_or-touch}
use gravity.DataProduct.{Product}
use gravity.SubscriptionManager.Incoming.{is_newer, is_new, Batch, accept, take_product, read_all}

abbrev pub last_time : Option Product → ℕ
last_time none = 0
last_time (some q) = q.timestamp

-- Each product is of the publisher with the registration time, no older than the one before, the
-- first no older than a time, and none is a cached one for a receiver that does not want these.
abbrev pub IsDeliverable : Bool → ℕ → ℕ → List Product → Type 0
IsDeliverable receive time t [] = Unit
IsDeliverable receive time t (q ∷ qs) =
    ((t ≤ q.timestamp) × (q.registration_time ≡ time) × ((q.is_cached && not receive) ≡ false))
    × IsDeliverable receive time q.timestamp qs

module _ (receive : Bool) (time socket : ℕ) where
  weaken :
      (t u : ℕ) (qs : List Product)
      → t ≤ u
      → IsDeliverable receive time u qs
      → IsDeliverable receive time t qs
  weaken t u [] h a = tt
  weaken t u (q ∷ qs) h ((later, right, wanted), rest) =
      ((omega (arith, h, later), right, wanted), rest)

  is_newer-later :
      (q : Product) (o : Option Product) → is_newer q o ≡ true → last_time o ≤ q.timestamp
  is_newer-later q none h = omega arith
  is_newer-later q (some l) h = ground (arith, h)

  abbrev pub last_cached : Map ℕ (Option Product) → ℕ
  last_cached m = last_time (get_or none socket m)

  take_product-IsDeliverable :
      (now : ℕ) (q : Product) (cached : Map ℕ (Option Product))
      (rest : Map ℕ (Option Product) → Batch)
      → q.registration_time ≡ time
      → ((m : Map ℕ (Option Product))
          → IsDeliverable receive time (last_cached m) (rest m).accepted)
      → IsDeliverable receive time
          (last_cached cached)
          (take_product receive socket now q cached rest).accepted
  take_product-IsDeliverable now q cached rest right h =
      if_cases (λ (b : Batch). IsDeliverable receive time (last_cached cached) b.accepted)
        (is_new q (get_or none socket cached) cached) _ (rest cached)
        (λ new.
          let later : last_cached cached ≤ q.timestamp =
            is_newer-later q (get_or none socket cached) (ground (arith, new)) in
          let stamped : Product = record q { received_timestamp = now } in
          let m : Map ℕ (Option Product) = insert socket (some stamped) cached in
          let behind : IsDeliverable receive time q.timestamp (rest m).accepted =
            subst (λ o. IsDeliverable receive time (last_time o) (rest m).accepted)
              (get_or-insert none socket socket (some stamped) cached
                ∙ if_true _ _ _ ((nat_eq_iff socket socket).1 refl))
              (h m) in
          if_cases (λ (b : Batch). IsDeliverable receive time (last_cached cached) b.accepted)
            (q.is_cached && not receive) (rest m) (accept stamped (rest m))
            (λ skipped. weaken (last_cached cached) q.timestamp (rest m).accepted later behind)
            (λ wanted. ((later, right, wanted), behind)))
        (λ old. h cached)

  -- The products that are read at a socket for its subscribers are all of the publisher with the
  -- registration time of the socket, none is older than the one before or than the value that was
  -- cached for the socket, and none is a cached product when these are not wanted.
  pub read_all-IsDeliverable :
      (qs : List (ℕ × Product)) (cached : Map ℕ (Option Product))
      → IsDeliverable receive time
          (last_cached cached)
          (read_all receive time socket qs cached).accepted
  unfolding read_all
  read_all-IsDeliverable [] cached = tt
  read_all-IsDeliverable ((now, q) ∷ qs) cached =
      if_cases (λ (b : Batch). IsDeliverable receive time (last_cached cached) b.accepted)
        (nat_eq time q.registration_time) _ _
        (λ same.
          subst
            (λ o.
              IsDeliverable receive time (last_time o)
                (take_product receive socket now q (touch none socket cached)
                  (read_all receive time socket qs)).accepted)
            (get_or-touch none socket socket cached)
            (take_product-IsDeliverable now q (touch none socket cached)
              (read_all receive time socket qs) (sym ((nat_eq_iff time q.registration_time).0 same))
              (read_all-IsDeliverable qs)))
        (λ other. tt)
