-- ===== src/RequestManager/Expiry.antt =====
-- What the pass over the timeouts keeps, and which passes end.
use gravity.Prelude.{
  ℕ, ◌+◌, ◌≡◌, refl, sym, ap, ◌∙◌, true, false, Bool-cases, inl, inr, ◌⊎◌, List, [], ◌∷◌, Option,
  none, some, some_inj, is_some, nat_eq, nat_eq_iff, ◌/◌, arith, subst, if_true, if_false,
}
use gravity.Prelude.Key.{nat_key}
use gravity.Prelude.Maps.{lookup, erase, lookup-erase}
use gravity.Prelude.Unique.{Unique, erase-Unique}
use gravity.Prelude.Counting.{tick, tally}
use gravity.RequestManager.State.{Details, timed_out, Manager, emit}
use gravity.RequestManager.Timeouts.{
  Pass, erase_poll_item, drop_request, expire, is_due, wait, expire_all, expire_pass,
}
use gravity.RequestManager.Invariant.{Inv, settle-IsConserved}

-- When the loop over the poll items ends at an item that is polled, that is the first one.
erase_poll_item-tally :
    (socket : ℕ) (xs ys : List ℕ) (k : ℕ)
    → erase_poll_item socket xs ≡ some ys
    → (tally (nat_eq socket) xs ≡ 1)
    → tally (nat_eq k) xs ≡ tick (nat_eq k socket) + tally (nat_eq k) ys
erase_poll_item-tally socket [] ys k e h = absurd (omega (arith, h))
erase_poll_item-tally socket (x ∷ xs) ys k e h = elim (Bool-cases (nat_eq socket x)) [
  | inl at ↦
      let same : xs ≡ ys = some_inj (sym (if_true _ _ _ at) ∙ e) in
      omega (
        arith,
        ap (tally (nat_eq k)) same,
        ap (λ y. tick (nat_eq k y)) ((nat_eq_iff socket x).0 at),
      )
  | inr off ↦ absurd (ground (arith, sym (if_false _ _ _ off) ∙ e))
]

expire-Inv :
    (socket : ℕ) (d : Details) (s t : Manager)
    → Inv s
    → lookup socket s.request_map ≡ some d
    → expire socket d s ≡ some t
    → Inv t × (t.request_map ≡ erase socket s.request_map)
unfolding emit
expire-Inv socket d s t (h, polled) there done = go (erase_poll_item socket s.poll_items) refl done
  where
    go :
        (o : Option (List ℕ))
        → erase_poll_item socket s.poll_items ≡ o
        → drop_request socket d o s ≡ some t
        → Inv t × (t.request_map ≡ erase socket s.request_map)
    go none e found = absurd (ground (arith, found))
    go (some items) e found =
        subst (λ (x : Manager). Inv x × (x.request_map ≡ erase socket s.request_map))
          (some_inj found)
          (
            (
              record {
                fresh = λ k n. ground (arith, h.fresh k n, lookup-erase socket k s.request_map);
                unique = erase-Unique socket s.request_map h.unique;
                conserved =
                    settle-IsConserved s.request_map s.outputs (timed_out d) socket d
                      (λ p. (refl, refl)) h.unique there h.conserved;
              },
              λ k. ground (
                arith,
                polled k,
                erase_poll_item-tally socket s.poll_items items k e
                    (polled socket ∙ ap (λ o. tick (is_some o)) there),
                there,
                nat_eq_iff k socket,
                nat_eq_iff socket k,
                lookup-erase socket k s.request_map,
              ),
            ),
            refl,
          )

lookup-first :
    (socket : ℕ) (d : Details) (ds : List (ℕ × Details)) → lookup socket ((socket, d) ∷ ds) ≡ some d
unfolding lookup
lookup-first socket d ds = ground (arith, nat_eq_iff socket socket)

-- The entries that the pass has yet to visit are those of the map.
abbrev IsAhead : List (ℕ × Details) → Manager → Type 0
IsAhead ds s =
    Unique ds × ((k : ℕ) (d : Details) → lookup k ds ≡ some d → lookup k s.request_map ≡ some d)

-- An entry that is not due, or one that is removed.
pub expire_all-cons :
    (clock : ℕ → ℕ) (socket : ℕ) (d : Details) (ds : List (ℕ × Details)) (r r' : Pass)
    → expire_all clock ((socket, d) ∷ ds) r ≡ some r'
    → ((is_due (clock socket / 1000) d.timeout_time_milliseconds ≡ false)
        × (expire_all clock ds (record r {
          next_timeout = wait (clock socket / 1000) d.timeout_time_milliseconds r.next_timeout;
        })
            ≡ some r'))
      ⊎ ((is_due (clock socket / 1000) d.timeout_time_milliseconds ≡ true)
          × ((s : Manager) × (expire socket d r.manager ≡ some s)
              × (expire_all clock ds (record r { manager = s }) ≡ some r')))
unfolding expire_all
expire_all-cons clock socket d ds r r' done =
    elim (Bool-cases (is_due (clock socket / 1000) d.timeout_time_milliseconds)) [
      | inr late ↦ inl (late, sym (if_false _ _ _ late) ∙ done)
      | inl due ↦ inr (due, go (expire socket d r.manager) refl (sym (if_true _ _ _ due) ∙ done))
    ]
  where
    go :
        (o : Option Manager)
        → expire socket d r.manager ≡ o
        → elim o [ none ↦ none | some s ↦ expire_all clock ds (record r { manager = s }) ] ≡ some r'
        → (s : Manager) × (expire socket d r.manager ≡ some s)
          × (expire_all clock ds (record r { manager = s }) ≡ some r')
    go none e found = absurd (ground (arith, found))
    go (some s) e found = (s, e, found)

rest-IsAhead :
    (socket : ℕ) (d : Details) (ds : List (ℕ × Details)) (s t : Manager)
    → IsAhead ((socket, d) ∷ ds) s
    → (t.request_map ≡ s.request_map) ⊎ (t.request_map ≡ erase socket s.request_map)
    → IsAhead ds t
unfolding lookup
rest-IsAhead socket d ds s t (u, same) e = (
  u.1,
  λ k x there.
      let here : lookup k s.request_map ≡ some x =
        same k x (ground (arith, u.0, there, nat_eq_iff socket k)) in
      elim e [
        | inl kept ↦ ap (lookup k) kept ∙ here
        | inr erased ↦
            ap (lookup k) erased
            ∙ ground
                (arith, u.0, there, here, lookup-erase socket k s.request_map, nat_eq_iff socket k)
      ],
)

expire_all-Inv :
    (clock : ℕ → ℕ) (ds : List (ℕ × Details)) (r r' : Pass)
    → Inv r.manager
    → IsAhead ds r.manager
    → expire_all clock ds r ≡ some r'
    → Inv r'.manager
unfolding expire_all
expire_all-Inv clock [] r r' h ahead done = subst (λ (x : Pass). Inv x.manager) (some_inj done) h
expire_all-Inv clock ((socket, d) ∷ ds) r r' h ahead done =
    elim (expire_all-cons clock socket d ds r r' done) [
      | inl (late, rest) ↦
          expire_all-Inv clock ds _ r' h
            (rest-IsAhead socket d ds r.manager r.manager ahead (inl refl)) rest
      | inr (due, (s, gone, rest)) ↦
          let (inv, erased) =
            expire-Inv socket d r.manager s h (ahead.1 socket d (lookup-first socket d ds)) gone in
          expire_all-Inv clock ds _ r' inv (rest-IsAhead socket d ds r.manager s ahead (inr erased))
            rest
    ]

-- A pass over the timeouts that ends keeps the requests, their sockets and the poll items in agreement.
pub expire_pass-Inv :
    (clock : ℕ → ℕ) (s : Manager) (r : Pass) → Inv s → expire_pass clock s ≡ some r → Inv r.manager
unfolding expire_pass
expire_pass-Inv clock s r h done =
    expire_all-Inv clock s.request_map _ r h (h.0.unique, λ k d e. e) done
