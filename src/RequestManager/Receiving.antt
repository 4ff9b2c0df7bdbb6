-- ===== src/RequestManager/Receiving.antt =====
-- The answers keep the invariant, and no answer meets a missing request.
use gravity.Prelude.{
  ℕ, String, ◌+◌, ◌≤◌, ◌≡◌, refl, ap, ◌∙◌, Bool, Bool-cases, inl, inr, List, [], ◌∷◌, ◌++◌, Option,
  none, some, Option-cases, nat_eq, nat_eq_iff, arith, if_true, if_false,
}
use gravity.Prelude.Key.{nat_key}
use gravity.Prelude.Maps.{lookup, has, insert, erase, lookup-insert, lookup-erase}
use gravity.Prelude.Unique.{insert-Unique, erase-Unique}
use gravity.Prelude.Counting.{tick, tally, tally-append, tally_values-insert, tally_values-erase}
use gravity.DataProduct.{Product}
use gravity.RequestManager.State.{Details, future_request, Manager, emit}
use gravity.RequestManager.Answers.{
  delivery, deliver, await, close_request, receive_for, new_items, Received, keep_item, add_items,
  receive_rest, receive_item, receive, receive_all, receive_answers,
}
use gravity.RequestManager.Invariant.{Inv, asks, settles, Core, CoreOf, asks-last, settles-last}

module _ (p : Details → Bool) (directory_url : String) (d : Details) (response : Product) where
  asks-delivery : tally (asks p) (delivery directory_url d response) ≡ 0
  asks-delivery = ground arith

  settles-delivery : tally (settles p) (delivery directory_url d response) ≡ tick (p d)
  settles-delivery = ground arith

-- what an answer at a socket leaves
abbrev Settled : ℕ → Product → Manager → Manager → Type 0
Settled x response s t =
    CoreOf t
    × ((k : ℕ)
        → tally (nat_eq k) (new_items response s) + tick (has k s.request_map)
          ≡ tick (has k t.request_map) + tick (nat_eq k x))

module _ (x : ℕ) (d : Details) (response : Product) (s : Manager) (h : CoreOf s)
    (there : lookup x s.request_map ≡ some d) where
  delivered : Core s.next_socket (erase x s.request_map) (deliver d response s).outputs
  delivered = record {
    fresh = λ k n. ground (arith, n, h.fresh k, lookup-erase x k s.request_map);
    unique = erase-Unique x s.request_map h.unique;
    conserved = λ p. omega (
      arith,
      h.conserved p,
      asks-delivery p s.service_directory_url d response,
      settles-delivery p s.service_directory_url d response,
      tally-append (asks p) s.outputs (delivery s.service_directory_url d response),
      tally-append (settles p) s.outputs (delivery s.service_directory_url d response),
      tally_values-erase p x d s.request_map h.unique there,
    );
  }

  awaited :
      Core
        (await d response s).next_socket
        (erase x (await d response s).request_map)
        (await d response s).outputs
  unfolding emit
  awaited = record {
    fresh = λ k n. ground (
      arith,
      n,
      h.fresh k,
      lookup-erase x k (insert s.next_socket d s.request_map),
      lookup-insert s.next_socket k d s.request_map,
      nat_eq_iff s.next_socket k,
    );
    unique = erase-Unique x _ (insert-Unique s.next_socket d s.request_map h.unique);
    conserved = λ p. omega (
      arith,
      h.conserved p,
      asks-last p s.outputs (future_request response.future_socket_url),
      settles-last p s.outputs (future_request response.future_socket_url),
      tally_values-insert p s.next_socket d s.request_map (h.fresh s.next_socket (omega arith)),
      tally_values-erase p x d (insert s.next_socket d s.request_map)
          (insert-Unique s.next_socket d s.request_map h.unique)
          (ground (
            arith,
            there,
            h.fresh s.next_socket,
            lookup-insert s.next_socket x d s.request_map,
            nat_eq_iff s.next_socket x,
          )),
    );
  }

  receive-Settled : (t : Manager) × (receive x response s ≡ some t) × Settled x response s t
  unfolding emit
  receive-Settled =
      let at_x : receive x response s ≡ receive_for x response (some d) s =
        ap (λ o. receive_for x response o s) there in
      elim (Bool-cases response.future_response) [
        | inl future ↦ (
          close_request x (await d response s),
          at_x ∙ ap (λ m. some (close_request x m)) (if_true _ _ _ future),
          (
            awaited,
            λ k. ground (
              arith,
              future,
              there,
              h.fresh s.next_socket,
              lookup-erase x k (insert s.next_socket d s.request_map),
              lookup-insert s.next_socket k d s.request_map,
              nat_eq_iff s.next_socket k,
              nat_eq_iff k s.next_socket,
              nat_eq_iff x k,
              nat_eq_iff k x,
            ),
          ),
        )
        | inr now ↦ (
          close_request x (deliver d response s),
          at_x ∙ ap (λ m. some (close_request x m)) (if_false _ _ _ now),
          (
            delivered,
            λ k.
                ground (
                  arith,
                  now,
                  there,
                  lookup-erase x k s.request_map,
                  nat_eq_iff x k,
                  nat_eq_iff k x,
                ),
          ),
        )
      ]

-- The poll items of what is received, and those that waited, are those of the requests.
abbrev Balanced : List ℕ → Manager → Received → Type 0
Balanced xs s r =
    (k : ℕ)
    → tally (nat_eq k) r.kept + tally (nat_eq k) r.new + tick (has k s.request_map)
      ≡ tick (has k r.manager.request_map) + tally (nat_eq k) xs

abbrev IsDone : (ℕ → Option Product) → List ℕ → Manager → Type 0
IsDone messages xs s =
    (r : Received) × (receive_all messages xs s ≡ some r) × CoreOf r.manager × Balanced xs s r

receive_all-IsDone :
    (messages : ℕ → Option Product) (xs : List ℕ) (s : Manager)
    → CoreOf s
    → ((k : ℕ) → tally (nat_eq k) xs ≤ tick (has k s.request_map))
    → IsDone messages xs s
unfolding receive_all
receive_all-IsDone messages [] s h within =
    (record { kept = []; new = []; manager = s }, refl, h, λ k. omega arith)
receive_all-IsDone messages (x ∷ xs) s h within = elim (Option-cases (messages x)) [
  | inl silent ↦
      let (r, done, core, balanced) =
        receive_all-IsDone messages xs s h (λ k. omega (arith, within k)) in
      (
        record r { kept = x ∷ r.kept },
        ap (receive_item x (receive_all messages xs) s) silent ∙ ap (keep_item x) done,
        core,
        λ k. omega (arith, balanced k),
      )
  | inr (response, here) ↦ elim (Option-cases (lookup x s.request_map)) [
    | inl missing ↦ absurd (ground (arith, within x, nat_eq_iff x x, missing))
    | inr (d, there) ↦
        let (t, received, settled) = receive-Settled x d response s h there in
        let (r, done, core, balanced) =
          receive_all-IsDone messages xs t settled.0 (λ k. omega (arith, within k, settled.1 k)) in
        (
          record r { new = new_items response s ++ r.new },
          ap (receive_item x (receive_all messages xs) s) here
              ∙ ap (receive_rest (new_items response s) (receive_all messages xs)) received
              ∙ ap (add_items (new_items response s)) done,
          core,
          λ k. omega (
            arith,
            balanced k,
            settled.1 k,
            tally-append (nat_eq k) (new_items response s) r.new,
          ),
        )
  ]
]

-- The answers never meet a missing request, and keep the invariant.
pub receive_answers_total :
    (messages : ℕ → Option Product) (s : Manager)
    → Inv s
    → (t : Manager) × (receive_answers messages s ≡ some t) × Inv t
unfolding receive_answers
receive_answers_total messages s (h, polled) =
    let (r, done, core, balanced) =
      receive_all-IsDone messages s.poll_items s h (λ k. omega (arith, polled k)) in
    (
      record r.manager { poll_items = r.kept ++ r.new },
      ap
          (λ o. elim o [
            | none ↦ none
            | some x ↦ some (record x.manager { poll_items = x.kept ++ x.new })
          ])
          done,
      (core, λ k. omega (arith, balanced k, polled k, tally-append (nat_eq k) r.kept r.new)),
    )
