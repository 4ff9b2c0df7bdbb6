-- ===== src/RequestManager/Endings.antt =====
-- Which passes over the timeouts end, and what they tell the requestors.
use gravity.Prelude.{
  ℕ, ◌≡◌, refl, sym, ap, ◌∙◌, true, false, Bool-cases, inl, inr, List, [], ◌∷◌, ◌++◌, Option, none,
  some, some_inj, nat_eq, nat_eq_iff, ◌/◌, if◌then◌else◌, arith, if_true, if_false,
}
use gravity.Prelude.Key.{nat_key}
use gravity.Prelude.Maps.{lookup}
use gravity.Prelude.Unique.{Unique}
use gravity.RequestManager.State.{Details, Output, timed_out, Manager, emit}
use gravity.RequestManager.Invariant.{Inv}
use gravity.RequestManager.Timeouts.{
  Pass, erase_poll_item, drop_request, expire, is_due, wait, expire_all, expire_pass,
}

-- The entries that are due by the clock.
abbrev pub due_entries : (ℕ → ℕ) → List (ℕ × Details) → List (ℕ × Details)
due_entries clock [] = []
due_entries clock ((socket, d) ∷ ds) =
    let rest = due_entries clock ds in
    if is_due (clock socket / 1000) d.timeout_time_milliseconds then (socket, d) ∷ rest else rest

abbrev pub sockets : List (ℕ × Details) → List ℕ
sockets [] = []
sockets ((socket, d) ∷ ds) = socket ∷ sockets ds

abbrev pub timeouts : List (ℕ × Details) → List Output
timeouts [] = []
timeouts ((socket, d) ∷ ds) = timed_out d ∷ timeouts ds

append_last : (xs ys : List Output) (o : Output) → (xs ++ o ∷ []) ++ ys ≡ xs ++ o ∷ ys
append_last [] ys o = refl
append_last (x ∷ xs) ys o = ap (◌∷◌ x) (append_last xs ys o)

append_nil : (xs : List Output) → xs ≡ xs ++ []
append_nil [] = refl
append_nil (x ∷ xs) = ap (◌∷◌ x) (append_nil xs)

expire_all-due :
    (clock : ℕ → ℕ) (socket : ℕ) (d : Details) (ds : List (ℕ × Details)) (r : Pass)
    (o : Option Manager)
    → is_due (clock socket / 1000) d.timeout_time_milliseconds ≡ true
    → expire socket d r.manager ≡ o
    → expire_all clock ((socket, d) ∷ ds) r
      ≡ elim o [ none ↦ none | some s ↦ expire_all clock ds (record r { manager = s }) ]
unfolding expire_all
expire_all-due clock socket d ds r o due gone =
    if_true _ _ _ due
    ∙ ap (λ x. elim x [ none ↦ none | some s ↦ expire_all clock ds (record r { manager = s }) ])
        gone

expire_all-late :
    (clock : ℕ → ℕ) (socket : ℕ) (d : Details) (ds : List (ℕ × Details)) (r : Pass)
    → is_due (clock socket / 1000) d.timeout_time_milliseconds ≡ false
    → expire_all clock ((socket, d) ∷ ds) r
      ≡ expire_all clock ds (record r {
        next_timeout = wait (clock socket / 1000) d.timeout_time_milliseconds r.next_timeout;
      })
unfolding expire_all
expire_all-late clock socket d ds r late = if_false _ _ _ late

expire-first :
    (socket : ℕ) (d : Details) (s : Manager) (ys : List ℕ)
    → s.poll_items ≡ socket ∷ ys
    → expire socket d s ≡ drop_request socket d (some ys) s
expire-first socket d s ys e =
    ap (λ o. drop_request socket d o s)
      (ap (erase_poll_item socket) e ∙ if_true _ _ _ ((nat_eq_iff socket socket).1 refl))

expire_all-ends :
    (clock : ℕ → ℕ) (ds : List (ℕ × Details)) (r : Pass) (ys : List ℕ)
    → r.manager.poll_items ≡ sockets (due_entries clock ds) ++ ys
    → (r' : Pass) × (expire_all clock ds r ≡ some r')
      × (r'.manager.poll_items ≡ ys)
      × (r'.manager.outputs ≡ r.manager.outputs ++ timeouts (due_entries clock ds))
unfolding expire_all emit
expire_all-ends clock [] r ys e = (r, refl, e, append_nil r.manager.outputs)
expire_all-ends clock ((socket, d) ∷ ds) r ys e =
    elim (Bool-cases (is_due (clock socket / 1000) d.timeout_time_milliseconds)) [
      | inr late ↦
          let (r', done, items, outputs) =
            expire_all-ends clock ds _ ys (e ∙ ap (λ l. sockets l ++ ys) (if_false _ _ _ late)) in
          (
            r',
            expire_all-late clock socket d ds r late ∙ done,
            items,
            outputs ∙ ap (λ l. r.manager.outputs ++ timeouts l) (sym (if_false _ _ _ late)),
          )
      | inl due ↦
          let items_are : r.manager.poll_items ≡ socket ∷ sockets (due_entries clock ds) ++ ys =
            e ∙ ap (λ l. sockets l ++ ys) (if_true _ _ _ due) in
          let (r', done, items, outputs) = expire_all-ends clock ds _ ys refl in
          (
            r',
            expire_all-due clock socket d ds r _ due (expire-first socket d r.manager _ items_are)
                ∙ done,
            items,
            outputs
                ∙ append_last r.manager.outputs (timeouts (due_entries clock ds)) (timed_out d)
                ∙ ap (λ l. r.manager.outputs ++ timeouts l) (sym (if_true _ _ _ due)),
          )
    ]

-- When the sockets of the requests that are due are the first poll items, in the order of the
-- request map, the pass ends: it tells just their requestors, in that order, that their time is
-- out, and polls the other sockets only.
pub expire_pass-ends :
    (clock : ℕ → ℕ) (s : Manager) (ys : List ℕ)
    → s.poll_items ≡ sockets (due_entries clock s.request_map) ++ ys
    → (r : Pass) × (expire_pass clock s ≡ some r)
      × (r.manager.poll_items ≡ ys)
      × (r.manager.outputs ≡ s.outputs ++ timeouts (due_entries clock s.request_map))
unfolding expire_pass
expire_pass-ends clock s ys e = expire_all-ends clock s.request_map _ ys e

expire-other :
    (socket : ℕ) (d : Details) (s : Manager) (x : ℕ) (xs : List ℕ)
    → s.poll_items ≡ x ∷ xs
    → nat_eq socket x ≡ false
    → expire socket d s ≡ none
expire-other socket d s x xs e off =
    ap (λ o. drop_request socket d o s) (ap (erase_poll_item socket) e ∙ if_false _ _ _ off)

expire_all-stuck :
    (clock : ℕ → ℕ) (ds : List (ℕ × Details)) (r : Pass) (x : ℕ) (xs : List ℕ)
    → Unique ds
    → r.manager.poll_items ≡ x ∷ xs
    → ((d : Details)
        → lookup x ds ≡ some d
        → is_due (clock x / 1000) d.timeout_time_milliseconds ≡ false)
    → (k : ℕ) (d : Details) → lookup k ds ≡ some d
    → is_due (clock k / 1000) d.timeout_time_milliseconds ≡ true
    → expire_all clock ds r ≡ none
unfolding lookup
expire_all-stuck clock [] r x xs u e first k d there due = absurd (ground (arith, there))
expire_all-stuck clock ((socket, c) ∷ ds) r x xs u e first k d there due =
    elim (Bool-cases (is_due (clock socket / 1000) c.timeout_time_milliseconds)) [
      | inr late ↦
          expire_all-late clock socket c ds r late
          ∙ expire_all-stuck clock ds _ x xs u.1 e
              (λ d' here. first d' (ground (arith, here, u.0, nat_eq_iff socket x))) k d
              (elim (Bool-cases (nat_eq socket k)) [
                | inl at ↦ absurd (
                    ground (
                      arith,
                      sym (
                            ap
                              (λ (y : Details).
                                is_due (clock socket / 1000) y.timeout_time_milliseconds)
                              (some_inj (sym (if_true _ _ _ at) ∙ there)))
                          ∙ late,
                      ap (λ j. is_due (clock j / 1000) d.timeout_time_milliseconds)
                          (sym ((nat_eq_iff socket k).0 at)),
                      due,
                    ))
                | inr off ↦ sym (if_false _ _ _ off) ∙ there
              ])
              due
      | inl now ↦ elim (Bool-cases (nat_eq socket x)) [
        | inl at ↦ absurd (
            ground (
              arith,
              now,
              first c (if_true _ _ _ at),
              ap (λ j. is_due (clock j / 1000) c.timeout_time_milliseconds)
                  ((nat_eq_iff socket x).0 at),
            ))
        | inr off ↦
            expire_all-due clock socket c ds r none now (expire-other socket c r.manager x xs e off)
      ]
    ]

-- When the first poll item is that of a request that is not due, and some request is due, the
-- pass over the timeouts does not end.
pub expire_pass-stuck :
    (clock : ℕ → ℕ) (s : Manager) (x : ℕ) (xs : List ℕ)
    → Inv s
    → s.poll_items ≡ x ∷ xs
    → ((d : Details)
        → lookup x s.request_map ≡ some d
        → is_due (clock x / 1000) d.timeout_time_milliseconds ≡ false)
    → (k : ℕ) (d : Details) → lookup k s.request_map ≡ some d
    → is_due (clock k / 1000) d.timeout_time_milliseconds ≡ true
    → expire_pass clock s ≡ none
unfolding expire_pass
expire_pass-stuck clock s x xs h = expire_all-stuck clock s.request_map _ x xs h.0.unique
