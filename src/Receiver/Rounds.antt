-- ===== src/Receiver/Rounds.antt =====
-- The loop over the expected times, and whole histories of the receiver.
use gravity.Prelude.{
  ℕ, ◌-◌, ◌<◌, ◌≡◌, refl, ◌∙◌, String, true, false, Bool-cases, inl, inr, List, [], ◌∷◌, Option,
  none, some, leb, arith,
}
use gravity.Prelude.Key.{◌==◌, string_key, beq_refl}
use gravity.Prelude.Maps.{Map, lookup, has, erase, lookup-insert, lookup-erase}
use gravity.Prelude.Unique.{Unique, erase-Unique}
use gravity.Timeval.{Timeval, add_time, is_due, zero_time}
use gravity.Receiver.{
  Receiver, Scan, send, drop_domain, wait_for, miss_one, miss_known, miss, check_time, check_times,
  forget_times, Arrival, message, timed_out, empty_message, arrive, expire, round, rounds, init,
}
use gravity.Receiver.Legal.{
  InStep, hear-InStep, drop_domain-InStep, wait_for-InStep, miss_one-InStep,
}
use gravity.Receiver.Keys.{
  elem, KeysAgree, hear-KeysAgree, wait_for-KeysAgree, drop_domain-KeysAgree, miss_one-KeysAgree,
}

record ScanInv (removed : List String) (s : Receiver) : Type 0 where
  in_step : InStep s
  keys : KeysAgree removed s

-- A round of the loop leaves the expected times of other domains, and whether they go.
record Others (d : String) (removed : List String) (s : Receiver) (removed' : List String)
    (t : Receiver) : Type 0 where
  times :
      (k : String)
      → (d == k) ≡ false
      → has k t.expected_msg_time_map ≡ has k s.expected_msg_time_map
  going : (k : String) → (d == k) ≡ false → elem k removed' ≡ elem k removed

-- The round did not throw.
abbrev Continues : String → List String → Receiver → Option Scan → Type 0
Continues d removed s result =
    (removed' : List String) × (t : Receiver) × (result ≡ some (removed', t))
    × ScanInv removed' t
    × Others d removed s removed' t

module _ (d : String) (time now : Timeval) (removed : List String) (s : Receiver)
    (h : ScanInv removed s) where
  dropped : Continues d removed s (some (d ∷ removed, drop_domain d s))
  unfolding drop_domain send
  dropped = (
    d ∷ removed,
    drop_domain d s,
    refl,
    record {
      in_step = drop_domain-InStep d s h.in_step;
      keys = drop_domain-KeysAgree removed d s h.keys;
    },
    record { times = λ k e. ground arith; going = λ k e. rw e },
  )

  missed :
      (known : ℕ) (next : Timeval)
      → lookup d s.received_count_map ≡ some known
      → 1 < known
      → Continues d removed s (some (removed, miss_one d (known - 1) next now s))
  unfolding miss_one wait_for
  missed known next e more = (
    removed,
    miss_one d (known - 1) next now s,
    refl,
    record {
      in_step = miss_one-InStep d (known - 1) next now s h.in_step;
      keys = miss_one-KeysAgree removed d known next now s h.keys e more;
    },
    record {
      times = λ k n. ground (arith, n, lookup-insert d k next s.expected_msg_time_map);
      going = λ k n. refl;
    },
  )

  miss_known_total :
      (o r : Option ℕ)
      → lookup d s.received_count_map ≡ o
      → lookup d s.broadcast_rate_map ≡ r
      → has d s.expected_msg_time_map ≡ true
      → elem d removed ≡ false
      → Continues d removed s (miss_known o r d time now (removed, s))
  unfolding miss_known
  miss_known_total none r e f there stays = absurd (ground (arith, h.keys.agree d, e, there, stays))
  miss_known_total (some known) none e f there stays = absurd (ground (arith, h.keys.agree d, e, f))
  miss_known_total (some known) (some r) e f there stays = elim (Bool-cases (leb known 1)) [
    | inl last ↦ rw last dropped
    | inr more ↦ rw more (missed known (add_time time r) e (ground arith))
  ]

  check_time_total :
      has d s.expected_msg_time_map ≡ true
      → elem d removed ≡ false
      → Continues d removed s (check_time d time now (removed, s))
  unfolding check_time miss wait_for
  check_time_total there stays = elim (Bool-cases (is_due time now)) [
    | inl due ↦ rw due (
        miss_known_total (lookup d s.received_count_map) (lookup d s.broadcast_rate_map) refl refl
          there stays)
    | inr early ↦ rw early (
      removed,
      wait_for time now s,
      refl,
      record {
        in_step = wait_for-InStep time now s h.in_step;
        keys = wait_for-KeysAgree removed time now s h.keys;
      },
      record { times = λ k n. refl; going = λ k n. refl },
    )
  ]

-- The domains that the loop has still to look at are expected and stay.
abbrev Waiting : Map String Timeval → List String → Receiver → Type 0
Waiting m removed s =
    (k : String)
    → has k m ≡ true
    → (has k s.expected_msg_time_map ≡ true) × (elem k removed ≡ false)

Waiting-tail :
    (d : String) (time : Timeval) (rest : Map String Timeval) (removed removed' : List String)
    (s t : Receiver)
    → Unique ((d, time) ∷ rest)
    → Others d removed s removed' t
    → Waiting ((d, time) ∷ rest) removed s
    → Waiting rest removed' t
unfolding lookup
Waiting-tail d time rest removed removed' s t u o w k here =
    let apart : (d == k) ≡ false = ground (arith, u.0, here, string_key.beq_iff d k) in
    let before = w k (ground (arith, apart, here)) in
    (o.times k apart ∙ before.0, o.going k apart ∙ before.1)

check_times_total :
    (m : Map String Timeval) (now : Timeval) (removed : List String) (s : Receiver)
    → ScanInv removed s
    → Unique m
    → Waiting m removed s
    → (removed' : List String) × (t : Receiver) × (check_times m now (removed, s)
        ≡ some (removed', t))
      × ScanInv removed' t
unfolding check_times
check_times_total [] now removed s h u w = (removed, s, refl, h)
check_times_total ((d, time) ∷ rest) now removed s h u w =
    let first = w d (has_first d time rest) in
    let (removed1, s1, e1, h1, o1) = check_time_total d time now removed s h first.0 first.1 in
    let w1 = Waiting-tail d time rest removed removed1 s s1 u o1 w in
    let (removed2, s2, e2, h2) = check_times_total rest now removed1 s1 h1 u.1 w1 in
    (removed2, s2, ground (arith, e1, e2), h2)
  where
    has_first :
        (d : String) (time : Timeval) (rest : Map String Timeval) → has d ((d, time) ∷ rest) ≡ true
    has_first d time rest = unfold lookup in ground (arith, beq_refl d)

-- Between rounds.
pub record Inv (s : Receiver) : Type 0 where
  pub in_step : InStep s
  pub keys : KeysAgree [] s

forget_times-Inv :
    (removed : List String) (s : Receiver) → ScanInv removed s → Inv (forget_times removed s)
unfolding forget_times
forget_times-Inv [] s h = record { in_step = h.in_step; keys = h.keys }
forget_times-Inv (d ∷ rest) s h =
    forget_times-Inv rest (record s { expected_msg_time_map = erase d s.expected_msg_time_map })
      (record {
        in_step = record { legal = h.in_step.legal; linked_eq = h.in_step.linked_eq };
        keys = record {
          agree = λ k. ground (arith, h.keys.agree k, lookup-erase d k s.expected_msg_time_map);
          unique = erase-Unique d s.expected_msg_time_map h.keys.unique;
        };
      })

expire_total :
    (now : Timeval) (s : Receiver) → Inv s → (t : Receiver) × (expire now s ≡ some t) × Inv t
unfolding expire
expire_total now s h =
    let s0 = record s { timeout = zero_time } in
    let h0 : ScanInv [] s0 = record {
      in_step = record { legal = h.in_step.legal; linked_eq = h.in_step.linked_eq };
      keys = record { agree = h.keys.agree; unique = h.keys.unique };
    } in
    let (removed, t, e, inv) =
      check_times_total s.expected_msg_time_map now [] s0 h0 h.keys.unique
        (λ k here. (here, refl)) in
    (forget_times removed t, ground (arith, e), forget_times-Inv removed t inv)

round_total :
    (a : Arrival) (now : Timeval) (s : Receiver)
    → Inv s
    → (t : Receiver) × (round a now s ≡ some t) × Inv t
unfolding round arrive
round_total (message b) now s h =
    expire_total now _
      (record { in_step = hear-InStep b now s h.in_step; keys = hear-KeysAgree b now s h.keys })
round_total timed_out now s h = expire_total now s h
round_total empty_message now s h = (s, refl, h)

rounds_total :
    (events : List (Arrival × Timeval)) (s : Receiver)
    → Inv s
    → (t : Receiver) × (rounds events s ≡ some t) × Inv t
unfolding rounds
rounds_total [] s h = (s, refl, h)
rounds_total ((a, now) ∷ rest) s h =
    let (s1, e1, h1) = round_total a now s h in
    let (s2, e2, h2) = rounds_total rest s1 h1 in (s2, ground (arith, e1, e2), h2)

-- From its start, the receiver never throws, whatever arrives and whenever; its commands are
-- legal and leave the connected domains added; and every domain with a count from 1 to 3 has a
-- rate and an expected time, and no other domain has one or is connected.
pub rounds-init :
    (domain url : String) (valid : List String) (events : List (Arrival × Timeval))
    → (t : Receiver) × (rounds events (init domain url valid) ≡ some t) × Inv t
unfolding lookup
rounds-init domain url valid events = rounds_total events (init domain url valid) (record {
  in_step = record { legal = tt; linked_eq = λ k. refl };
  keys = record { agree = λ k. (refl, refl, refl); unique = tt };
})
