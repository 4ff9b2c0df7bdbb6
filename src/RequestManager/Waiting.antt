-- ===== src/RequestManager/Waiting.antt =====
-- How long the loop waits for the next timeout.
use gravity.Prelude.{
  ℕ, ◌≤◌, ◌<◌, ◌≡◌, refl, sym, ap, ◌∙◌, inl, inr, List, [], ◌∷◌, Option, none, some, some_inj, ◌/◌,
  ◌-◌, arith,
}
use gravity.Prelude.Key.{nat_key}
use gravity.RequestManager.State.{Details, Manager}
use gravity.RequestManager.Timeouts.{Pass, is_due, wait, expire_all, expire_pass}
use gravity.RequestManager.Expiry.{expire_all-cons}

-- No time of the entries is below a bound.
abbrev pub IsBelow : ℕ → List (ℕ × Details) → Type 0
IsBelow left [] = Unit
IsBelow left ((k, d) ∷ ds) =
    ((t : ℕ) → d.timeout_time_milliseconds ≡ some t → left ≤ t) × IsBelow left ds

wait-IsBelow :
    (now left : ℕ) (o : Option ℕ)
    → ((t : ℕ) → o ≡ some t → left ≤ t)
    → wait now o (some left) ≡ some left
wait-IsBelow now left none h = refl
wait-IsBelow now left (some t) h = ground (arith, h t refl)

expire_all-kept :
    (clock : ℕ → ℕ) (ds : List (ℕ × Details)) (r r' : Pass) (left : ℕ)
    → r.next_timeout ≡ some left
    → IsBelow left ds
    → expire_all clock ds r ≡ some r'
    → r'.next_timeout ≡ some left
unfolding expire_all
expire_all-kept clock [] r r' left e below done =
    ap (λ (x : Pass). x.next_timeout) (sym (some_inj done)) ∙ e
expire_all-kept clock ((socket, d) ∷ ds) r r' left e below done =
    elim (expire_all-cons clock socket d ds r r' done) [
      | inl (late, rest) ↦
          expire_all-kept clock ds _ r' left
            (ap (wait (clock socket / 1000) d.timeout_time_milliseconds) e
              ∙ wait-IsBelow (clock socket / 1000) left d.timeout_time_milliseconds below.0)
            below.1 rest
      | inr (due, (s, gone, rest)) ↦ expire_all-kept clock ds _ r' left e below.1 rest
    ]

-- When the first request of the map waits until a time, and no time of the others, which are
-- absolute, is below the milliseconds that are left until then, the loop polls for just those
-- milliseconds, also when another request times out sooner.
pub expire_pass-first :
    (clock : ℕ → ℕ) (s : Manager) (k : ℕ) (d : Details) (ds : List (ℕ × Details)) (p : Pass) (t : ℕ)
    → s.request_map ≡ (k, d) ∷ ds
    → d.timeout_time_milliseconds ≡ some t
    → clock k / 1000 < t
    → IsBelow (t - clock k / 1000) ds
    → expire_pass clock s ≡ some p
    → p.next_timeout ≡ some (t - clock k / 1000)
unfolding expire_pass
expire_pass-first clock s k d ds p t e timeout later below done =
    elim (expire_all-cons clock k d ds (record { manager = s; next_timeout = none }) p
      (sym (ap (λ l. expire_all clock l (record { manager = s; next_timeout = none })) e) ∙ done)) [
        | inl (late, rest) ↦
            expire_all-kept clock ds _ p (t - clock k / 1000)
              (ap (λ o. wait (clock k / 1000) o none) timeout ∙ waits) below rest
        | inr (due, gone) ↦
            absurd (ground (arith, due, later, ap (is_due (clock k / 1000)) timeout))
      ]
  where
    waits : wait (clock k / 1000) (some t) none ≡ some (t - clock k / 1000)
    waits = ground (arith, later)
