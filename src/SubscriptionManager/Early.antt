-- ===== src/SubscriptionManager/Early.antt =====
-- A monitor that is told too early.
use gravity.Prelude.{
  ℕ, ◌-◌, ◌/◌, ◌<◌, ◌≤◌, ◌≡◌, ap, ◌∙◌, String, true, false, none, some, [], ◌∷◌, ◌++◌, is_empty,
  ltb, leb, if◌then◌else◌, arith, if_true, if_false,
}
use gravity.Prelude.Key.{string_key, nat_key}
use gravity.SubscriptionManager.State.{
  DomainDataKey, domain_data_key, wait, TimeoutMonitor, Details, subscription_timeout, Manager,
  details_at,
}
use gravity.SubscriptionManager.Timeouts.{
  Shortest, Checked, check_monitor, check_monitors, Scan, take_checked, scan_object, scan_filters,
  scan_keys, calculate_timeout, tell_timeout, poll_timed_out, since_last, last_received_of,
}

abbrev nothing_yet : Shortest
nothing_yet = record { min_time = none; current = none }

leb_later : (t now : ℕ) → now < t → leb t now ≡ false
leb_later t now h = ground (arith, h)

leb_over : (t now : ℕ) → t ≤ now → leb t now ≡ true
leb_over t now h = ground (arith, h)

ltb_sooner : (t u : ℕ) → t < u → ltb t u ≡ true
ltb_sooner t u h = ground (arith, h)

module _ (clock : ℕ → ℕ) (p : ℕ) (d : Details) (a b : TimeoutMonitor) (n k : ℕ)
    (first : a.timeout ≡ wait n) (second : b.timeout ≡ wait k)
    (waits : clock a.monitor / 1000 < a.end_time) (out : b.end_time ≤ clock b.monitor / 1000)
    (sooner : k < a.end_time - clock a.monitor / 1000) where
  abbrev left : Shortest
  left = record {
    min_time = some (a.end_time - clock a.monitor / 1000);
    current = some (p, a.monitor);
  }

  second_checked :
      (check_monitors clock p d (b ∷ []) left).shortest
      ≡ record { min_time = some k; current = some (p, a.monitor) }
  unfolding check_monitors
  second_checked =
      ap
        (λ t.
          (check_monitor (clock b.monitor / 1000) p d b t left
            (check_monitors clock p d [])).shortest)
        second
      ∙ ap (λ (r : Checked). r.shortest)
          (if_true _ _ _ (leb_over b.end_time (clock b.monitor / 1000) out))
      ∙ if_true _ _ _ (ltb_sooner k (a.end_time - clock a.monitor / 1000) sooner)

  both_checked :
      (check_monitors clock p d (a ∷ b ∷ []) nothing_yet).shortest
      ≡ record { min_time = some k; current = some (p, a.monitor) }
  unfolding check_monitors
  both_checked =
      ap
        (λ t.
          (check_monitor (clock a.monitor / 1000) p d a t nothing_yet
            (check_monitors clock p d (b ∷ []))).shortest)
        first
      ∙ ap (λ (r : Checked). r.shortest)
          (if_false _ _ _ (leb_later a.end_time (clock a.monitor / 1000) waits))
      ∙ second_checked

  module _ (key : DomainDataKey) (filter : String) (s : Manager)
      (only : s.subscription_map ≡ (key, (filter, p) ∷ []) ∷ []) (there : details_at p s ≡ d)
      (subscribed : is_empty d.subscribers ≡ false) (two : d.monitors ≡ a ∷ b ∷ []) where
    abbrev begun : Scan
    begun = record { manager = s; shortest = nothing_yet }

    scanned :
        (scan_object clock p begun).shortest
        ≡ record { min_time = some k; current = some (p, a.monitor) }
    scanned =
        ap
          (λ (x : Details).
            (if is_empty x.subscribers
              then begun
              else take_checked p x s (check_monitors clock p x x.monitors nothing_yet)).shortest)
          there
        ∙ ap (λ (c : Scan). c.shortest) (if_false _ _ _ subscribed)
        ∙ ap (λ ms. (check_monitors clock p d ms nothing_yet).shortest) two
        ∙ both_checked

    calculated :
        ((calculate_timeout clock s).poll_timeout ≡ some k)
        × ((calculate_timeout clock s).curr_timeout_monitor ≡ some (p, a.monitor))
    unfolding calculate_timeout scan_keys scan_filters
    calculated =
        let all = ap (λ l. (scan_keys clock l begun).shortest) only ∙ scanned in
        (ap (λ (x : Shortest). x.min_time) all, ap (λ (x : Shortest). x.current) all)

    -- When the first of the two monitors of a subscription has some time left and the second one's
    -- time is out, and its next timeout is shorter than what the first has left, the loop polls for
    -- the second one's timeout but puts the first down for it: a poll that times out then tells the
    -- first monitor of a timeout, before its time.
    pub poll_timed_out-calculate_timeout :
        (now : ℕ)
        → let t = calculate_timeout clock s in
          let e = details_at p t in
          (t.poll_timeout ≡ some k)
          × ((poll_timed_out now t).outputs
              ≡ t.outputs
                ++ subscription_timeout a.monitor e.data_product_id
                    (since_last (now / 1000) (last_received_of a.monitor e.monitors))
                    e.filter
                    e.domain
                  ∷ [])
    unfolding poll_timed_out
    poll_timed_out-calculate_timeout now = (
      calculated.0,
      ap (λ o. (tell_timeout (now / 1000) o (calculate_timeout clock s)).outputs) calculated.1,
    )
