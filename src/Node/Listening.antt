-- ===== src/Node/Listening.antt =====
-- When the listener registers its node again.
use gravity.Prelude.{
  ℕ, ◌+◌, ◌≤◌, ◌<◌, ◌≡◌, ◌≢◌, refl, sym, ap, ◌∙◌, subst, String, Bool, true, false, List, [], ◌∷◌,
  ◌++◌, arith,
}
use gravity.Prelude.Key.{◌==◌, string_key}
use gravity.Prelude.Counting.{tally, tally-append}
use gravity.Node.Reregister.{
  Broadcast, Action, connect, reregister_at, DomainListener, hear, listen,
}

abbrev pub is_reregistration : Action → Bool
is_reregistration (connect domain url) = false
is_reregistration (reregister_at url) = true

abbrev pub reregistrations : DomainListener → ℕ
reregistrations l = tally is_reregistration l.actions

-- No broadcast of a domain is of a later start than a time.
abbrev pub NotAfter : String → ℕ → List Broadcast → Type 0
NotAfter domain t [] = Unit
NotAfter domain t (b ∷ bs) = ((domain == b.domain) ≡ true → b.start_time ≤ t) × NotAfter domain t bs

hear-none :
    (b : Broadcast) (l : DomainListener)
    → ((l.domain == b.domain) ≡ true → b.start_time ≤ l.service_directory_start_time)
    → (reregistrations (hear b l) ≡ reregistrations l)
      × ((hear b l).domain ≡ l.domain)
      × ((hear b l).service_directory_start_time ≡ l.service_directory_start_time)
unfolding hear
hear-none b l h =
    ground (arith, h, tally-append is_reregistration l.actions (connect l.domain b.url ∷ []))

listen-none :
    (bs : List Broadcast) (l : DomainListener) (t : ℕ)
    → l.service_directory_start_time ≡ t
    → NotAfter l.domain t bs
    → (reregistrations (listen bs l) ≡ reregistrations l)
      × ((listen bs l).domain ≡ l.domain)
      × ((listen bs l).service_directory_start_time ≡ t)
unfolding listen
listen-none [] l t e h = (refl, refl, e)
listen-none (b ∷ bs) l t e h =
    let s = hear-none b l (λ same. omega (arith, h.0 same)) in
    let r = listen-none bs (hear b l) t (s.2 ∙ e) (subst (λ d. NotAfter d t bs) (sym s.1) h.1) in
    (r.0 ∙ s.0, r.1 ∙ s.1, r.2)

hear-later :
    (b : Broadcast) (l : DomainListener)
    → (l.domain == b.domain) ≡ true
    → l.service_directory_start_time ≢ 0
    → l.service_directory_start_time < b.start_time
    → (reregistrations (hear b l) ≡ reregistrations l + 1)
      × ((hear b l).domain ≡ l.domain)
      × ((hear b l).service_directory_start_time ≡ b.start_time)
unfolding hear
hear-later b l same known later = ground (
  arith,
  same,
  tally-append is_reregistration (l.actions ++ connect l.domain b.url ∷ [])
      (reregister_at b.url ∷ []),
  tally-append is_reregistration l.actions (connect l.domain b.url ∷ []),
)

listen-append :
    (bs cs : List Broadcast) (l : DomainListener) → listen (bs ++ cs) l ≡ listen cs (listen bs l)
unfolding listen
listen-append [] cs l = refl
listen-append (b ∷ bs) cs l = listen-append bs cs (hear b l)

-- A listener that has heard of its directory before registers the node again exactly once for a
-- restart: for the first broadcast of its domain with a later start, and for none before it and
-- none behind it whose start is not later still.
pub listen-restart :
    (l : DomainListener) (bs : List Broadcast) (b : Broadcast) (cs : List Broadcast)
    → l.service_directory_start_time ≢ 0
    → NotAfter l.domain l.service_directory_start_time bs
    → (l.domain == b.domain) ≡ true
    → l.service_directory_start_time < b.start_time
    → NotAfter l.domain b.start_time cs
    → (reregistrations (listen (bs ++ b ∷ cs) l) ≡ reregistrations l + 1)
      × ((listen (bs ++ b ∷ cs) l).service_directory_start_time ≡ b.start_time)
unfolding listen
listen-restart l bs b cs known before same later behind =
    let m = listen bs l in
    let r = listen-none bs l l.service_directory_start_time refl before in
    let s =
      hear-later b m (ap (λ d. d == b.domain) r.1 ∙ same) (λ z. known (sym r.2 ∙ z))
        (omega (arith, r.2, later)) in
    let t =
      listen-none cs (hear b m) b.start_time s.2
        (subst (λ d. NotAfter d b.start_time cs) (sym (s.1 ∙ r.1)) behind) in
    subst
      (λ x.
        (reregistrations x ≡ reregistrations l + 1)
        × (x.service_directory_start_time ≡ b.start_time))
      (sym (listen-append bs (b ∷ cs) l)) (t.0 ∙ s.0 ∙ ap (λ k. k + 1) r.0, t.2)
