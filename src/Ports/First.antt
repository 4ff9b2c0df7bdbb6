-- ===== src/Ports/First.antt =====
-- Which port is found.
use gravity.Prelude.{
  ℕ, zero, suc, ◌+◌, ◌-◌, ◌≤◌, ◌<◌, ◌≡◌, String, Bool, true, false, Option, none, some, Bool-cases,
  nat_eq, nat_eq_iff, sym, ap, ◌∙◌, inl, inr, arith,
}
use gravity.Ports.{Url, tcp_url, bind_from, bind_first_available_port}

module _ (can_bind : Url → Bool) (ip : String) where
  -- The port is the first from `low` on that can be bound, below `high`.
  abbrev pub IsFirst : ℕ → ℕ → Option ℕ → Type 0
  IsFirst low high none = (p : ℕ) → low ≤ p → p < high → can_bind (tcp_url ip p) ≡ false
  IsFirst low high (some port) =
      (low ≤ port)
      × (port < high)
      × (can_bind (tcp_url ip port) ≡ true)
      × ((p : ℕ) → low ≤ p → p < port → can_bind (tcp_url ip p) ≡ false)

  taken_from :
      (low p : ℕ)
      → can_bind (tcp_url ip low) ≡ false
      → low ≤ p
      → (low + 1 ≤ p → can_bind (tcp_url ip p) ≡ false)
      → can_bind (tcp_url ip p) ≡ false
  taken_from low p taken a later = elim (Bool-cases (nat_eq low p)) [
    | inl e ↦ ap (λ k. can_bind (tcp_url ip k)) (sym ((nat_eq_iff low p).0 e)) ∙ taken
    | inr e ↦ later (ground (arith, e, a))
  ]

  IsFirst-later :
      (low n : ℕ) (o : Option ℕ)
      → can_bind (tcp_url ip low) ≡ false
      → IsFirst (low + 1) (low + 1 + n) o
      → IsFirst low (low + suc n) o
  IsFirst-later low n none taken h =
      λ p a b. taken_from low p taken a (λ c. h p c (omega (arith, b)))
  IsFirst-later low n (some port) taken h = (
    omega (arith, h.0),
    omega (arith, h.1),
    h.2,
    λ p a b. taken_from low p taken a (λ c. h.3 p c b),
  )

  bind_from-IsFirst : (n low : ℕ) → IsFirst low (low + n) (bind_from can_bind ip n low)
  unfolding bind_from
  bind_from-IsFirst zero low = λ p a b. absurd (omega (arith, a, b))
  bind_from-IsFirst (suc n) low = elim (Bool-cases (can_bind (tcp_url ip low))) [
    | inl free ↦ rw free (omega arith, omega arith, free, λ p a b. absurd (omega (arith, a, b)))
    | inr taken ↦ rw taken (IsFirst-later low n _ taken (bind_from-IsFirst n (low + 1)))
  ]

  IsFirst-range :
      (low high : ℕ) (o : Option ℕ) → IsFirst low (low + (high - low)) o → IsFirst low high o
  IsFirst-range low high none h = λ p a b. h p a (omega (arith, a, b))
  IsFirst-range low high (some port) h = (omega (arith, h.0), omega (arith, h.0, h.1), h.2, h.3)

  -- The port that bindFirstAvailablePort returns is within the range, can be bound, and is the
  -- first such port; it returns none only if no port of the range can be bound.
  pub bind_first_available_port-IsFirst :
      (min_port max_port : ℕ)
      → IsFirst min_port (max_port + 1) (bind_first_available_port can_bind ip min_port max_port)
  unfolding bind_first_available_port
  bind_first_available_port-IsFirst min_port max_port =
      IsFirst-range min_port (max_port + 1) _ (bind_from-IsFirst (max_port + 1 - min_port) min_port)
