-- ===== src/RequestManager/Invariant.antt =====
-- The requests, their sockets and the poll items agree, and no request is lost or settled twice.
use gravity.Prelude.{
  ℕ, ◌+◌, ◌≤◌, ◌≡◌, refl, ap, Bool, false, List, [], ◌∷◌, ◌++◌, some, nat_eq, nat_eq_iff, arith,
}
use gravity.Prelude.Key.{nat_key}
use gravity.Prelude.Maps.{Map, lookup, has, erase, lookup-insert}
use gravity.Prelude.Unique.{Unique, insert-Unique}
use gravity.Prelude.Counting.{
  tick, tally, tally-append, tally_values, tally_values-insert, tally_values-erase,
}
use gravity.RequestManager.State.{
  Details, Output, sent, request_filled, timed_out, refused, Manager, Request, init, emit,
  new_details, process_request,
}

-- the requests that were sent, and those that were settled: filled, timed out or refused
abbrev pub asks : (Details → Bool) → Output → Bool
asks p (sent d q) = p d
asks p o = false

abbrev pub settles : (Details → Bool) → Output → Bool
settles p (request_filled d q) = p d
settles p (timed_out d) = p d
settles p (refused d q) = p d
settles p o = false

-- Of any kind of request, as many were sent as were settled or still wait for an answer.
abbrev pub IsConserved : Map ℕ Details → List Output → Type 0
IsConserved requests outputs =
    (p : Details → Bool)
    → tally (asks p) outputs ≡ tally (settles p) outputs + tally_values p requests

pub record Core (next_socket : ℕ) (requests : Map ℕ Details) (outputs : List Output) : Type 0 where
  pub fresh : (k : ℕ) → next_socket ≤ k → has k requests ≡ false
  pub unique : Unique requests
  pub conserved : IsConserved requests outputs

abbrev pub CoreOf : Manager → Type 0
CoreOf s = Core s.next_socket s.request_map s.outputs

-- Each waiting request has its socket polled once, and no other socket is polled.
abbrev pub IsPolledOnce : List ℕ → Map ℕ Details → Type 0
IsPolledOnce items requests = (k : ℕ) → tally (nat_eq k) items ≡ tick (has k requests)

abbrev pub Inv : Manager → Type 0
Inv s = CoreOf s × IsPolledOnce s.poll_items s.request_map

pub init-Inv : Inv init
unfolding lookup
init-Inv = (record { fresh = λ k n. refl; unique = tt; conserved = λ p. refl }, λ k. refl)

pub asks-last :
    (p : Details → Bool) (os : List Output) (o : Output)
    → tally (asks p) (os ++ o ∷ []) ≡ tally (asks p) os + tick (asks p o)
asks-last p os o = omega (arith, tally-append (asks p) os (o ∷ []))

pub settles-last :
    (p : Details → Bool) (os : List Output) (o : Output)
    → tally (settles p) (os ++ o ∷ []) ≡ tally (settles p) os + tick (settles p o)
settles-last p os o = omega (arith, tally-append (settles p) os (o ∷ []))

-- An output that neither sends nor settles.
pub emit-IsConserved :
    (requests : Map ℕ Details) (os : List Output) (o : Output)
    → ((p : Details → Bool) → (asks p o ≡ false) × (settles p o ≡ false))
    → IsConserved requests os
    → IsConserved requests (os ++ o ∷ [])
emit-IsConserved requests os o other h p =
    omega
      (arith, h p, asks-last p os o, settles-last p os o, ap tick (other p).0, ap tick (other p).1)

-- An output that settles a waiting request.
pub settle-IsConserved :
    (requests : Map ℕ Details) (os : List Output) (o : Output) (k : ℕ) (d : Details)
    → ((p : Details → Bool) → (asks p o ≡ false) × (settles p o ≡ p d))
    → Unique requests
    → lookup k requests ≡ some d
    → IsConserved requests os
    → IsConserved (erase k requests) (os ++ o ∷ [])
settle-IsConserved requests os o k d settled u there h p = omega (
  arith,
  h p,
  asks-last p os o,
  settles-last p os o,
  ap tick (settled p).0,
  ap tick (settled p).1,
  tally_values-erase p k d requests u there,
)

pub process_request-Inv :
    (now : ℕ) (q : Request) (s : Manager) → Inv s → Inv (process_request now q s)
unfolding process_request emit
process_request-Inv now q s (h, polled) = (
  record {
    fresh = λ k n. ground (
      arith,
      n,
      h.fresh k,
      lookup-insert s.next_socket k d s.request_map,
      nat_eq_iff s.next_socket k,
    );
    unique = insert-Unique s.next_socket d s.request_map h.unique;
    conserved = λ p. omega (
      arith,
      h.conserved p,
      asks-last p s.outputs (sent d _),
      settles-last p s.outputs (sent d _),
      tally_values-insert p s.next_socket d s.request_map (h.fresh s.next_socket (omega arith)),
    );
  },
  λ k. ground (
    arith,
    polled k,
    tally-append (nat_eq k) s.poll_items (s.next_socket ∷ []),
    lookup-insert s.next_socket k d s.request_map,
    h.fresh k,
    nat_eq_iff s.next_socket k,
    nat_eq_iff k s.next_socket,
  ),
)
  where
    d : Details
    d = new_details now q
