-- ===== src/Synchronizer/Sending.antt =====
-- How many requests are on their way, and that the queue empties.
use mathlib.Core.List.{append-nil, append_assoc}
use gravity.Prelude.{
  ℕ, zero, suc, ◌+◌, ◌≤◌, ◌≡◌, refl, sym, subst, ◌∙◌, true, false, List, [], ◌∷◌, ◌++◌, Option,
  none, some, length, length-append, if◌then◌else◌, arith,
}
use gravity.Directory.Requests.{Request}
use gravity.Synchronizer.State.{Sync}
use gravity.Synchronizer.Commands.{command}
use gravity.Synchronizer.Remotes.{Remote, remotes, and_then}
use gravity.Synchronizer.Loop.{
  send_next, flush, Input, command_input, own_response, no_input, take_input, round, run, init,
}
use gravity.Synchronizer.Told.{told_by_command, told_by_remotes}
use gravity.Synchronizer.Queue.{Extends, Post, and_then-Post, remotes-Extends, command-Extends}

abbrev pub answers : Input → ℕ
answers own_response = 1
answers (command_input c) = 0
answers no_input = 0

-- how many rounds brought the answer of our own directory
abbrev pub responses : List (Input × List (ℕ × Remote)) → ℕ
responses [] = 0
responses ((i, ms) ∷ rest) = answers i + responses rest

-- After n answers, the last request may be unanswered.
unfoldable Bounded : ℕ → Sync → Type 0
Bounded n s = length s.requests ≤ n + (if s.pending_response then 1 else 0)

Extends-Bounded :
    (n : ℕ) {us : List Request} {s t : Sync} → Extends us s t → Bounded n s → Bounded n t
unfolding Bounded
Extends-Bounded n {us} {s} {t} e h = ground (arith, h, e.requests_eq, e.pending_eq)

send_next-Bounded :
    (n : ℕ) (us : List Request) (s : Sync) → Bounded n s → Bounded n (send_next us s)
unfolding Bounded send_next
send_next-Bounded n [] s h = h
send_next-Bounded n (u ∷ us) s h = ground (arith, h, length-append s.requests (u ∷ []))

Bounded-le : (n m : ℕ) (s : Sync) → n ≤ m → Bounded n s → Bounded m s
unfolding Bounded
Bounded-le n m s e h = omega (arith, e, h)

answered-Bounded :
    (n : ℕ) (s : Sync) → Bounded n s → Bounded (1 + n) (record s { pending_response = false })
unfolding Bounded
answered-Bounded n s h = ground (arith, h)

take_input-Bounded :
    (i : Input) (n : ℕ) (s : Sync) → Bounded n s → Post (Bounded (answers i + n)) (take_input i s)
unfolding take_input
take_input-Bounded (command_input c) n s h = go (command c s) (command-Extends c s)
  where
    go : (o : Option Sync) → Post (Extends (told_by_command c s) s) o → Post (Bounded (0 + n)) o
    go none e = tt
    go (some t) e = Extends-Bounded (0 + n) e (Bounded-le n (0 + n) s (omega arith) h)
take_input-Bounded own_response n s h = answered-Bounded n s h
take_input-Bounded no_input n s h = Bounded-le n (0 + n) s (omega arith) h

round-Bounded :
    (i : Input) (ms : List (ℕ × Remote)) (n : ℕ) (s : Sync)
    → Bounded n s
    → Post (Bounded (answers i + n)) (round i ms s)
unfolding round flush
round-Bounded i ms n s h =
    let m = answers i + n in
    and_then-Post (Bounded m) (Bounded m) (take_input i s) _ (take_input-Bounded i n s h) (λ t b.
      and_then-Post (Extends (told_by_remotes ms t) t) (Bounded m) (remotes ms t) _
        (remotes-Extends ms t)
        (λ u e. send_next-Bounded m u.registration_updates u (Extends-Bounded m e b)))

run-Bounded :
    (is : List (Input × List (ℕ × Remote))) (n : ℕ) (s : Sync)
    → Bounded n s
    → Post (Bounded (responses is + n)) (run is s)
unfolding run
run-Bounded [] n s h = Bounded-le n (0 + n) s (omega arith) h
run-Bounded ((i, ms) ∷ rest) n s h =
    subst (λ k. Post (Bounded k) (and_then (round i ms s) (run rest))) (omega arith)
      (and_then-Post (Bounded (answers i + n)) (Bounded (responses rest + (answers i + n)))
        (round i ms s) (run rest) (round-Bounded i ms n s h)
        (λ t b. run-Bounded rest (answers i + n) t b))

-- From its start, the synchronizer never has more than one request at its directory: it has sent
-- at most one more than were answered.
pub run-init :
    (is : List (Input × List (ℕ × Remote))) (t : Sync)
    → run is init ≡ some t
    → length t.requests ≤ responses is + 1
unfolding Bounded
run-init is t e =
    let h : Bounded (responses is + 0) t =
      subst (Post (Bounded (responses is + 0))) e (run-Bounded is 0 init (omega arith)) in
    ground (arith, h)

abbrev pub answered_rounds : ℕ → List (Input × List (ℕ × Remote))
answered_rounds zero = []
answered_rounds (suc n) = (own_response, []) ∷ answered_rounds n

-- When every round brings an answer and nothing else, as many rounds as there are queued updates
-- send them all, in order, after what was sent.
pub run-answered_rounds :
    (us : List Request) (s : Sync)
    → s.registration_updates ≡ us
    → (t : Sync) × (run (answered_rounds (length us)) s ≡ some t)
      × (t.registration_updates ≡ [])
      × (t.requests ≡ s.requests ++ us)
unfolding run round take_input remotes flush and_then send_next
run-answered_rounds [] s e = (s, refl, e, sym (append-nil _))
run-answered_rounds (u ∷ us) s e =
    let s1 = record s {
      registration_updates = us;
      pending_response = true;
      requests = s.requests ++ u ∷ [];
    } in
    let (t, r, q, p) = run-answered_rounds us s1 refl in
    (t, rw e r, q, p ∙ append_assoc s.requests (u ∷ []) us)
