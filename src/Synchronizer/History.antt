-- ===== src/Synchronizer/History.antt =====
-- What was sent to the own directory and what is still queued, over any run.
use mathlib.Core.List.{append-nil, append_assoc}
use gravity.Prelude.{
  ℕ, ◌≡◌, refl, sym, ap, subst, Bool-cases, inl, inr, ◌∙◌, List, [], ◌∷◌, ◌++◌, Option, none, some,
}
use gravity.Directory.Requests.{Request}
use gravity.Synchronizer.State.{Sync}
use gravity.Synchronizer.Commands.{command}
use gravity.Synchronizer.Remotes.{Remote, remotes, and_then}
use gravity.Synchronizer.Loop.{
  send_next, flush, Input, command_input, own_response, no_input, take_input, round, run,
}
use gravity.Synchronizer.Told.{told_by_input, told_by_command, told_by_remotes, after, told}
use gravity.Synchronizer.Queue.{Extends, Post, command-Extends, remotes-Extends}

-- All that was ever sent or queued, oldest first.
abbrev pub history : Sync → List Request
history s = s.requests ++ s.registration_updates

-- The history grows by the requests, at its end.
record Grows (us : List Request) (s t : Sync) : Type 0 where
  history_eq : history t ≡ history s ++ us

Extends-Grows : {us : List Request} {s t : Sync} → Extends us s t → Grows us s t
Extends-Grows {us} {s} {t} a = record {
  history_eq =
      ap (λ vs. vs ++ t.registration_updates) a.requests_eq
      ∙ ap (λ vs. s.requests ++ vs) a.queue_eq
      ∙ sym (append_assoc s.requests s.registration_updates us);
}

Grows-trans :
    {us vs : List Request} {s t u : Sync} → Grows us s t → Grows vs t u → Grows (us ++ vs) s u
Grows-trans {us} {vs} {s} a b = record {
  history_eq = b.history_eq ∙ ap (λ ws. ws ++ vs) a.history_eq ∙ append_assoc (history s) us vs;
}

Extends-Post-Grows :
    (us : List Request) (s : Sync) (o : Option Sync) → Post (Extends us s) o → Post (Grows us s) o
Extends-Post-Grows us s none h = tt
Extends-Post-Grows us s (some t) h = Extends-Grows h

-- Two steps, each with what it adds.
then-Grows :
    (us : List Request) (f : Sync → List Request) (s : Sync) (o : Option Sync)
    (k : Sync → Option Sync)
    → Post (Grows us s) o
    → ((t : Sync) → Post (Grows (f t) t) (k t))
    → Post (Grows (us ++ after o f) s) (and_then o k)
unfolding and_then
then-Grows us f s none k h g = tt
then-Grows us f s (some t) k h g = go (k t) (g t)
  where
    go : (q : Option Sync) → Post (Grows (f t) t) q → Post (Grows (us ++ f t) s) q
    go none e = tt
    go (some u) e = Grows-trans h e

send_next-history :
    (us : List Request) (s : Sync)
    → s.registration_updates ≡ us
    → history (send_next us s) ≡ history s
unfolding send_next
send_next-history [] s e = refl
send_next-history (u ∷ us) s e = elim (Bool-cases s.pending_response) [
  | inl wait ↦ rw wait refl
  | inr go ↦ rw go (append_assoc s.requests (u ∷ []) us ∙ ap (λ vs. s.requests ++ vs) (sym e))
]

flushed-Grows :
    (us : List Request) (s : Sync) (o : Option Sync)
    → Post (Grows us s) o
    → Post (Grows us s) (and_then o (λ u. some (flush u)))
unfolding and_then flush
flushed-Grows us s none h = tt
flushed-Grows us s (some t) h = record {
  history_eq = send_next-history t.registration_updates t refl ∙ h.history_eq;
}

take_input-Grows : (i : Input) (s : Sync) → Post (Grows (told_by_input i s) s) (take_input i s)
unfolding take_input
take_input-Grows (command_input c) s =
    Extends-Post-Grows (told_by_command c s) s (command c s) (command-Extends c s)
take_input-Grows own_response s = record { history_eq = sym (append-nil _) }
take_input-Grows no_input s = record { history_eq = sym (append-nil _) }

round-Grows :
    (i : Input) (ms : List (ℕ × Remote)) (s : Sync)
    → Post
        (Grows (told_by_input i s ++ after (take_input i s) (told_by_remotes ms)) s)
        (round i ms s)
unfolding round
round-Grows i ms s =
    then-Grows (told_by_input i s) (told_by_remotes ms) s (take_input i s) _ (take_input-Grows i s)
      (λ t.
        flushed-Grows (told_by_remotes ms t) t (remotes ms t)
          (Extends-Post-Grows (told_by_remotes ms t) t (remotes ms t) (remotes-Extends ms t)))

run-Grows :
    (is : List (Input × List (ℕ × Remote))) (s : Sync) → Post (Grows (told is s) s) (run is s)
unfolding run
run-Grows [] s = record { history_eq = sym (append-nil _) }
run-Grows ((i, ms) ∷ rest) s =
    then-Grows (told_by_input i s ++ after (take_input i s) (told_by_remotes ms)) (told rest) s
      (round i ms s) (run rest) (round-Grows i ms s) (run-Grows rest)

-- After a run in which no null pointer is followed, the requests that were sent to the own
-- directory, and behind them those still queued, are what they were, and then just what the
-- messages of the run told of, in their order, none lost, doubled or overtaken: for a Remove of a
-- known domain, the removal of each url of its last map; for the map of a known domain that is not
-- marked as initialized, each of its urls, and of one that is, the change that it names; and
-- nothing for any other message, nor for one with bytes of another registration time than that of
-- the socket's directory.
pub run-history :
    (is : List (Input × List (ℕ × Remote))) (s t : Sync)
    → run is s ≡ some t
    → history t ≡ history s ++ told is s
run-history is s t e =
    let g : Grows (told is s) s t = subst (Post (Grows (told is s) s)) e (run-Grows is s) in
    g.history_eq
