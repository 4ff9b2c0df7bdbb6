-- ===== src/Synchronizer/Queue.antt =====
-- What commands and messages put into the queue of updates.
use mathlib.Core.List.{append-nil, append_assoc}
use gravity.Prelude.{
  ℕ, ◌≡◌, refl, sym, ap, subst, ◌∙◌, Bool, true, false, String, List, [], ◌∷◌, ◌++◌, Option, none,
  some, if◌then◌else◌, arith,
}
use gravity.Prelude.Key.{string_key, nat_key}
use gravity.Prelude.Maps.{has}
use gravity.Directory.Messages.{Publisher, ProviderMap}
use gravity.Directory.Requests.{Request, DomainCommand, add, update, remove}
use gravity.Synchronizer.State.{Details, Sync}
use gravity.Synchronizer.Commands.{ask, restart, discard, command, details_of}
use gravity.Synchronizer.Remotes.{
  is_foreign, subscribe, answer, updates_of, store_map, new_map, receive, Content, lookup_answer,
  details_update, other_content, Remote, remote, remotes, and_then,
}
use gravity.Synchronizer.Told.{
  known, known_at, withdrawn, told_by_map, of_known, told_by_content, is_other, told_by_remote,
  told_by_command, after, told_by_remotes,
}
use gravity.Synchronizer.Made.{Makes, domain_removals-withdrawn, updates_of-Makes}

-- The updates go to the end of the queue, and nothing is sent.
pub record Extends (us : List Request) (s t : Sync) : Type 0 where
  pub queue_eq : t.registration_updates ≡ s.registration_updates ++ us
  pub requests_eq : t.requests ≡ s.requests
  pub pending_eq : t.pending_response ≡ s.pending_response

abbrev pub Post : (Sync → Type 0) → Option Sync → Type 0
Post P none = Unit
Post P (some t) = P t

Extends-same :
    (s t : Sync)
    → t.registration_updates ≡ s.registration_updates
    → t.requests ≡ s.requests
    → t.pending_response ≡ s.pending_response
    → Extends [] s t
Extends-same s t e f g = record {
  queue_eq = e ∙ sym (append-nil _);
  requests_eq = f;
  pending_eq = g;
}

Extends-trans :
    {us vs : List Request} {s t u : Sync} → Extends us s t → Extends vs t u → Extends (us ++ vs) s u
Extends-trans {us} {vs} {s} {t} {u} a b = record {
  queue_eq =
      b.queue_eq ∙ ap (λ ws. ws ++ vs) a.queue_eq ∙ append_assoc s.registration_updates us vs;
  requests_eq = b.requests_eq ∙ a.requests_eq;
  pending_eq = b.pending_eq ∙ a.pending_eq;
}

pub and_then-Post :
    (P Q : Sync → Type 0) (o : Option Sync) (f : Sync → Option Sync)
    → Post P o
    → ((t : Sync) → P t → Post Q (f t))
    → Post Q (and_then o f)
unfolding and_then
and_then-Post P Q none f h k = tt
and_then-Post P Q (some t) f h k = k t h

restart-Extends :
    (domain ip : String) (o : Option (ℕ × Details)) (s : Sync)
    → Post (Extends [] s) (restart domain ip o s)
unfolding restart ask
restart-Extends domain ip none s = tt
restart-Extends domain ip (some (p, d)) s = Extends-same s _ refl refl refl

-- the details without the number of their object
abbrev details : Option (ℕ × Details) → Option Details
details none = none
details (some x) = some x.1

details_of-known : (domain : String) (s : Sync) → details (details_of domain s) ≡ known domain s
details_of-known domain s = ground arith

is_foreign-other :
    (socket : ℕ) (m : Remote) (s : Sync) → is_foreign socket m s ≡ is_other m (known_at socket s)
is_foreign-other socket m s = ground arith

discard-Extends :
    (domain : String) (o : Option (ℕ × Details)) (s : Sync)
    → Post (Extends (of_known (withdrawn domain) (details o)) s) (discard domain o s)
unfolding discard
discard-Extends domain none s = tt
discard-Extends domain (some (p, d)) s = record {
  queue_eq = ap (λ us. s.registration_updates ++ us) (domain_removals-withdrawn domain d);
  requests_eq = refl;
  pending_eq = refl;
}

absent-known : (domain : String) (s : Sync) → has domain s.sync_map ≡ false → known domain s ≡ none
absent-known domain s h = ground arith

if-Extends :
    (c : Bool) (us : List Request) (o q : Option Sync) (s : Sync)
    → (c ≡ true → Post (Extends us s) o)
    → (c ≡ false → Post (Extends us s) q)
    → Post (Extends us s) (if c then o else q)
if-Extends true us o q s a b = a refl
if-Extends false us o q s a b = b refl

pub command-Extends :
    (c : DomainCommand) (s : Sync) → Post (Extends (told_by_command c s) s) (command c s)
unfolding command ask
command-Extends (add domain ip) s =
    if-Extends (has domain s.sync_map) [] _ _ s (λ h. Extends-same s s refl refl refl)
      (λ h. Extends-same s _ refl refl refl)
command-Extends (update domain ip) s = restart-Extends domain ip (details_of domain s) s
command-Extends (remove domain) s =
    if-Extends (has domain s.sync_map) (of_known (withdrawn domain) (known domain s)) _ _ s
      (λ h.
        subst
          (λ o.
            Post (Extends (of_known (withdrawn domain) o) s)
              (discard domain (details_of domain s) s))
          (details_of-known domain s) (discard-Extends domain (details_of domain s) s))
      (λ h.
        subst (λ o. Extends (of_known (withdrawn domain) o) s s) (sym (absent-known domain s h))
          (Extends-same s s refl refl refl))

subscribe-Extends :
    (socket time : ℕ) (o : Option (ℕ × Details)) (s : Sync)
    → Post (Extends [] s) (subscribe socket time o s)
unfolding subscribe
subscribe-Extends socket time none s = tt
subscribe-Extends socket time (some (q, d)) s = Extends-same s _ refl refl refl

answer-Extends :
    (socket : ℕ) (domain other : String) (ps : List Publisher) (s : Sync)
    → Post (Extends [] s) (answer socket domain other ps s)
unfolding answer
answer-Extends socket domain other [] s = Extends-same s _ refl refl refl
answer-Extends socket domain other (p ∷ ps) s =
    subscribe-Extends socket p.registration_time (details_of other s) s

store_map-Extends :
    (m : ProviderMap) (p : ℕ) (d : Details) (o : Option (List Request)) (us : List Request)
    (s : Sync)
    → Makes o us
    → Post (Extends us s) (store_map m p d o s)
unfolding store_map
store_map-Extends m p d none us s h = tt
store_map-Extends m p d (some vs) us s h = record {
  queue_eq = ap (λ ws. s.registration_updates ++ ws) h;
  requests_eq = refl;
  pending_eq = refl;
}

new_map-Extends :
    (m : ProviderMap) (o : Option (ℕ × Details)) (s : Sync)
    → Post (Extends (of_known (told_by_map m) (details o)) s) (new_map m o s)
unfolding new_map
new_map-Extends m none s = tt
new_map-Extends m (some (p, d)) s =
    store_map-Extends m p d (updates_of d.initialized m) (told_by_map m d) s
      (updates_of-Makes d.initialized m)

receive-Extends :
    (socket : ℕ) (domain : String) (c : Content) (s : Sync)
    → Post (Extends (told_by_content c s) s) (receive socket domain c s)
unfolding receive
receive-Extends socket domain (lookup_answer r) s =
    answer-Extends socket domain r.domain_id r.publishers s
receive-Extends socket domain (details_update m) s =
    subst (λ o. Post (Extends (of_known (told_by_map m) o) s) (new_map m (details_of m.domain s) s))
      (details_of-known m.domain s) (new_map-Extends m (details_of m.domain s) s)
receive-Extends socket domain other_content s = Extends-same s s refl refl refl

remote-Extends :
    (socket : ℕ) (m : Remote) (s : Sync)
    → Post (Extends (told_by_remote socket m s) s) (remote socket m s)
unfolding remote
remote-Extends socket m s =
    subst
      (λ b. Post (Extends (if b then [] else told_by_content m.content s) s) (remote socket m s))
      (is_foreign-other socket m s) (go (is_foreign socket m s))
  where
    go :
        (b : Bool)
        → Post
            (Extends (if b then [] else told_by_content m.content s) s)
            (if b then some s else receive socket m.domain m.content s)
    go true = Extends-same s s refl refl refl
    go false = receive-Extends socket m.domain m.content s

-- Two steps, each with what it adds.
then-Extends :
    (us : List Request) (f : Sync → List Request) (s : Sync) (o : Option Sync)
    (k : Sync → Option Sync)
    → Post (Extends us s) o
    → ((t : Sync) → Post (Extends (f t) t) (k t))
    → Post (Extends (us ++ after o f) s) (and_then o k)
unfolding and_then
then-Extends us f s none k h g = tt
then-Extends us f s (some t) k h g = go (k t) (g t)
  where
    go : (q : Option Sync) → Post (Extends (f t) t) q → Post (Extends (us ++ f t) s) q
    go none e = tt
    go (some u) e = Extends-trans h e

pub remotes-Extends :
    (ms : List (ℕ × Remote)) (s : Sync) → Post (Extends (told_by_remotes ms s) s) (remotes ms s)
unfolding remotes
remotes-Extends [] s = Extends-same s s refl refl refl
remotes-Extends ((socket, m) ∷ rest) s =
    then-Extends (told_by_remote socket m s) (told_by_remotes rest) s (remote socket m s)
      (remotes rest) (remote-Extends socket m s) (remotes-Extends rest)
