-- ===== src/Receiver/Legal.antt =====
-- The order of the commands that the receiver sends.
use gravity.Prelude.{
  ℕ, ◌+◌, ◌%◌, ◌^◌, ◌≡◌, refl, String, Bool, true, false, not, ◌&&◌, List, [], ◌∷◌, Option, none,
  some, leb, if◌then◌else◌, arith,
}
use gravity.Prelude.Key.{◌==◌, string_key}
use gravity.Prelude.Maps.{lookup, has, lookup-insert, lookup-erase}
use gravity.Timeval.{Timeval}
use gravity.Directory.Requests.{DomainCommand, add, update, remove}
use gravity.Receiver.{
  Broadcast, Receiver, connect, count_broadcast, note_broadcast, hear, send, drop_domain,
  note_count, is_valid_domain, wait_for, miss_one,
}

-- Whether a domain stands added after the commands, newest first.
abbrev pub linked : List DomainCommand → String → Bool
linked [] k = false
linked (add d url ∷ cs) k = if d == k then true else linked cs k
linked (update d url ∷ cs) k = linked cs k
linked (remove d ∷ cs) k = if d == k then false else linked cs k

-- A domain is added only when it is not there, and updated and removed only when it is.
abbrev pub Legal : List DomainCommand → Type 0
Legal [] = Unit
Legal (add d url ∷ cs) = (linked cs d ≡ false) × Legal cs
Legal (update d url ∷ cs) = (linked cs d ≡ true) × Legal cs
Legal (remove d ∷ cs) = (linked cs d ≡ true) × Legal cs

-- The connected domains are those that the commands leave added.
pub record InStep (s : Receiver) : Type 0 where
  pub legal : Legal s.sent
  pub linked_eq : (k : String) → linked s.sent k ≡ has k s.connected_domain_map

pub connect-InStep : (b : Broadcast) (s : Receiver) → InStep s → InStep (connect b s)
unfolding connect send
connect-InStep b s h = record {
  legal = ground (arith, h.linked_eq b.domain, h.legal);
  linked_eq = λ k. ground (
    arith,
    h.linked_eq k,
    lookup-insert b.domain k b.start_time s.connected_domain_map,
    string_key.beq_iff b.domain k,
  );
}

pub drop_domain-InStep : (d : String) (s : Receiver) → InStep s → InStep (drop_domain d s)
unfolding drop_domain send
drop_domain-InStep d s h = record {
  legal = ground (arith, h.linked_eq d, h.legal);
  linked_eq = λ k. ground (arith, h.linked_eq k, lookup-erase d k s.connected_domain_map);
}

-- What says nothing of the commands or the connected domains.
pub same-InStep :
    (s t : Receiver)
    → t.sent ≡ s.sent
    → t.connected_domain_map ≡ s.connected_domain_map
    → InStep s
    → InStep t
same-InStep s t e f h = record { legal = rw e h.legal; linked_eq = λ k. rw (e, f) (h.linked_eq k) }

if-InStep : (c : Bool) {s t : Receiver} → InStep s → InStep t → InStep (if c then s else t)
if-InStep true a b = a
if-InStep false a b = b

note_count-InStep :
    (b : Broadcast) (o : Option ℕ) (s : Receiver) → InStep s → InStep (note_count o b s)
unfolding note_count count_broadcast
note_count-InStep b none s h = same-InStep s _ refl refl h
note_count-InStep b (some known) s h =
    let t = if-InStep (leb 3 ((known + 1) % 2 ^ 32)) (connect-InStep b s h) h in
    record { legal = t.legal; linked_eq = t.linked_eq }

pub hear-InStep : (b : Broadcast) (now : Timeval) (s : Receiver) → InStep s → InStep (hear b now s)
unfolding hear note_broadcast
hear-InStep b now s h =
    let t = note_count-InStep b (lookup b.domain s.received_count_map) s h in
    if-InStep (not (s.our_domain == b.domain) && is_valid_domain b.domain s.valid_domains)
      (record { legal = t.legal; linked_eq = t.linked_eq }) h

pub wait_for-InStep : (next now : Timeval) (s : Receiver) → InStep s → InStep (wait_for next now s)
unfolding wait_for
wait_for-InStep next now s h = record { legal = h.legal; linked_eq = h.linked_eq }

pub miss_one-InStep :
    (d : String) (count : ℕ) (next now : Timeval) (s : Receiver)
    → InStep s
    → InStep (miss_one d count next now s)
unfolding miss_one
miss_one-InStep d count next now s h =
    wait_for-InStep next now _ (record { legal = h.legal; linked_eq = h.linked_eq })
