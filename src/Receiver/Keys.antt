-- ===== src/Receiver/Keys.antt =====
-- The receiver's maps have the same domains, so that none of its at() calls throws.
use gravity.Prelude.{
  ℕ, ◌+◌, ◌-◌, ◌%◌, ◌^◌, ◌≤◌, ◌<◌, ◌≡◌, refl, String, Bool, true, false, not, ◌&&◌, List, [], ◌∷◌,
  Option, none, some, if◌then◌else◌, arith,
}
use gravity.Prelude.Key.{◌==◌, string_key}
use gravity.Prelude.Maps.{Map, lookup, has, insert, lookup-insert, lookup-erase}
use gravity.Prelude.Unique.{Unique, insert-Unique}
use gravity.Timeval.{Timeval, add_time}
use gravity.Receiver.{
  Broadcast, Receiver, connect, count_broadcast, note_broadcast, hear, send, drop_domain, wait_for,
  note_count, miss_one, is_valid_domain,
}

-- What the maps say of one domain: a known domain has a count from 1 to 3, a rate and an expected
-- time; an unknown one has none, and is not connected.
abbrev pub Agree : Option ℕ → Bool → Bool → Bool → Type 0
Agree none rate expected connected = (rate ≡ false) × (expected ≡ false) × (connected ≡ false)
Agree (some count) rate expected connected =
    (1 ≤ count) × (count ≤ 3) × (rate ≡ true) × (expected ≡ true)

abbrev pub elem : String → List String → Bool
elem k [] = false
elem k (d ∷ ds) = if d == k then true else elem k ds

-- Between rounds, and inside the loop over the expected times, where `removed` still waits.
pub record KeysAgree (removed : List String) (s : Receiver) : Type 0 where
  pub agree :
      (k : String)
      → Agree
          (lookup k s.received_count_map)
          (has k s.broadcast_rate_map)
          (has k s.expected_msg_time_map && not (elem k removed))
          (has k s.connected_domain_map)
  pub unique : Unique s.expected_msg_time_map

connect_keys :
    (b : Broadcast) (s : Receiver)
    → ((connect b s).received_count_map ≡ s.received_count_map)
      × ((connect b s).broadcast_rate_map ≡ s.broadcast_rate_map)
      × ((connect b s).expected_msg_time_map ≡ s.expected_msg_time_map)
unfolding connect send
connect_keys b s = ground arith

connect_connected :
    (b : Broadcast) (s : Receiver) (k : String)
    → has k (connect b s).connected_domain_map
      ≡ (if b.domain == k then true else has k s.connected_domain_map)
unfolding connect send
connect_connected b s k = ground (
  arith,
  lookup-insert b.domain k b.start_time s.connected_domain_map,
  string_key.beq_iff b.domain k,
)

-- A broadcast of a domain with this count, and the time when the next one is expected.
count-Agree :
    (b : Broadcast) (known : ℕ) (s : Receiver) (times : Map String Timeval) (k : String)
    → KeysAgree [] s
    → lookup b.domain s.received_count_map ≡ some known
    → has k times ≡ (if b.domain == k then true else has k s.expected_msg_time_map)
    → Agree
        (lookup k (count_broadcast b known s).received_count_map)
        (has k (count_broadcast b known s).broadcast_rate_map)
        (has k times && not (elem k []))
        (has k (count_broadcast b known s).connected_domain_map)
unfolding count_broadcast
count-Agree b known s times k h e t =
    let count = (known + 1) % 2 ^ 32 in
    ground (
      arith,
      t,
      e,
      h.agree k,
      h.agree b.domain,
      connect_keys b s,
      connect_connected b s k,
      lookup-insert b.domain k 3 s.received_count_map,
      lookup-insert b.domain k count s.received_count_map,
      string_key.beq_iff b.domain k,
    )

note-Agree :
    (b : Broadcast) (o : Option ℕ) (s : Receiver) (times : Map String Timeval) (k : String)
    → KeysAgree [] s
    → lookup b.domain s.received_count_map ≡ o
    → has k times ≡ (if b.domain == k then true else has k s.expected_msg_time_map)
    → Agree
        (lookup k (note_count o b s).received_count_map)
        (has k (note_count o b s).broadcast_rate_map)
        (has k times && not (elem k []))
        (has k (note_count o b s).connected_domain_map)
unfolding note_count
note-Agree b none s times k h e t = ground (
  arith,
  t,
  e,
  h.agree k,
  h.agree b.domain,
  lookup-insert b.domain k 1 s.received_count_map,
  lookup-insert b.domain k b.rate s.broadcast_rate_map,
  string_key.beq_iff b.domain k,
)
note-Agree b (some known) s times k h e t = count-Agree b known s times k h e t

note_expected :
    (b : Broadcast) (o : Option ℕ) (s : Receiver)
    → (note_count o b s).expected_msg_time_map ≡ s.expected_msg_time_map
unfolding note_count count_broadcast
note_expected b none s = refl
note_expected b (some known) s = ground (arith, connect_keys b s)

-- A broadcast that is noted.
noted-KeysAgree :
    (b : Broadcast) (now : Timeval) (s : Receiver)
    → KeysAgree [] s
    → KeysAgree [] (
        let t = note_broadcast b s in
        record t {
          expected_msg_time_map = insert b.domain (add_time now b.rate) t.expected_msg_time_map;
        })
unfolding note_broadcast
noted-KeysAgree b now s h =
    let o = lookup b.domain s.received_count_map in
    let t = note_count o b s in
    let next = add_time now b.rate in
    let same_times = note_expected b o s in
    record {
      agree = λ k.
          note-Agree b o s (insert b.domain next t.expected_msg_time_map) k h refl
            (ground (arith, lookup-insert b.domain k next t.expected_msg_time_map, same_times));
      unique = insert-Unique b.domain next t.expected_msg_time_map (rw same_times h.unique);
    }

if-KeysAgree :
    (c : Bool) (removed : List String) {s t : Receiver}
    → KeysAgree removed s
    → KeysAgree removed t
    → KeysAgree removed (if c then s else t)
if-KeysAgree true removed a b = a
if-KeysAgree false removed a b = b

pub hear-KeysAgree :
    (b : Broadcast) (now : Timeval) (s : Receiver) → KeysAgree [] s → KeysAgree [] (hear b now s)
unfolding hear
hear-KeysAgree b now s h =
    if-KeysAgree (not (s.our_domain == b.domain) && is_valid_domain b.domain s.valid_domains) []
      (noted-KeysAgree b now s h) h

pub wait_for-KeysAgree :
    (removed : List String) (next now : Timeval) (s : Receiver)
    → KeysAgree removed s
    → KeysAgree removed (wait_for next now s)
unfolding wait_for
wait_for-KeysAgree removed next now s h = record { agree = h.agree; unique = h.unique }

pub drop_domain-KeysAgree :
    (removed : List String) (d : String) (s : Receiver)
    → KeysAgree removed s
    → KeysAgree (d ∷ removed) (drop_domain d s)
unfolding drop_domain send
drop_domain-KeysAgree removed d s h = record {
  agree = λ k. ground (
    arith,
    h.agree k,
    lookup-erase d k s.received_count_map,
    lookup-erase d k s.broadcast_rate_map,
    lookup-erase d k s.connected_domain_map,
    string_key.beq_iff d k,
  );
  unique = ground (arith, h.unique);
}

pub miss_one-KeysAgree :
    (removed : List String) (d : String) (known : ℕ) (next now : Timeval) (s : Receiver)
    → KeysAgree removed s
    → lookup d s.received_count_map ≡ some known
    → 1 < known
    → KeysAgree removed (miss_one d (known - 1) next now s)
unfolding miss_one
miss_one-KeysAgree removed d known next now s h e more =
    wait_for-KeysAgree removed next now _ (record {
      agree = λ k. ground (
        arith,
        h.agree k,
        h.agree d,
        e,
        lookup-insert d k (known - 1) s.received_count_map,
        lookup-insert d k next s.expected_msg_time_map,
        string_key.beq_iff d k,
      );
      unique = insert-Unique d next s.expected_msg_time_map h.unique;
    })
