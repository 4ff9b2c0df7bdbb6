-- ===== src/Directory/Distinct.antt =====
-- Lists of publishers in which each url stands once.
use gravity.Prelude.{ℕ, ◌≡◌, refl, String, false, List, [], ◌∷◌, ◌++◌, Option, none, some, arith}
use gravity.Prelude.Key.{◌==◌, string_key}
use gravity.Directory.Messages.{Publisher, Registration}
use gravity.Directory.Publishers.{find_url, erase_url}
use gravity.Directory.Register.{update_url, put_publisher, new_publisher, update_publisher}
use gravity.Directory.Unregister.{erase_registration}

pub erase_url-absent :
    (url : String) (ps : List Publisher) → find_url url ps ≡ none → erase_url url ps ≡ ps
unfolding find_url erase_url
erase_url-absent url [] h = refl
erase_url-absent url (p ∷ ps) h = ground (arith, erase_url-absent url ps)

-- A list names each url once.
abbrev pub Distinct : List Publisher → Type 0
Distinct [] = Unit
Distinct (p ∷ ps) = (find_url p.url ps ≡ none) × Distinct ps

pub find_url-erase_url :
    (url : String) (ps : List Publisher) → Distinct ps → find_url url (erase_url url ps) ≡ none
unfolding find_url erase_url
find_url-erase_url url [] h = refl
find_url-erase_url url (p ∷ ps) h =
    ground (arith, find_url-erase_url url ps h.1, string_key.beq_iff p.url url)

pub find_url-erase_url-none :
    (v url : String) (ps : List Publisher)
    → find_url v ps ≡ none
    → find_url v (erase_url url ps) ≡ none
unfolding find_url erase_url
find_url-erase_url-none v url [] h = refl
find_url-erase_url-none v url (p ∷ ps) h = ground (arith, find_url-erase_url-none v url ps)

pub erase_url-Distinct :
    (url : String) (ps : List Publisher) → Distinct ps → Distinct (erase_url url ps)
unfolding erase_url
erase_url-Distinct url [] h = tt
erase_url-Distinct url (p ∷ ps) h =
    ground (arith, find_url-erase_url-none p.url url ps, erase_url-Distinct url ps h.1)

find_url-update_url-none :
    (v : String) (r : Registration) (secs : ℕ) (ps : List Publisher)
    → find_url v ps ≡ none
    → find_url v (update_url r secs ps) ≡ none
unfolding find_url update_url
find_url-update_url-none v r secs [] h = refl
find_url-update_url-none v r secs (p ∷ ps) h = ground (arith, find_url-update_url-none v r secs ps)

update_url-Distinct :
    (r : Registration) (secs : ℕ) (ps : List Publisher)
    → Distinct ps
    → Distinct (update_url r secs ps)
unfolding update_url
update_url-Distinct r secs [] h = tt
update_url-Distinct r secs (p ∷ ps) h =
    ground (arith, find_url-update_url-none p.url r secs ps, update_url-Distinct r secs ps h.1)

find_url-append_none :
    (v : String) (q : Publisher) (ps : List Publisher)
    → find_url v ps ≡ none
    → (q.url == v) ≡ false
    → find_url v (ps ++ q ∷ []) ≡ none
unfolding find_url
find_url-append_none v q [] h n = ground arith
find_url-append_none v q (p ∷ ps) h n = ground (arith, find_url-append_none v q ps)

append-Distinct :
    (q : Publisher) (ps : List Publisher)
    → Distinct ps
    → find_url q.url ps ≡ none
    → Distinct (ps ++ q ∷ [])
unfolding find_url
append-Distinct q [] h n = (refl, tt)
append-Distinct q (p ∷ ps) h n = ground (
  arith,
  find_url-append_none p.url q ps,
  append-Distinct q ps h.1,
  string_key.beq_iff p.url q.url,
  string_key.beq_iff q.url p.url,
)

pub put_publisher-Distinct :
    (r : Registration) (secs : ℕ) (ps : List Publisher)
    → Distinct ps
    → Distinct (put_publisher r secs ps)
put_publisher-Distinct r secs ps h =
    ground (arith, append-Distinct (new_publisher r secs) ps h, update_url-Distinct r secs ps h)

find_url-append_new :
    (q : Publisher) (ps : List Publisher)
    → find_url q.url ps ≡ none
    → find_url q.url (ps ++ q ∷ []) ≡ some q
unfolding find_url
find_url-append_new q [] h = ground (arith, string_key.beq_iff q.url q.url)
find_url-append_new q (p ∷ ps) h = ground (arith, find_url-append_new q ps)

find_url-update_url :
    (r : Registration) (secs : ℕ) (p : Publisher) (ps : List Publisher)
    → find_url r.url ps ≡ some p
    → find_url r.url (update_url r secs ps) ≡ some (update_publisher r secs p)
unfolding find_url update_url
find_url-update_url r secs p [] h = cc
find_url-update_url r secs p (q ∷ ps) h = ground (arith, find_url-update_url r secs p ps)

find_url-erase_registration-none :
    (v url : String) (time : ℕ) (ps : List Publisher)
    → find_url v ps ≡ none
    → find_url v (erase_registration url time ps) ≡ none
unfolding find_url erase_registration
find_url-erase_registration-none v url time [] h = refl
find_url-erase_registration-none v url time (p ∷ ps) h =
    ground (arith, find_url-erase_registration-none v url time ps)

pub erase_registration-Distinct :
    (url : String) (time : ℕ) (ps : List Publisher)
    → Distinct ps
    → Distinct (erase_registration url time ps)
unfolding erase_registration
erase_registration-Distinct url time [] h = tt
erase_registration-Distinct url time (p ∷ ps) h = ground (
  arith,
  find_url-erase_registration-none p.url url time ps,
  erase_registration-Distinct url time ps h.1,
)

-- The entry that the list has for a registration's url.
abbrev pub entry : Registration → ℕ → List Publisher → Publisher
entry r secs ps = elim (find_url r.url ps) [
  | none ↦ new_publisher r secs
  | some p ↦ update_publisher r secs p
]

pub find_url-put_publisher :
    (r : Registration) (secs : ℕ) (ps : List Publisher)
    → find_url r.url (put_publisher r secs ps) ≡ some (entry r secs ps)
find_url-put_publisher r secs ps = go (find_url r.url ps) refl
  where
    go :
        (o : Option Publisher)
        → find_url r.url ps ≡ o
        → find_url r.url
            (elim o [ none ↦ ps ++ new_publisher r secs ∷ [] | some p ↦ update_url r secs ps ])
          ≡ some (elim o [ none ↦ new_publisher r secs | some p ↦ update_publisher r secs p ])
    go none e = find_url-append_new (new_publisher r secs) ps e
    go (some p) e = find_url-update_url r secs p ps e
