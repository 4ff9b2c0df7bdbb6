-- ===== src/Directory/Keeping.antt =====
-- Lists of publishers described without the functions that search, update and erase, and that
-- those functions agree where each url stands once.
use gravity.Prelude.{
  ℕ, ◌/◌, ◌%◌, ◌^◌, ◌≡◌, refl, String, Bool, false, not, ◌&&◌, ◌||◌, List, [], ◌∷◌, ◌++◌, map,
  if◌then◌else◌, nat_eq, Option, none, some, is_some, arith,
}
use gravity.Prelude.Key.{◌==◌, string_key}
use gravity.Directory.Messages.{Publisher, Registration}
use gravity.Directory.Publishers.{find_url, erase_url}
use gravity.Directory.Register.{update_url, put_publisher, is_duplicate, update_publisher}
use gravity.Directory.Unregister.{erase_registration}
use gravity.Directory.Distinct.{Distinct}

-- the publishers that pass a test, and whether one does
abbrev pub keep : (Publisher → Bool) → List Publisher → List Publisher
keep test [] = []
keep test (p ∷ ps) = let rest = keep test ps in if test p then p ∷ rest else rest

abbrev pub has_one : (Publisher → Bool) → List Publisher → Bool
has_one test [] = false
has_one test (p ∷ ps) = test p || has_one test ps

-- a timestamp's microseconds in seconds, in 32 bits
abbrev pub whole_seconds : ℕ → ℕ
whole_seconds t = t / 1_000_000 % 2 ^ 32

abbrev pub newer {ℓ} : {A : Type ℓ} → Option A → Option A → Option A
newer (some a) old = some a
newer none old = old

-- a publisher at the url of a registration, before it and after it
abbrev pub refreshed : Registration → ℕ → Publisher → Publisher
refreshed r time p = record {
  url = p.url;
  is_relay = newer r.is_relay p.is_relay;
  component_id = newer r.component_id p.component_id;
  ip_address = newer r.ip_address p.ip_address;
  registration_time = time;
}

abbrev pub first_of : Registration → ℕ → Publisher
first_of r time = record {
  url = r.url;
  is_relay = r.is_relay;
  component_id = r.component_id;
  ip_address = r.ip_address;
  registration_time = time;
}

abbrev pub with_registration : Registration → ℕ → List Publisher → List Publisher
with_registration r time ps =
    if has_one (λ p. p.url == r.url) ps
    then map (λ p. if p.url == r.url then refreshed r time p else p) ps
    else ps ++ first_of r time ∷ []

is_some-find_url :
    (url : String) (ps : List Publisher)
    → has_one (λ p. p.url == url) ps ≡ is_some (find_url url ps)
unfolding find_url
is_some-find_url url [] = refl
is_some-find_url url (p ∷ ps) = ground (arith, is_some-find_url url ps)

keep-absent :
    (url : String) (ps : List Publisher)
    → find_url url ps ≡ none
    → keep (λ p. not (p.url == url)) ps ≡ ps
unfolding find_url
keep-absent url [] h = refl
keep-absent url (p ∷ ps) h = ground (arith, keep-absent url ps)

pub erase_url-keep :
    (url : String) (ps : List Publisher)
    → Distinct ps
    → erase_url url ps ≡ keep (λ p. not (p.url == url)) ps
unfolding erase_url
erase_url-keep url [] h = refl
erase_url-keep url (p ∷ ps) h =
    ground (arith, h.0, erase_url-keep url ps h.1, keep-absent url ps, string_key.beq_iff p.url url)

map-absent :
    (r : Registration) (time : ℕ) (ps : List Publisher)
    → find_url r.url ps ≡ none
    → map (λ p. if p.url == r.url then refreshed r time p else p) ps ≡ ps
unfolding find_url
map-absent r time [] h = refl
map-absent r time (p ∷ ps) h = ground (arith, map-absent r time ps)

update-refreshed :
    (r : Registration) (time : ℕ) (p : Publisher) → update_publisher r time p ≡ refreshed r time p
update-refreshed r time p = ground arith

update_url-map :
    (r : Registration) (time : ℕ) (ps : List Publisher)
    → Distinct ps
    → update_url r time ps ≡ map (λ p. if p.url == r.url then refreshed r time p else p) ps
unfolding update_url
update_url-map r time [] h = refl
update_url-map r time (p ∷ ps) h = ground (
  arith,
  h.0,
  update_url-map r time ps h.1,
  map-absent r time ps,
  update-refreshed r time p,
  string_key.beq_iff p.url r.url,
)

pub put_publisher-with_registration :
    (r : Registration) (time : ℕ) (ps : List Publisher)
    → Distinct ps
    → put_publisher r time ps ≡ with_registration r time ps
put_publisher-with_registration r time ps h =
    ground (arith, is_some-find_url r.url ps, update_url-map r time ps h)

absent-timed :
    (url : String) (time : ℕ) (ps : List Publisher)
    → find_url url ps ≡ none
    → has_one (λ p. p.url == url && nat_eq p.registration_time time) ps ≡ false
unfolding find_url
absent-timed url time [] h = refl
absent-timed url time (p ∷ ps) h = ground (arith, absent-timed url time ps)

pub is_duplicate-has_one :
    (r : Registration) (time : ℕ) (ps : List Publisher)
    → Distinct ps
    → is_duplicate r time ps ≡ has_one (λ p. p.url == r.url && nat_eq p.registration_time time) ps
unfolding find_url
is_duplicate-has_one r time [] h = refl
is_duplicate-has_one r time (p ∷ ps) h = ground (
  arith,
  h.0,
  is_duplicate-has_one r time ps h.1,
  absent-timed r.url time ps,
  string_key.beq_iff p.url r.url,
)

keep-timed :
    (url : String) (time : ℕ) (ps : List Publisher)
    → find_url url ps ≡ none
    → keep (λ p. not (p.url == url && nat_eq p.registration_time time)) ps ≡ ps
unfolding find_url
keep-timed url time [] h = refl
keep-timed url time (p ∷ ps) h = ground (arith, keep-timed url time ps)

pub erase_registration-keep :
    (url : String) (time : ℕ) (ps : List Publisher)
    → Distinct ps
    → erase_registration url time ps
      ≡ keep (λ p. not (p.url == url && nat_eq p.registration_time time)) ps
unfolding erase_registration
erase_registration-keep url time [] h = refl
erase_registration-keep url time (p ∷ ps) h = ground (
  arith,
  h.0,
  erase_registration-keep url time ps h.1,
  keep-timed url time ps,
  string_key.beq_iff p.url url,
)
