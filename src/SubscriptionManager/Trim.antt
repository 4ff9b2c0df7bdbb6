-- ===== src/SubscriptionManager/Trim.antt =====
-- trimPublishers: which publishers of a data product a node subscribes to, and what that comes to.
use gravity.Prelude.{
  ℕ, ◌≡◌, refl, sym, append_nil, append_last, String, Bool, true, false, not, ◌&&◌, ◌||◌, List, [],
  ◌∷◌, ◌++◌, Option, none, some, is_some, if◌then◌else◌, arith,
}
use gravity.Prelude.Key.{◌==◌, string_key}

-- PublisherInfoPB, with the defaults of the fields that are only read
pub record Info : Type 0 where
  pub url : Option String
  pub is_relay : Bool
  pub component_id : String
  pub ip_address : Option String
  pub registration_time : ℕ

abbrev pub is_own_relay : String → Info → Bool
is_own_relay component p = is_some p.url && p.is_relay && (p.component_id == component)

abbrev pub i_am_relay : String → List Info → Bool
i_am_relay component [] = false
i_am_relay component (p ∷ ps) = is_own_relay component p || i_am_relay component ps

-- the second loop, from what was found of the others
unfoldable pub trim_loop : String → Bool → Bool → List Info → List Info → List Info
trim_loop ip own found trimmed [] = trimmed
trim_loop ip own found trimmed (p ∷ ps) =
    let skip = trim_loop ip own found trimmed ps in
    let push = trim_loop ip own found (trimmed ++ p ∷ []) ps in
    let global = trim_loop ip own true (p ∷ []) ps in
    if not (is_some p.url)
    then skip
    else if own
    then (if not p.is_relay then push else skip)
    else if p.is_relay
    then (elim p.ip_address [ none ↦ global | some i ↦ if i == ip then p ∷ [] else skip ])
    else if not found
    then push
    else skip

-- trimPublishers
unfoldable pub trim_publishers : String → String → List Info → List Info
unfolding trim_loop
trim_publishers component ip ps = trim_loop ip (i_am_relay component ps) false [] ps

-- the first publisher with a url that is a relay of the component itself
abbrev pub own_relay : String → List Info → Option Info
own_relay component [] = none
own_relay component (p ∷ ps) =
    let rest = own_relay component ps in
    if is_some p.url && p.is_relay && (p.component_id == component) then some p else rest

i_am_relay-own :
    (component : String) (ps : List Info)
    → i_am_relay component ps ≡ is_some (own_relay component ps)
i_am_relay-own component [] = refl
i_am_relay-own component (p ∷ ps) = ground (arith, i_am_relay-own component ps)

-- the publishers that are no relays
abbrev pub plain : List Info → List Info
plain [] = []
plain (p ∷ ps) = let rest = plain ps in if is_some p.url && not p.is_relay then p ∷ rest else rest

abbrev pub is_local_relay : String → Info → Bool
is_local_relay ip p =
    is_some p.url && p.is_relay && (elim p.ip_address [ none ↦ false | some i ↦ i == ip ])

abbrev pub is_global_relay : Info → Bool
is_global_relay p = is_some p.url && p.is_relay && not (is_some p.ip_address)

abbrev pub first_local_relay : String → List Info → Option Info
first_local_relay ip [] = none
first_local_relay ip (p ∷ ps) =
    let rest = first_local_relay ip ps in if is_local_relay ip p then some p else rest

abbrev pub last_global_relay : List Info → Option Info
last_global_relay [] = none
last_global_relay (p ∷ ps) =
    let rest = last_global_relay ps in
    if not (is_some rest) && is_global_relay p then some p else rest

-- The relay of this host, else the last relay for all, else what there is otherwise.
abbrev pub chosen : Option Info → Option Info → List Info → List Info
chosen (some p) global others = p ∷ []
chosen none (some p) others = p ∷ []
chosen none none others = others

trim_loop-relay :
    (ip : String) (found : Bool) (trimmed ps : List Info)
    → trim_loop ip true found trimmed ps ≡ trimmed ++ plain ps
unfolding trim_loop
trim_loop-relay ip found trimmed [] = sym (append_nil trimmed)
trim_loop-relay ip found trimmed (p ∷ ps) = ground (
  arith,
  trim_loop-relay ip found trimmed ps,
  trim_loop-relay ip found (trimmed ++ p ∷ []) ps,
  append_last trimmed (plain ps) p,
)

trim_loop-chosen :
    (ip : String) (found : Bool) (trimmed ps : List Info)
    → trim_loop ip false found trimmed ps
      ≡ chosen
          (first_local_relay ip ps)
          (last_global_relay ps)
          (if found then trimmed else trimmed ++ plain ps)
unfolding trim_loop
trim_loop-chosen ip found trimmed [] = ground (arith, append_nil trimmed)
trim_loop-chosen ip found trimmed (p ∷ ps) = ground (
  arith,
  trim_loop-chosen ip found trimmed ps,
  trim_loop-chosen ip true (p ∷ []) ps,
  trim_loop-chosen ip found (trimmed ++ p ∷ []) ps,
  append_last trimmed (plain ps) p,
)

-- trimPublishers: a node that is itself a relay of the product gets the publishers that are no
-- relays; any other node gets the first relay of its own address alone, or else the last relay
-- without an address alone, or else the publishers that are no relays. Publishers without a url and
-- the relays of other addresses are left out.
pub trim_publishers-chosen :
    (component ip : String) (ps : List Info)
    → trim_publishers component ip ps ≡ (
        if is_some (own_relay component ps)
        then plain ps
        else chosen (first_local_relay ip ps) (last_global_relay ps) (plain ps))
unfolding trim_publishers
trim_publishers-chosen component ip ps = ground (
  arith,
  i_am_relay-own component ps,
  trim_loop-relay ip false [] ps,
  trim_loop-chosen ip false [] ps,
)
