-- ===== src/Node/Registering.antt =====
-- registerDataProduct together with the service directory, and its branches.
use gravity.Prelude.{
  or_else, ℕ, ◌≡◌, refl, sym, ap, ◌∙◌, subst, String, Bool, true, false, not, inl, Option, none,
  some, if_false, if◌then◌else◌, arith,
}
use gravity.Prelude.Key.{string_key, beq_refl}
use gravity.Prelude.Maps.{Map, lookup, has, get_or, insert, lookup-insert, lookup-insert_key}
use gravity.Directory.State.{Directory}
use gravity.Directory.Register.{accepted, is_stale}
use gravity.Directory.Requests.{registration_request}
use gravity.Directory.Purged.{WellFormed}
use gravity.Node.State.{GravityReturnCode, success, is_success, not_initialized, Node, seconds}
use gravity.Node.World.{Opening, Answer, got, failed, World, ask_directory, network_retries, get_ip}
use gravity.Node.Publishers.{
  Registering, is_reserved, endpoint, directory_result, registration_code, announce_product,
  add_product, finish_product, register_new, register_data_product_internal,
}
use gravity.Node.Reregister.{is_got}
use gravity.Node.Answers.{IsHonest, ask_directory-IsHonest}
use gravity.Node.Delivery.{HasDirectory, IsListed, retry-Follows, registration}

module _ {W R : Type 0} (world : World W R) (o : Registering) (id : String) (n : Node) where
  abbrev pub opening : Opening
  opening = record {
    id = id;
    transport = o.transport;
    endpoint = endpoint (get_ip world n) id o.transport;
  }

  -- what the publish manager answers at the time of the clock
  abbrev pub opened : W → String × W
  opened w = world.publish_register opening o.cache_last_value (world.now w).1

  abbrev pub given_ip : Option String
  given_ip = if o.local_only then some (get_ip world n) else none

  -- a call that is not stopped by a guard
  abbrev pub IsNew : Type 0
  IsNew =
      (n.initialized ≡ true)
      × (is_reserved o.allow_reserved_ids id n ≡ false)
      × (has id n.publish_map ≡ false)

  pub register_new_lem :
      (w : W) → IsNew → register_data_product_internal world o id n w ≡ register_new world o id n w
  unfolding register_data_product_internal
  register_new_lem w (ready, free, new) =
      if_false (not n.initialized) _ _ (ap not ready)
      ∙ if_false (is_reserved o.allow_reserved_ids id n) _ _ free
      ∙ if_false (has id n.publish_map) _ _ new

  finish-success :
      (url : String) (time : ℕ) (a : GravityReturnCode × W)
      → (finish_product world id url time n a).0 ≡ success
      → (a.0 ≡ success)
        × ((finish_product world id url time n a).1 ≡ add_product id url time n)
        × ((finish_product world id url time n a).2 ≡ a.1)
  finish-success url time a h = ground (arith, h)

  answer-success :
      (a : Answer R)
      → IsHonest a
      → directory_result world registration_code a ≡ success
      → is_got a ≡ true
  answer-success (got r) honest h = refl
  answer-success (failed c) honest h = absurd (ground (arith, h, honest))

  announce-success :
      (url : String) (time : ℕ) (w : W)
      → (announce_product world o id url time n w).0 ≡ success
      → let a =
          ask_directory world n
            (registration_request
              (registration id url time (some o.is_relay) given_ip n.component_id))
            w in
        ((announce_product world o id url time n w).1 ≡ a.1) × (is_got a.0 ≡ true)
  unfolding announce_product
  announce-success url time w h =
      let q =
        registration_request (registration id url time (some o.is_relay) given_ip n.component_id) in
      let a = ask_directory world n q w in
      ground (arith, h, answer-success a.0 (ask_directory-IsHonest world n q w))

  -- For a product that no guard stops, whatever becomes of the requests: the call succeeds exactly
  -- when the node has the product afterwards, and a call that does not succeed leaves the node as
  -- it was, while the publish manager is told last to give the product up.
  pub register-outcome :
      IsNew
      → (w : W)
      → let r = register_data_product_internal world o id n w in
        (has id r.1.publish_map ≡ is_success r.0)
        × (is_success r.0 ≡ false
            → (r.1 ≡ n)
              × (r.2
                  ≡ world.publish_unregister id
                      (announce_product world o id (opened w).0 (world.now w).0 n (opened w).1).1))
  unfolding register_new
  register-outcome fresh w =
      let url = (opened w).0 in
      let time = (world.now w).0 in
      let a = announce_product world o id url time n (opened w).1 in
      let e = register_new_lem w fresh in
      subst
        (λ (r : GravityReturnCode × Node × W).
          (has id r.1.publish_map ≡ is_success r.0)
          × (is_success r.0 ≡ false → (r.1 ≡ n) × (r.2 ≡ world.publish_unregister id a.1)))
        (sym e) (finished url time a fresh.2)
    where
      finished :
          (url : String) (time : ℕ) (a : GravityReturnCode × W)
          → has id n.publish_map ≡ false
          → (has id (finish_product world id url time n a).1.publish_map
              ≡ is_success (finish_product world id url time n a).0)
            × (is_success (finish_product world id url time n a).0 ≡ false
                → ((finish_product world id url time n a).1 ≡ n)
                  × ((finish_product world id url time n a).2 ≡ world.publish_unregister id a.1))
      finished url time a new =
          ground (arith, new, lookup-insert id id url n.publish_map, beq_refl id)

inserted {ℓ} :
    {V : Type ℓ} (k : String) (d v : V) (m : Map String V) → get_or d k (insert k v m) ≡ v
inserted k d v m = ap (or_else d) (lookup-insert_key k k v m (beq_refl k))

accepted-current :
    (id url : String) (time : ℕ) (relay : Option Bool) (ip : Option String) (component : String)
    (d : Directory)
    → is_stale time (lookup url d.registration_instance_map) ≡ false
    → accepted (registration id url time relay ip component) d ≡ some time
unfolding accepted
accepted-current id url time relay ip component d h = if_false _ _ _ h

module _ {W R : Type 0} (world : World W R) (directory_of : W → Directory)
    (link : HasDirectory world directory_of) (o : Registering) (id : String) (n : Node) where
  -- For a node whose guards let the call pass, and a directory whose lists name each url once and
  -- that has no newer registration of the url: a new product that was registered with success, over
  -- requests and answers that may be lost, is listed by the directory under the url and the time
  -- that the node keeps for it.
  pub register-IsListed :
      (w : W)
      → IsNew world o id n
      → WellFormed (directory_of w)
      → is_stale
          (world.now w).0
          (lookup (opened world o id n w).0 (directory_of w).registration_instance_map)
        ≡ false
      → (register_data_product_internal world o id n w).0 ≡ success
      → let r = register_data_product_internal world o id n w in
        IsListed id
          (get_or "" id r.1.publish_map)
          (get_or 0 id r.1.data_registration_time_map)
          (directory_of r.2)
  unfolding register_new ask_directory
  register-IsListed w fresh well current done =
      let url = (opened world o id n w).0 in
      let time = (world.now w).0 in
      let m = (opened world o id n w).1 in
      let q =
        registration_request
          (registration id url time (some o.is_relay) (given_ip world o id n) n.component_id) in
      let e = register_new_lem world o id n w fresh in
      let same : directory_of m ≡ directory_of w = link.quiet_register _ _ _ ∙ link.quiet_clock w in
      let f =
        finish-success world o id n url time (announce_product world o id url time n m)
          (ap (λ r. r.0) (sym e) ∙ done) in
      let g = announce-success world o id n url time m f.0 in
      let l =
        (retry-Follows world directory_of link id url time (some o.is_relay) (given_ip world o id n)
            n.component_id (directory_of m) (subst WellFormed (sym same) well)
            (accepted-current id url time (some o.is_relay) (given_ip world o id n) n.component_id
              (directory_of m)
              (ap (λ d. is_stale time (lookup url d.registration_instance_map)) same ∙ current))
            network_retries n.service_directory_node (failed not_initialized) m
            (inl refl, λ h. cc)).1
          g.1 in
      subst
        (λ (r : GravityReturnCode × Node × W).
          IsListed id (get_or "" id r.1.publish_map) (get_or 0 id r.1.data_registration_time_map)
            (directory_of r.2))
        (sym e)
        (finished url time (announce_product world o id url time n m) f.0
          (subst (λ x. IsListed id url (seconds time) (directory_of x)) (sym g.0) l.1))
    where
      finished :
          (url : String) (time : ℕ) (a : GravityReturnCode × W)
          → a.0 ≡ success
          → IsListed id url (seconds time) (directory_of a.1)
          → let r = finish_product world id url time n a in
            IsListed id
              (get_or "" id r.1.publish_map)
              (get_or 0 id r.1.data_registration_time_map)
              (directory_of r.2)
      finished url time (success, w) h l =
          subst
            (λ u.
              IsListed id u (get_or 0 id (insert id (seconds time) n.data_registration_time_map))
                (directory_of w))
            (sym (inserted id "" url n.publish_map))
            (subst (λ t. IsListed id url t (directory_of w))
              (sym (inserted id 0 (seconds time) n.data_registration_time_map)) l)
      finished url time (c, w) h l = absurd (cc)
