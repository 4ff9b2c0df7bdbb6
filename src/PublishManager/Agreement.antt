-- ===== src/PublishManager/Agreement.antt =====
-- The maps, the objects and the poll items agree.
use gravity.Prelude.{
  ℕ, ◌+◌, ◌≤◌, ◌≡◌, refl, sym, ap, ◌∙◌, String, true, false, ◌||◌, Bool-cases, inl, inr, List, [],
  ◌∷◌, ◌++◌, Option, none, some, nat_eq, nat_eq_iff, arith, some_inj,
}
use gravity.Prelude.Key.{◌==◌, string_key, nat_key}
use gravity.Prelude.Maps.{
  Map, lookup, has, insert, erase, touch, lookup-insert, lookup-insert_key, lookup-insert_apart,
  lookup-erase, lookup-touch,
}
use gravity.PollItems.{without, is_polled, is_polled-append, is_polled-without}
use gravity.Ports.{Url}
use gravity.PublishManager.State.{Details, Manager, init}
use gravity.PublishManager.Commands.{Registration, new_details}

-- A product's object is there, and is the product's.
abbrev pub Names : Map ℕ Details → String → ℕ → Type 0
Names objects id p = (d : Details) × (lookup p objects ≡ some d) × (d.data_product_id ≡ id)

-- The invariant, of the parts of the state that it is about.
pub record Agrees (objects : Map ℕ Details) (next_object next_socket : ℕ) (by_socket : Map ℕ ℕ)
    (by_id : Map String (Option ℕ)) (polls : List ℕ) : Type 0 where
  pub fresh_object : (p : ℕ) → next_object ≤ p → has p objects ≡ false
  pub fresh_socket : (k : ℕ) → next_socket ≤ k → has k by_socket ≡ false
  pub named : (id : String) (p : ℕ) → lookup id by_id ≡ some (some p) → Names objects id p
  pub linked : (k p : ℕ) → lookup k by_socket ≡ some p → has p objects ≡ true
  pub polled : (k : ℕ) → is_polled k polls ≡ has k by_socket

abbrev pub Inv : Manager → Type 0
Inv s =
    Agrees s.objects s.next_object s.next_socket s.publish_map_by_socket s.publish_map_by_id
      s.poll_items

pub init-Inv : Inv init
unfolding lookup
init-Inv = record {
  fresh_object = λ p n. refl;
  fresh_socket = λ k n. refl;
  named = λ id p e. absurd (ground (arith, e));
  linked = λ k p e. absurd (ground (arith, e));
  polled = λ k. refl;
}

Names-insert :
    (objects : Map ℕ Details) (p : ℕ) (d d' : Details) (id : String) (q : ℕ)
    → lookup p objects ≡ some d
    → d'.data_product_id ≡ d.data_product_id
    → Names objects id q
    → Names (insert p d' objects) id q
Names-insert objects p d d' id q there same (e, found, name) = elim (Bool-cases (nat_eq p q)) [
  | inl at ↦
      let d_is_e : d ≡ e =
        some_inj (sym there ∙ ap (λ k. lookup k objects) ((nat_eq_iff p q).0 at) ∙ found) in
      (
        d',
        lookup-insert_key p q d' objects at,
        same ∙ ap (λ (x : Details). x.data_product_id) d_is_e ∙ name,
      )
  | inr off ↦ (e, lookup-insert_apart p q d' objects off ∙ found, name)
]

has-insert :
    (p q : ℕ) (d : Details) (objects : Map ℕ Details)
    → has q (insert p d objects) ≡ (nat_eq p q || has q objects)
has-insert p q d objects = ground (arith, lookup-insert p q d objects)

module _ (objects : Map ℕ Details) (next_object next_socket : ℕ) (by_socket : Map ℕ ℕ)
    (by_id : Map String (Option ℕ)) (polls : List ℕ)
    (h : Agrees objects next_object next_socket by_socket by_id polls) where
  -- An object is written, and stays its product's.
  pub write-Agrees :
      (p : ℕ) (d d' : Details)
      → lookup p objects ≡ some d
      → d'.data_product_id ≡ d.data_product_id
      → Agrees (insert p d' objects) next_object next_socket by_socket by_id polls
  write-Agrees p d d' there same = record {
    fresh_object =
        λ q n. ground (arith, has-insert p q d' objects, h.fresh_object q n, there, nat_eq_iff p q);
    fresh_socket = h.fresh_socket;
    named = λ id q e. Names-insert objects p d d' id q there same (h.named id q e);
    linked = λ k q e. ground (arith, has-insert p q d' objects, h.linked k q e);
    polled = h.polled;
  }

  pub touch-Agrees :
      (id : String) → Agrees objects next_object next_socket by_socket (touch none id by_id) polls
  touch-Agrees id = record {
    fresh_object = h.fresh_object;
    fresh_socket = h.fresh_socket;
    named = λ j q e.
        h.named j q (ground (arith, e, lookup-touch none id j by_id, string_key.beq_iff id j));
    linked = h.linked;
    polled = h.polled;
  }

  pub remove-Agrees :
      (id : String) (socket : ℕ)
      → Agrees objects next_object next_socket
          (erase socket by_socket)
          (erase id by_id)
          (without socket polls)
  remove-Agrees id socket = record {
    fresh_object = h.fresh_object;
    fresh_socket = λ k n. ground (arith, h.fresh_socket k n, lookup-erase socket k by_socket);
    named = λ j q e. h.named j q (ground (arith, e, lookup-erase id j by_id));
    linked = λ k q e. h.linked k q (ground (arith, e, lookup-erase socket k by_socket));
    polled = λ k.
        ground
          (arith, h.polled k, is_polled-without k socket polls, lookup-erase socket k by_socket);
  }

  pub add-Agrees :
      (r : Registration) (url : Url)
      → let d = new_details r url next_socket in
        Agrees
          (insert next_object d objects)
          (next_object + 1)
          (next_socket + 1)
          (insert next_socket next_object by_socket)
          (insert r.data_product_id (some next_object) by_id)
          (polls ++ next_socket ∷ [])
  add-Agrees r url = record {
    fresh_object = λ q n.
        ground (
          arith,
          n,
          has-insert next_object q d objects,
          h.fresh_object q,
          nat_eq_iff next_object q,
        );
    fresh_socket = λ k n. ground (
      arith,
      n,
      lookup-insert next_socket k next_object by_socket,
      h.fresh_socket k,
      nat_eq_iff next_socket k,
    );
    named = λ j q e. elim (Bool-cases (r.data_product_id == j)) [
      | inl at ↦
          let q_eq : next_object ≡ q = some_inj (
            some_inj
              (sym (lookup-insert_key r.data_product_id j (some next_object) by_id at) ∙ e)) in
          (
            d,
            lookup-insert_key next_object q d objects ((nat_eq_iff next_object q).1 q_eq),
            (string_key.beq_iff r.data_product_id j).0 at,
          )
      | inr off ↦
          let (x, found, name) =
            h.named j q
              (sym (lookup-insert_apart r.data_product_id j (some next_object) by_id off) ∙ e) in
          (
            x,
            ground (
              arith,
              found,
              lookup-insert next_object q d objects,
              h.fresh_object next_object,
              nat_eq_iff next_object q,
            ),
            name,
          )
    ];
    linked = λ k q e. ground (
      arith,
      e,
      has-insert next_object q d objects,
      lookup-insert next_socket k next_object by_socket,
      h.linked k q,
      nat_eq_iff next_object q,
    );
    polled = λ k. ground (
      arith,
      h.polled k,
      is_polled-append k next_socket polls,
      lookup-insert next_socket k next_object by_socket,
    );
  }
    where
      d : Details
      d = new_details r url next_socket
