-- ===== src/Directory/Purged.antt =====
-- Which publishers purgeObsoletePublishers leaves.
use gravity.Prelude.{
  ◌≡◌, refl, ◌∙◌, String, true, not, ◌&&◌, List, [], ◌∷◌, if◌then◌else◌, none, is_some, is_empty,
  arith,
}
use gravity.Prelude.Key.{◌==◌, string_key}
use gravity.Prelude.Maps.{Map, has, lookup, get_or, insert, erase, get_or-insert, get_or-erase}
use gravity.Directory.Messages.{Publisher, removed, data_product}
use gravity.Directory.State.{
  Directory, publishers_of, instance_of, set_products, set_publishers, open_products,
}
use gravity.Directory.Publishers.{
  find_url, erase_url, announce, purge_publisher, drop_if_empty, purge_key, purge_keys,
  purge_obsolete_publishers,
}
use gravity.Directory.Distinct.{Distinct, erase_url-absent, find_url-erase_url}
use gravity.Directory.View.{open_products-SameView}
use gravity.Directory.SilentWrites.{announce-SameView, update_product_locations-SameView}
use gravity.Directory.Purge.{purge_key-Aside}

-- The one cell of the map that a write changes.
pub publishers_of-set_publishers :
    (d id : String) (infos : List Publisher) (s : Directory) (e i : String)
    → publishers_of (set_publishers d id infos s) e i
      ≡ (if (d == e) && (id == i) then infos else publishers_of s e i)
unfolding set_publishers set_products
publishers_of-set_publishers d id infos s e i =
    let old = get_or [] d s.data_product_map in
    ground (
      arith,
      get_or-insert [] d e (insert id infos old) s.data_product_map,
      get_or-insert [] id i infos old,
      string_key.beq_iff d e,
    )

is_empty-nil : (ps : List Publisher) → is_empty ps ≡ true → ps ≡ []
is_empty-nil [] h = refl
is_empty-nil (p ∷ ps) h = cc

-- Dropping an entry with no publisher shows in no read.
pub publishers_of-drop_if_empty :
    (d key : String) (s : Directory) (e i : String)
    → publishers_of (drop_if_empty d key s) e i ≡ publishers_of s e i
unfolding drop_if_empty set_products
publishers_of-drop_if_empty d key s e i =
    let old = get_or [] d s.data_product_map in
    ground (
      arith,
      get_or-insert [] d e (erase key old) s.data_product_map,
      get_or-erase [] key i old,
      string_key.beq_iff d e,
      string_key.beq_iff key i,
      is_empty-nil (publishers_of s d key),
    )

publishers_of-purge_publisher :
    (key url : String) (s : Directory) (e i : String)
    → publishers_of (purge_publisher key url s) e i ≡ (
        if (s.domain == e) && (key == i)
        then erase_url url (publishers_of s s.domain key)
        else publishers_of s e i)
unfolding purge_publisher
publishers_of-purge_publisher key url s e i =
    let s1 = set_publishers s.domain key (erase_url url (publishers_of s s.domain key)) s in
    let s2 = announce key s.domain s1 in
    (update_product_locations-SameView key url (instance_of s2 url) removed data_product
        s2).same_publishers
      e i
    ∙ (announce-SameView key s.domain s1).same_publishers e i
    ∙ publishers_of-set_publishers s.domain key _ s e i

pub publishers_of-purge_key :
    (id url key : String) (s : Directory) (e i : String)
    → publishers_of (purge_key id url key s) e i ≡ (
        if (s.domain == e) && (key == i) && not (i == id)
        then erase_url url (publishers_of s e i)
        else publishers_of s e i)
unfolding purge_key
publishers_of-purge_key id url key s e i =
    let obsolete = not (key == id) && is_some (find_url url (publishers_of s s.domain key)) in
    let t = (if obsolete then purge_publisher key url s else s) in
    ground (
      arith,
      publishers_of-drop_if_empty s.domain key t e i,
      publishers_of-purge_publisher key url s e i,
      string_key.beq_iff s.domain e,
      string_key.beq_iff key i,
      erase_url-absent url (publishers_of s e i),
    )

-- Erasing the url once is enough, in every list of our own domain.
record OnceEach (url : String) (s : Directory) : Type 0 where
  gone : (i : String) → find_url url (erase_url url (publishers_of s s.domain i)) ≡ none

purge_key-OnceEach :
    (id url key : String) (s : Directory) → OnceEach url s → OnceEach url (purge_key id url key s)
purge_key-OnceEach id url key s h = record {
  gone = λ i.
      rw
        (
          (purge_key-Aside id url key s).same_domain,
          publishers_of-purge_key id url key s s.domain i,
        )
        (ground
          (arith, h.gone i, erase_url-absent url (erase_url url (publishers_of s s.domain i))));
}

publishers_of-purge_keys :
    (id url : String) (m : Map String (List Publisher)) (s : Directory)
    → OnceEach url s
    → (e i : String)
    → publishers_of (purge_keys id url m s) e i ≡ (
        if (s.domain == e) && has i m && not (i == id)
        then erase_url url (publishers_of s e i)
        else publishers_of s e i)
unfolding purge_keys lookup
publishers_of-purge_keys id url [] s h e i = ground arith
publishers_of-purge_keys id url ((key, infos) ∷ m) s h e i = ground (
  arith,
  publishers_of-purge_keys id url m (purge_key id url key s) (purge_key-OnceEach id url key s h) e
      i,
  (purge_key-Aside id url key s).same_domain,
  publishers_of-purge_key id url key s e i,
  h.gone i,
  string_key.beq_iff s.domain e,
  erase_url-absent url (erase_url url (publishers_of s s.domain i)),
)

-- Every list of publishers names each url once.
pub record WellFormed (s : Directory) : Type 0 where
  pub distinct : (d i : String) → Distinct (publishers_of s d i)

opened-OnceEach :
    (url : String) (s : Directory) → WellFormed s → OnceEach url (open_products s.domain s)
opened-OnceEach url s w = record {
  gone = λ i.
      let v = open_products-SameView s.domain s in
      rw (v.same_domain, v.same_publishers s.domain i)
        (find_url-erase_url url (publishers_of s s.domain i) (w.distinct s.domain i));
}

-- In our own domain the url goes from every product but the one named; nothing else changes.
pub purge_obsolete_publishers_lem :
    (id url : String) (s : Directory)
    → WellFormed s
    → (d i : String)
    → publishers_of (purge_obsolete_publishers id url s) d i ≡ (
        if (s.domain == d) && not (i == id)
        then erase_url url (publishers_of s d i)
        else publishers_of s d i)
unfolding purge_obsolete_publishers erase_url
purge_obsolete_publishers_lem id url s w d i =
    let v = open_products-SameView s.domain s in
    ground (
      arith,
      publishers_of-purge_keys id url (get_or [] s.domain s.data_product_map)
          (open_products s.domain s) (opened-OnceEach url s w) d i,
      v.same_domain,
      v.same_publishers d i,
      string_key.beq_iff s.domain d,
    )
