-- ===== src/Node/RestartTests.antt =====
-- A node that registers again with a service directory that has a publisher for it.
use gravity.Prelude.{
  ◌≡◌, ◌⊎◌, inl, inr, refl, ap, ◌∙◌, String, true, false, List, [], ◌∷◌, none, some, arith,
}
use gravity.Prelude.Key.{◌==◌, string_key}
use gravity.Prelude.Maps.{lookup, insert, place, replace, touch}
use gravity.Directory.Messages.{Response, publisher_list, Publisher, Registration, data_product}
use gravity.Directory.State.{Directory, publishers_of, registered_publishers_id}
use gravity.Directory.Publishers.{find_url}
use gravity.Directory.Register.{handle_register, accepted}
use gravity.Directory.Requests.{
  registration_request, lookup_request, handle_lookup, request, serve, main_request, run, init,
}
use gravity.Directory.Purged.{WellFormed}
use gravity.Directory.Registered.{
  SamePublishers, SamePublishers-WellFormed, SameView-SamePublishers,
}
use gravity.Directory.OtherUrls.{find_url-handle_register}
use gravity.Directory.ReadOnly.{handle_lookup-SameView}
use gravity.Directory.Settled.{handle_register-Settled}
use gravity.Directory.Invariant.{run-init-Inv, handle_register-WellFormed}
use gravity.DataProduct.{new_product}
use gravity.PublishManager.Commands.{subscribers}
use gravity.Node.State.{success, DirectoryCode, SubscriptionDetails, Node}
use gravity.Node.World.{answered, World}
use gravity.Node.Subscriptions.{product_lookup}
use gravity.Node.Address.{Address, parse_url, before, behind}
use gravity.Node.Reregister.{reregister}
use gravity.Node.Delivery.{process_pending-SamePublishers}
use gravity.Node.Serving.{Serves}
use gravity.Node.Restart.{made_again, reregister-subscription_list}

abbrev read_publishers : Response → List Publisher
read_publishers (publisher_list l) = l.publishers
read_publishers _ = []

-- every request reaches the directory, and its answer the node
abbrev joined : World Directory Response
joined = record {
  directory = λ node q d. (answered (serve q d).0, (serve q d).1);
  provider = λ url p timeout d. (answered (new_product url), d);
  directory_code = λ r. DirectoryCode.success;
  publishers = read_publishers;
  has_url = λ p. true;
  service_url = λ r. "";
  service_time = λ r. 0;
  publish_register = λ o cache d. ("tcp://camera:1", d);
  publish_unregister = λ id d. d;
  subscribers_exist = λ id d. (subscribers true, d);
  service_register = λ o time server d. ("", d);
  service_unregister = λ id d. d;
  create_future_response = λ ip d. ("", d);
  send_future_response = λ url p d. (success, d);
  now = λ d. (5_000_000, d);
  local_ip = λ node. "10.0.0.2";
  to_dotted_quad = λ host. host;
  string_to_int = λ text d. d;
}

abbrev updates_url : String
updates_url = "tcp://directory:1"

abbrev depth_url : String
depth_url = "tcp://lab:3"

-- the directory lists a publisher of the product at the url
abbrev Lists : String → String → Directory → Type 0
Lists id url d = (p : Publisher) × (find_url url (publishers_of d "Home" id) ≡ some p)

record Good (d : Directory) : Type 0 where
  well_formed : WellFormed d
  domain_eq : d.domain ≡ "Home"
  updates : Lists registered_publishers_id updates_url d
  depth : Lists "Depth" depth_url d

abbrev Wanted : String → String → Type 0
Wanted id domain = (domain ≡ "Home") × ((id ≡ registered_publishers_id) ⊎ (id ≡ "Depth"))

abbrev Own : Registration → Type 0
Own r = ((r.url == updates_url) ≡ false) × ((r.url == depth_url) ≡ false)

Good-SamePublishers : {s t : Directory} → SamePublishers s t → Good s → Good t
Good-SamePublishers {s} {t} v g = record {
  well_formed = SamePublishers-WellFormed v g.well_formed;
  domain_eq = v.same_domain ∙ g.domain_eq;
  updates = (
    g.updates.0,
    ap (find_url updates_url) (v.same_publishers "Home" registered_publishers_id) ∙ g.updates.1,
  );
  depth = (g.depth.0, ap (find_url depth_url) (v.same_publishers "Home" "Depth") ∙ g.depth.1);
}

register-Good :
    (r : Registration) (d : Directory) → Good d → Own r → Good (serve (registration_request r) d).1
unfolding serve request
register-Good r d g own =
    Good-SamePublishers (process_pending-SamePublishers (handle_register r d).1) (record {
      well_formed = handle_register-WellFormed r d g.well_formed;
      domain_eq = (handle_register-Settled r d).same_domain ∙ g.domain_eq;
      updates = (
        g.updates.0,
        find_url-handle_register updates_url r own.0 d "Home" registered_publishers_id g.well_formed
            ∙ g.updates.1,
      );
      depth = (
        g.depth.0,
        find_url-handle_register depth_url r own.1 d "Home" "Depth" g.well_formed ∙ g.depth.1,
      );
    })

lookup-Good :
    (id domain : String) (d : Directory)
    → Good d
    → Good (serve (lookup_request (product_lookup id domain)) d).1
unfolding serve request
lookup-Good id domain d g =
    let q = product_lookup id domain in
    Good-SamePublishers (process_pending-SamePublishers (handle_lookup q d).1)
      (Good-SamePublishers (SameView-SamePublishers (handle_lookup-SameView q d)) g)

lookup_answer :
    (id : String) (d : Directory)
    → read_publishers (serve (lookup_request (product_lookup id "Home")) d).0
      ≡ publishers_of d "Home" id
unfolding serve
lookup_answer id d = refl

first_of :
    (url : String) (ps : List Publisher) (p : Publisher)
    → find_url url ps ≡ some p
    → (q : Publisher) × (qs : List Publisher) × (ps ≡ q ∷ qs)
unfolding find_url
first_of url [] p e = absurd (ground (arith, e))
first_of url (q ∷ qs) p e = (q, qs, refl)

listed_in :
    (id : String) (d : Directory)
    → Good d
    → (id ≡ registered_publishers_id) ⊎ (id ≡ "Depth")
    → (q : Publisher) × (qs : List Publisher) × (publishers_of d "Home" id ≡ q ∷ qs)
listed_in id d g (inl e) =
    let (q, qs, l) = first_of updates_url _ g.updates.0 g.updates.1 in
    (q, qs, ap (publishers_of d "Home") e ∙ l)
listed_in id d g (inr e) =
    let (q, qs, l) = first_of depth_url _ g.depth.0 g.depth.1 in
    (q, qs, ap (publishers_of d "Home") e ∙ l)

found_in :
    (id domain : String) (d : Directory)
    → Good d
    → Wanted id domain
    → (p : Publisher) × (ps : List Publisher) × (read_publishers
          (serve (lookup_request (product_lookup id domain)) d).0
        ≡ p ∷ ps)
found_in id domain d g wanted =
    let (q, qs, l) = listed_in id d g wanted.1 in
    (
      q,
      qs,
      ap (λ e. read_publishers (serve (lookup_request (product_lookup id e)) d).0) wanted.0
          ∙ lookup_answer id d
          ∙ l,
    )

serves : Serves joined Good Wanted Own
serves = record {
  found = λ node id domain d g wanted.
      let (p, ps, l) = found_in id domain d g wanted in
      (
        (serve (lookup_request (product_lookup id domain)) d).0,
        p,
        ps,
        refl,
        l,
        refl,
        lookup-Good id domain d g,
      );
  kept = λ node r d g own. register-Good r d g own;
}

abbrev listing : String → String → Registration
listing id url = record {
  id = id;
  url = url;
  kind = data_product;
  component_id = none;
  domain = none;
  timestamp = some 3_000_000;
  is_relay = none;
  ip_address = none;
}

abbrev home : Directory
home =
    run
      (main_request (registration_request (listing registered_publishers_id updates_url))
        ∷ main_request (registration_request (listing "Depth" depth_url))
        ∷ [])
      (init "Home")

home-Good : Good home
unfolding run accepted find_url lookup insert place replace touch
home-Good = record {
  well_formed =
      (run-init-Inv "Home" (
        main_request (registration_request (listing registered_publishers_id updates_url))
        ∷ main_request (registration_request (listing "Depth" depth_url))
        ∷ [])).well_formed;
  domain_eq = refl;
  updates = (_, refl);
  depth = (_, refl);
}

abbrev wanted : SubscriptionDetails
wanted = record {
  domain = "Home";
  data_product_id = "Depth";
  filter = "";
  receive_last_cached_value = false;
  subscriber = 4;
}

abbrev camera : Node
camera = record {
  initialized = true;
  component_id = "Camera";
  my_domain = "Home";
  publish_map = ("Image", "tcp://camera:1") ∷ [];
  service_map = ("Zoom", "tcp://camera:2") ∷ [];
  url_instance_map = ("tcp://camera:1", 5_000_000) ∷ ("tcp://camera:2", 6_000_000) ∷ [];
  data_registration_time_map = [];
  subscription_list = wanted ∷ [];
  service_directory_node = record { transport = "tcp"; ip_address = "10.0.0.1"; port = 5555 };
  default_cache_last_sent_dataproduct = true;
  default_receive_last_sent_dataproduct = true;
  gravity_node_reserved_data_product_ids = [];
  service_directory_reserved_data_product_ids = [];
  heartbeat_started = false;
  service_manager_locked = false;
  request_manager_rep_locked = false;
  sent = [];
}

abbrev restarted_at : Address
restarted_at = record { transport = "tcp"; host = "b"; port = "5" }

parsed : parse_url "tcp://b:5" ≡ some restarted_at
unfolding parse_url before behind
parsed = refl

reregister-subscription_list_example :
    (reregister joined "Camera" "tcp://b:5" camera home).1.subscription_list
    ≡ wanted ∷ made_again "Home" wanted ∷ []
reregister-subscription_list_example =
    reregister-subscription_list joined Good Wanted Own serves "Camera" "tcp://b:5" restarted_at
      camera home parsed refl refl home-Good ((λ t. (refl, refl)), tt) ((λ t. (refl, refl)), tt)
      (refl, inl refl) ((refl, inr refl), tt)
