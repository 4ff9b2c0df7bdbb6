-- ===== src/Node/Tests.antt =====
-- A node and a directory that are joined by requests and answers, of which some are lost.
use gravity.Prelude.{ℕ, ◌+◌, ◌≡◌, refl, String, true, false, List, [], ◌∷◌, inl, inr, none, some}
use gravity.Prelude.Key.{string_key}
use gravity.Prelude.Maps.{erase, insert, place, replace, lookup, has, get_or}
use gravity.Directory.Messages.{
  Response, nothing, publisher_list, service_location, directory_response, domain_name,
  provider_map, Publisher,
}
use gravity.Directory.Messages as Messages
use gravity.Directory.State.{Directory}
use gravity.Directory.Requests.{Request, serve}
use gravity.Directory.Requests as Requests
use gravity.PublishManager.Commands.{subscribers}
use gravity.Node.State.{success, DirectoryCode, tcp, is_success, Node}
use gravity.Node.World.{Attempt, answered, timed_out, World}
use gravity.Node.Publishers.{
  unregister_data_product, Registering, announce_product, register_data_product_internal,
}
use gravity.Node.Delivery.{Delivered, HasDirectory, IsListed}
use gravity.Directory.Invariant.{init-Inv}
use gravity.Node.Services.{register_service, unregister_service}
use gravity.Node.Owners.{UrlsOwned}
use gravity.Node.Urlkeeping.{
  register_product, register_service_call, unregister_product, Call, run, AllFresh,
  run-unregister_service,
}
use gravity.Node.Registering.{register-outcome, register-IsListed}

-- what becomes of a request
data Fault : Type 0 where
  fine lost_request lost_answer : Fault

record Net : Type 0 where
  directory : Directory
  faults : List Fault
  clock : ℕ

abbrev code_of : Messages.ReturnCode → DirectoryCode
code_of Messages.success = DirectoryCode.success
code_of Messages.not_registered = DirectoryCode.not_registered

abbrev read_code : Response → DirectoryCode
read_code (directory_response id c) = code_of c
read_code _ = DirectoryCode.success

abbrev read_publishers : Response → List Publisher
read_publishers (publisher_list l) = l.publishers
read_publishers _ = []

abbrev read_service : Response → String × ℕ
read_service (service_location l) = (l.url, elim l.registration_time [ none ↦ 0 | some t ↦ t ])
read_service _ = ("", 0)

abbrev exchange : Request → Net → List Fault → Attempt Response × Net
exchange q net [] =
    (answered (serve q net.directory).0, record net { directory = (serve q net.directory).1 })
exchange q net (fine ∷ fs) = (
  answered (serve q net.directory).0,
  record net { directory = (serve q net.directory).1; faults = fs },
)
exchange q net (lost_request ∷ fs) = (timed_out, record net { faults = fs })
exchange q net (lost_answer ∷ fs) =
    (timed_out, record net { directory = (serve q net.directory).1; faults = fs })

abbrev net_world : World Net Response
net_world = record {
  directory = λ node q net. exchange q net net.faults;
  provider = λ url p timeout net. (timed_out, net);
  directory_code = read_code;
  publishers = read_publishers;
  has_url = λ p. true;
  service_url = λ r. (read_service r).0;
  service_time = λ r. (read_service r).1;
  publish_register = λ o cache net. ("tcp://camera:1", net);
  publish_unregister = λ id net. net;
  subscribers_exist = λ id net. (subscribers true, net);
  service_register = λ o time server net. ("tcp://camera:2", net);
  service_unregister = λ id net. net;
  create_future_response = λ ip net. ("", net);
  send_future_response = λ url p net. (success, net);
  now = λ net. (net.clock, record net { clock = net.clock + 1 });
  local_ip = λ node. "10.0.0.2";
  to_dotted_quad = λ host. host;
  string_to_int = λ text d. d;
}

net_link : HasDirectory net_world (λ net. net.directory)
net_link = record {
  served = λ node q net. served_by q net net.faults;
  quiet_clock = λ net. refl;
  quiet_register = λ o cache net. refl;
}
  where
    served_by :
        (q : Request) (net : Net) (fs : List Fault)
        → Delivered net_world net.directory q (exchange q net fs).1.directory (exchange q net fs).0
    served_by q net [] = refl
    served_by q net (fine ∷ fs) = refl
    served_by q net (lost_request ∷ fs) = inl refl
    served_by q net (lost_answer ∷ fs) = inr refl

abbrev node : Node
node = record {
  initialized = true;
  component_id = "Camera";
  my_domain = "Home";
  publish_map = [];
  service_map = [];
  url_instance_map = [];
  data_registration_time_map = [];
  subscription_list = [];
  service_directory_node = record { transport = "tcp"; ip_address = "10.0.0.1"; port = 5555 };
  default_cache_last_sent_dataproduct = true;
  default_receive_last_sent_dataproduct = true;
  gravity_node_reserved_data_product_ids = [];
  service_directory_reserved_data_product_ids = [];
  heartbeat_started = false;
  service_manager_locked = false;
  request_manager_rep_locked = false;
  sent = [];
}

abbrev net : Net
net = record {
  directory = Requests.init "Home";
  faults = lost_request ∷ lost_answer ∷ fine ∷ [];
  clock = 7_000_000;
}

abbrev plainly : Registering
plainly = record {
  transport = tcp;
  cache_last_value = true;
  is_relay = false;
  local_only = false;
  allow_reserved_ids = false;
}

image_succeeds : (register_data_product_internal net_world plainly "Image" node net).0 ≡ success
unfolding register_data_product_internal serve lookup
image_succeeds = refl

register-outcome_example :
    (has "Image" (register_data_product_internal net_world plainly "Image" node net).1.publish_map
      ≡ is_success (register_data_product_internal net_world plainly "Image" node net).0)
    × (is_success (register_data_product_internal net_world plainly "Image" node net).0 ≡ false
        → ((register_data_product_internal net_world plainly "Image" node net).1 ≡ node)
          × ((register_data_product_internal net_world plainly "Image" node net).2
              ≡ (announce_product net_world plainly "Image" "tcp://camera:1" 7_000_000 node
                  (record net { clock = 7_000_001 })).1))
unfolding lookup
register-outcome_example = register-outcome net_world plainly "Image" node (refl, refl, refl) net

register-IsListed_example :
    IsListed "Image"
      (get_or "" "Image"
        (register_data_product_internal net_world plainly "Image" node net).1.publish_map)
      (get_or 0 "Image"
        (register_data_product_internal net_world plainly "Image" node
          net).1.data_registration_time_map)
      (register_data_product_internal net_world plainly "Image" node net).2.directory
unfolding lookup
register-IsListed_example =
    register-IsListed net_world (λ (w : Net). w.directory) net_link plainly "Image" node net
      (refl, refl, refl) (init-Inv "Home").well_formed refl image_succeeds

-- an image and a service that comes and goes
abbrev calls : List Call
calls =
    register_product plainly "Image"
    ∷ register_service_call tcp "Zoom" 3
    ∷ unregister_product "Image"
    ∷ []

node_owned : UrlsOwned node
unfolding lookup
node_owned = record {
  free = refl;
  product_instance = λ id url e. cc;
  service_instance = λ id url e. cc;
  products_apart = λ i j url e f. cc;
  services_apart = λ i j url e f. cc;
  kinds_apart = λ i j url e f. cc;
}

calls_fresh : AllFresh net_world calls node net
unfolding register_data_product_internal register_service unregister_data_product serve lookup
    insert place replace erase
calls_fresh = (refl, (refl, (tt, tt)))

run-unregister_service_example :
    let r = run net_world calls node net in
    (r.0.service_manager_locked ≡ false)
    × ((id : String) (v : Net)
        → r.0.initialized ≡ true
        → has id r.0.service_map ≡ true
        → let m = (unregister_service net_world id r.0 v).1 in
          (has id m.service_map ≡ false) × (m.service_manager_locked ≡ false))
run-unregister_service_example =
    run-unregister_service net_world calls node net node_owned calls_fresh
