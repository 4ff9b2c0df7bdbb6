-- ===== src/Node/CallTests.antt =====
-- Calls of a node whose requests are all answered.
use gravity.Prelude.{ℕ, ◌≡◌, refl, true, false, [], ◌∷◌, ◌++◌, none, some, arith}
use Prim.Native.String.{◌++◌ as str_append}
use gravity.Prelude.Key.{string_key}
use gravity.Prelude.Maps.{lookup, has}
use gravity.Directory.Messages.{Publisher}
use gravity.DataProduct.{new_product}
use gravity.PublishManager.Commands.{subscribers}
use gravity.Node.State.{success, registration_conflict, DirectoryCode, SubscriptionDetails, Node}
use gravity.Node.World.{answered, World}
use gravity.Node.Services.{unregister_service}
use gravity.Node.Subscriptions.{
  set_subscription_timeout_monitor, clear_subscription_timeout_monitor,
}
use gravity.Node.Address.{parse_url}
use gravity.Node.Reregister.{DomainListener, Broadcast, listen}
use gravity.Node.Locking.{IsStuck, unregister-shared_url}
use gravity.Node.Urls.{colon_then, parse_url-no_transport}
use gravity.Node.Listening.{reregistrations, listen-restart}
use gravity.Node.Monitoring.{monitor_request, deliver_all, clear-set_subscription_timeout_monitor}
use gravity.SubscriptionManager.State as Subscriptions
use gravity.SubscriptionManager.Monitors.{set_timeout_monitor}

abbrev directory_publisher : Publisher
directory_publisher = record {
  url = "tcp://directory:1";
  is_relay = none;
  component_id = none;
  ip_address = none;
  registration_time = 3;
}

abbrev One : Type 0
One = Unit {0}

abbrev answering : World One One
answering = record {
  directory = λ node q w. (answered tt, w);
  provider = λ url p timeout w. (answered (new_product url), w);
  directory_code = λ r. DirectoryCode.success;
  publishers = λ r. directory_publisher ∷ [];
  has_url = λ p. true;
  service_url = λ r. "tcp://camera:2";
  service_time = λ r. 3;
  publish_register = λ o cache w. ("tcp://camera:1", w);
  publish_unregister = λ id w. w;
  subscribers_exist = λ id w. (subscribers true, w);
  service_register = λ o time server w. ("", w);
  service_unregister = λ id w. w;
  create_future_response = λ ip w. ("", w);
  send_future_response = λ url p w. (success, w);
  now = λ w. (5_000_000, w);
  local_ip = λ node. "10.0.0.2";
  to_dotted_quad = λ host. host;
  string_to_int = λ text d. d;
}

abbrev wanted : SubscriptionDetails
wanted = record {
  domain = "Home";
  data_product_id = "Image";
  filter = "";
  receive_last_cached_value = false;
  subscriber = 4;
}

-- two services that found no port to listen on have the empty url
abbrev portless : Node
portless = record {
  initialized = true;
  component_id = "Camera";
  my_domain = "Home";
  publish_map = [];
  service_map = ("Focus", "") ∷ ("Zoom", "") ∷ [];
  url_instance_map = ("", 5_000_000) ∷ [];
  data_registration_time_map = [];
  subscription_list = wanted ∷ [];
  service_directory_node = record { transport = "tcp"; ip_address = "10.0.0.1"; port = 5555 };
  default_cache_last_sent_dataproduct = true;
  default_receive_last_sent_dataproduct = true;
  gravity_node_reserved_data_product_ids = [];
  service_directory_reserved_data_product_ids = [];
  heartbeat_started = false;
  service_manager_locked = false;
  request_manager_rep_locked = false;
  sent = [];
}

unregister-shared_url_example :
    let r = unregister_service answering "Focus" portless tt in
    let s = unregister_service answering "Zoom" r.1 r.2 in
    (s.0 ≡ some registration_conflict) × (has "Zoom" s.1.service_map ≡ true) × IsStuck answering s.1
unfolding lookup
unregister-shared_url_example =
    unregister-shared_url answering "Focus" "Zoom" portless refl refl refl refl refl refl refl tt

parse_url-no_transport_example :
    parse_url (str_append "b" (colon_then "5555"))
    ≡ some (record { transport = "b"; host = "55"; port = "b:5555" })
parse_url-no_transport_example =
    parse_url-no_transport "b" "55" "5" "5" (refl, tt) (refl, (refl, tt))

abbrev heard_at : ℕ → Broadcast
heard_at t = record { domain = "Home"; url = "tcp://b:5"; start_time = t }

abbrev listener : DomainListener
listener = record { domain = "Home"; service_directory_start_time = 7; actions = [] }

listen-restart_example :
    (reregistrations (listen ((heard_at 7 ∷ []) ++ heard_at 9 ∷ heard_at 9 ∷ []) listener) ≡ 1)
    × ((listen
          ((heard_at 7 ∷ []) ++ heard_at 9 ∷ heard_at 9 ∷ [])
          listener).service_directory_start_time
        ≡ 9)
listen-restart_example =
    listen-restart listener (heard_at 7 ∷ []) (heard_at 9) (heard_at 9 ∷ []) (omega arith)
      ((λ e. omega arith), tt) refl (omega arith) ((λ e. omega arith), tt)

clear-set_subscription_timeout_monitor_example :
    let s = Subscriptions.init "Camera" "10.0.0.2" in
    let a = set_subscription_timeout_monitor "Image" 6 200 "" "" portless in
    let b = clear_subscription_timeout_monitor "Image" 6 "" "" a.1 in
    (a.0 ≡ success)
    × (b.0 ≡ success)
    × (deliver_all 1000 b.1.sent s ≡ deliver_all 1000 a.1.sent s)
    × (deliver_all 1000 a.1.sent s
        ≡ set_timeout_monitor 1000
            (monitor_request "Image" 6 200 "" "Home")
            (deliver_all 1000 [] s))
unfolding lookup deliver_all
clear-set_subscription_timeout_monitor_example =
    clear-set_subscription_timeout_monitor 1000 6 200 "Image" "" portless
      (Subscriptions.init "Camera" "10.0.0.2") refl refl (omega arith) refl
