-- ===== src/Witnesses/Connections.antt =====
-- mqtt.go: the service on concrete data.
use spf5000es_server.Prelude.{
  ◌≡◌, ◌<◌, refl, true, false, none, some, Option, List, ℕ, [], ◌∷◌, ◌++◌, codes, pos, Text, ◌*◌,
  ◌^◌, arith,
}
use spf5000es_server.Error.{Result, ok, err, message}
use spf5000es_server.Value.{int64, Config}
use spf5000es_server.Config.{MqttConfig}
use spf5000es_server.Mqtt.Service.{
  MqttService, new_service, availability_changed, connection_up, on_connection_lost, set_client,
  set_connected,
}
use spf5000es_server.Mqtt.Service.Publisher.{Formats, publish_updates, run_to_select}
use spf5000es_server.Mqtt.Service.Updates.{
  Quiet, run_to_select-connected, run_to_select-disconnected,
}
use spf5000es_server.Mqtt.Service.Delivery.{messages, if_dirty, publish_updates-delivers}
use spf5000es_server.Mqtt.Client.Starting.{TlsLibrary, TlsConfig, start_service, mqtt_tls_config}
use spf5000es_server.Mqtt.Client.Starting.Secured.{StartedSecurely, start_service-StartedSecurely}
use spf5000es_server.Mqtt.Service.Growth.{Grows}
use spf5000es_server.Mqtt.Service.Announced.{EndsOnline}
use spf5000es_server.Mqtt.Service.Announced.Noticed.{availability_changed-EndsOnline}
use spf5000es_server.Mqtt.System.{
  System, initial, up, enter, subscribe, finish, lost, Reach, here, next, update, entered,
  subscribed, finished, or_same, after_client,
}
use spf5000es_server.Mqtt.System.Invariant.{Reach-linked, Reach-polling_enabled, Reach-unannounced}
use spf5000es_server.Witnesses.{no_float}

abbrev pub broker : MqttConfig
broker = record {
  host = codes "localhost";
  port = pos 1883;
  username = [];
  password = [];
  tls_enabled = false;
  tls_ca_file = [];
  tls_cert_file = [];
  tls_key_file = [];
  tls_server_name = [];
  client_id = codes "inverter";
  keepalive = pos (60 * 10 ^ 9);
  will_delay = pos (300 * 10 ^ 9);
  operation_timeout = pos (10 * 10 ^ 9);
  disconnect_timeout = pos (5 * 10 ^ 9);
  topic_prefix = codes "inverter";
  ha_discovery_prefix = codes "homeassistant";
  ha_device_id = codes "inverter";
  ha_device_name = codes "Inverter";
}

abbrev base : Text
base = codes "inverter"

abbrev pub formats : Formats
formats = record { append_float = λ x. codes "1.5"; append_value = λ v. codes "<nil>" }

abbrev reading : Config
reading = ("BatteryVolt", int64 (pos 52)) ∷ []

-- With a status to publish, connected and not.
abbrev waiting : MqttService
waiting = record new_service {
  client = some 7;
  connected = true;
  pending_status = reading;
  status_dirty = true;
}

abbrev cut_off : MqttService
cut_off = record new_service { pending_status = reading; status_dirty = true }

run_to_select-connected_example :
    (s' : MqttService) × (run_to_select broker base no_float formats 2 waiting ≡ some s') × Quiet s'
run_to_select-connected_example = run_to_select-connected broker base no_float formats waiting refl

run_to_select-disconnected_example : run_to_select broker base no_float formats 1000 cut_off ≡ none
run_to_select-disconnected_example =
    run_to_select-disconnected broker base no_float formats 1000 cut_off refl refl

publish_updates-delivers_example :
    Grows
      ([]
        ++ if_dirty true (messages 7 base (codes "status") formats reading)
        ++ if_dirty false (messages 7 base (codes "config") formats []))
      (publish_updates broker base no_float formats waiting).published
publish_updates-delivers_example =
    publish_updates-delivers broker base no_float formats 7 waiting refl refl

abbrev Reached : System → Type 0
Reached = Reach broker base no_float formats

-- A connection comes up, and its setup runs to its end.
abbrev came_up : System
came_up = record initial {
  service = connection_up initial.service;
  link_up = true;
  events = 1;
  setups = update 1 (entered 7 (connection_up initial.service).connection_id) initial.setups;
}

abbrev has_client : System
has_client = record came_up {
  service = or_same came_up.service (set_client 7 1 came_up.service);
  setups = update 1 (after_client 7 1 (set_client 7 1 came_up.service)) came_up.setups;
}

abbrev has_commands : System
has_commands = record has_client { setups = update 1 (subscribed 7 1) has_client.setups }

abbrev is_connected : System
is_connected = record has_commands {
  service = set_connected 1 has_commands.service;
  setups = update 1 (finished 7 1 has_commands.service) has_commands.setups;
}

reached : Reached is_connected
unfolding initial connection_up set_client
reached =
    next has_commands is_connected
      (next has_client has_commands
        (next came_up has_client (next initial came_up here (up 7 initial refl))
          (enter 1 7 1 came_up refl))
        (subscribe 1 7 1 has_client refl))
      (finish 1 7 1 has_commands refl)

connected_now : is_connected.service.connected ≡ true
unfolding initial connection_up set_client set_connected
connected_now = refl

one_event : is_connected.events < 2 ^ 64
unfolding initial
one_event = omega arith

Reach-linked_example : is_connected.link_up ≡ true
Reach-linked_example =
    Reach-linked broker base no_float formats is_connected reached one_event connected_now

Reach-polling_enabled_example :
    is_connected.service.polling_enabled ≡ is_connected.service.connected
Reach-polling_enabled_example =
    Reach-polling_enabled broker base no_float formats is_connected reached

-- And the connection is lost.
abbrev is_lost : System
is_lost = record is_connected {
  service = on_connection_lost is_connected.service;
  link_up = false;
  events = 2;
}

lost_reached : Reached is_lost
unfolding initial
lost_reached = next is_connected is_lost reached (lost is_connected refl)

down_now : is_lost.service.connected ≡ false
unfolding on_connection_lost
down_now = refl

Reach-unannounced_example :
    (is_lost.service.initial_config_published ≡ false)
    × (is_lost.service.initial_status_published ≡ false)
    × (is_lost.service.online_published ≡ false)
Reach-unannounced_example =
    Reach-unannounced broker base no_float formats is_lost lost_reached down_now

-- Announced as online, with a status that waits to be published.
abbrev announced : MqttService
announced = record waiting {
  initial_config_published = true;
  initial_status_published = true;
  online_published = true;
}

availability_changed-EndsOnline_example :
    ((availability_changed false announced).0 ≡ some (codes "offline"))
    × EndsOnline 7 base
        (publish_updates broker base no_float formats (availability_changed false announced).1)
availability_changed-EndsOnline_example =
    availability_changed-EndsOnline broker base no_float formats 7 announced refl refl refl refl

-- A broker over TLS with an authority's file; a pool is the list of the files' contents.
abbrev secure_broker : MqttConfig
secure_broker = record broker {
  tls_enabled = true;
  tls_ca_file = codes "ca.pem";
  tls_server_name = codes "broker";
}

abbrev library : TlsLibrary (List Text) Text
library = record {
  read_file = λ name. ok (codes "PEM");
  system_cert_pool = none;
  new_cert_pool = [];
  append_certs_from_pem = λ pool contents. (true, contents ∷ pool);
  load_x509_key_pair = λ cert key. err (message "no such file");
}

-- The client library connects over TLS alone.
abbrev connect_with : Text → Option (TlsConfig (List Text) Text) → Result ℕ
connect_with scheme none = err (message "refused")
connect_with scheme (some tls) = ok 7

connects : (start_service library secure_broker connect_with new_service).0 ≡ ok tt
unfolding start_service mqtt_tls_config
connects = refl

start_service-StartedSecurely_example :
    StartedSecurely library secure_broker connect_with
      (start_service library secure_broker connect_with new_service).1
start_service-StartedSecurely_example =
    start_service-StartedSecurely library secure_broker connect_with new_service refl connects
