-- ===== src/Mqtt/Service.antt =====
-- mqtt.go: the state of MQTTService, its critical sections, and what they publish. A section is what
-- a goroutine does while it holds the lock.
pub mod Publisher
pub mod Updates
pub mod Growth
pub mod Delivery
pub mod Announced
use spf5000es_server.Prelude.{
  ℕ, zero, suc, ◌+◌, ◌^◌, ◌%◌, Bool, true, false, not, ◌&&◌, ◌||◌, Option, none, some, List, [],
  ◌∷◌, ◌++◌, map, String, Text, codes, eq_text, lookup, ◌==◌, if◌then◌else◌,
}
use spf5000es_server.Float.{Float64}
use spf5000es_server.Decimal.{show_int}
use spf5000es_server.Value.{Value, int64, float64, bool, string, Config, ParseFloat}
use spf5000es_server.Config.{MqttConfig}
use spf5000es_server.Mqtt.Topics.{value_topic, availability_topic}
use spf5000es_server.Mqtt.Discovery.{Discovery, device_discovery, discovery_topic}

-- A payload: bytes, or a document that is encoded as JSON.
pub data Payload : Type 0 where
  plain : Text → Payload
  document : Discovery → Payload

-- A retained message, and the client that it was given to.
pub record Message : Type 0 where
  pub client : ℕ
  pub topic : Text
  pub payload : Payload

-- MQTTService, what the polling service was last told, and what was published, the oldest first. A
-- client is a number; the topics are functions of the base topic.
pub record MqttService : Type 0 where
  pub client : Option ℕ
  pub connected : Bool
  pub initial_config_published : Bool
  pub initial_status_published : Bool
  pub discovery_pending : Bool
  pub online_published : Bool
  pub battery_type : Text
  pub last_published_config : Config
  pub pending_status : Config
  pub pending_config : Config
  pub status_dirty : Bool
  pub config_dirty : Bool
  pub updates_pending : Bool
  pub update_wake : Bool
  pub connection_id : ℕ
  pub polling_enabled : Bool
  pub published : List Message

-- The fields of a new service; its polling service is not enabled.
abbrev pub new_service : MqttService
new_service = record {
  client = none;
  connected = false;
  initial_config_published = false;
  initial_status_published = false;
  discovery_pending = false;
  online_published = false;
  battery_type = [];
  last_published_config = [];
  pending_status = [];
  pending_config = [];
  status_dirty = false;
  config_dirty = false;
  updates_pending = false;
  update_wake = false;
  connection_id = 0;
  polling_enabled = false;
  published = [];
}

-- The section of Start.
unfoldable pub started : ℕ → MqttService → MqttService
started client s = record s { client = some client }

-- connectionID++
abbrev pub next_id : ℕ → ℕ
next_id id = (id + 1) % 2 ^ 64

-- OnConnectionUp: the id of the new connection is the one in the state.
unfoldable pub connection_up : MqttService → MqttService
connection_up s = record s { connection_id = next_id s.connection_id }

-- The first section of onConnect; `none` for a connection that is over.
unfoldable pub set_client : ℕ → ℕ → MqttService → Option MqttService
set_client client id s =
    if id == s.connection_id then some (record s { client = some client }) else none

-- The last section of onConnect, with requestUpdatePublish after it.
unfoldable pub set_connected : ℕ → MqttService → MqttService
set_connected id s =
    if id == s.connection_id
    then record s {
      connected = true;
      initial_config_published = false;
      initial_status_published = false;
      online_published = false;
      polling_enabled = true;
    }
    else s

-- requestUpdatePublish
unfoldable pub request_update_publish : MqttService → MqttService
request_update_publish s = record s { updates_pending = true; update_wake = true }

-- onConnectionLost
unfoldable pub on_connection_lost : MqttService → MqttService
on_connection_lost s = record s {
  connection_id = next_id s.connection_id;
  connected = false;
  initial_config_published = false;
  initial_status_published = false;
  online_published = false;
  polling_enabled = false;
}

-- StatusUpdated and ConfigUpdated, with the signal
unfoldable pub status_updated : Config → MqttService → MqttService
status_updated status s = record s {
  pending_status = status;
  status_dirty = true;
  updates_pending = true;
  update_wake = true;
}

unfoldable pub config_updated : Config → MqttService → MqttService
config_updated config s = record s {
  pending_config = config;
  config_dirty = true;
  updates_pending = true;
  update_wake = true;
}

-- The section of InverterAvailabilityChanged, and the payload to publish after it.
unfoldable pub availability_changed : Bool → MqttService → Option Text × MqttService
availability_changed available s = (
  if s.connected then some (if available then codes "online" else codes "offline") else none,
  record s { online_published = available && s.connected },
)

-- The client that publish reads under the lock is given the message.
unfoldable pub publish : Text → Payload → MqttService → MqttService
publish topic payload s = elim s.client [
  | none ↦ s
  | some client ↦ record s {
    published = s.published ++ record { client = client; topic = topic; payload = payload } ∷ [];
  }
]

-- updateBatteryType
unfoldable pub update_battery_type : Text → MqttService → MqttService
update_battery_type battery s =
    if eq_text battery [] || eq_text battery s.battery_type
    then s
    else record s { battery_type = battery; discovery_pending = true }

-- The section of runPending.
unfoldable pub take_updates : MqttService → Bool × MqttService
take_updates s =
    let due = s.updates_pending || s.status_dirty || s.config_dirty in
    (due, if due then record s { updates_pending = false } else s)
