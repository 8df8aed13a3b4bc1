-- ===== src/Mqtt/Service/Publisher.antt =====
-- mqtt.go: what Run publishes, as a list of actions.
use spf5000es_server.Prelude.{
  ℕ, zero, suc, Bool, true, false, ◌&&◌, ◌||◌, Option, none, some, List, [], ◌∷◌, ◌++◌, Text, codes,
  lookup, ◌==◌, if◌then◌else◌,
}
use spf5000es_server.Float.{Float64}
use spf5000es_server.Decimal.{show_int}
use spf5000es_server.Value.{Value, int64, float64, bool, string, Config, ParseFloat}
use spf5000es_server.Config.{MqttConfig}
use spf5000es_server.Mqtt.Topics.{value_topic, availability_topic}
use spf5000es_server.Mqtt.Discovery.{device_discovery, discovery_topic}
use spf5000es_server.Mqtt.Service.{
  Payload, plain, document, MqttService, publish, update_battery_type, take_updates,
}

-- The functions of strconv and fmt that mqttValue calls.
pub record Formats : Type 0 where
  pub append_float : Float64 → Text
  pub append_value : Value → Text

-- mqttValue
unfoldable pub mqtt_value : Formats → Value → Text
mqtt_value formats (string s) = s
mqtt_value formats (int64 n) = show_int n
mqtt_value formats (float64 x) = formats.append_float x
mqtt_value formats (bool b) = if b then codes "true" else codes "false"
mqtt_value formats v = formats.append_value v

-- What the publisher still has to do, each at once.
pub data Action : Type 0 where
  send : Text → Payload → Action
  learn_battery : Text → Action
  remember : Config → Action
  settle : (id : ℕ) (config_published status_published : Bool) → Action
  discover : Action

-- config["BatteryType"].(string)
abbrev pub learn : Option Value → List Action
learn (some (string battery)) = learn_battery battery ∷ []
learn _ = []

module _ (config : MqttConfig) (base : Text) (parse_float : ParseFloat) (formats : Formats) where
  -- The messages of publishStatus and publishConfig, in the order in which the map is walked.
  unfoldable pub send_values : Text → Config → List Action
  unfolding mqtt_value
  send_values namespace [] = []
  send_values namespace ((key, value) ∷ values) =
      send (value_topic base namespace key) (plain (mqtt_value formats value))
      ∷ send_values namespace values

  -- publishConfig
  unfoldable pub publish_config : Config → List Action
  unfolding send_values
  publish_config values =
      send_values (codes "config") values
      ++ learn (lookup "BatteryType" values)
      ++ remember values ∷ []

  -- The section of publishUpdates, and what it goes on to do.
  unfoldable pub begin_updates : MqttService → List Action × MqttService
  unfolding send_values publish_config
  begin_updates s =
      if s.connected
      then (
        (if s.status_dirty then send_values (codes "status") s.pending_status else [])
            ++ (if s.config_dirty then publish_config s.pending_config else [])
            ++ settle s.connection_id s.config_dirty s.status_dirty ∷ [],
        record s {
          pending_status = [];
          pending_config = [];
          status_dirty = false;
          config_dirty = false;
        },
      )
      else (
        [],
        record s { updates_pending = s.updates_pending || s.status_dirty || s.config_dirty },
      )

  -- publishReadyAfterInitialState
  unfoldable pub settle_initial : ℕ → Bool → Bool → MqttService → List Action × MqttService
  settle_initial id config_published status_published s =
      let initial_config = s.initial_config_published || config_published in
      let initial_status = s.initial_status_published || status_published in
      let noted = record s {
        initial_config_published = initial_config;
        initial_status_published = initial_status;
      } in
      if s.connected && id == s.connection_id
      then if initial_config && initial_status
        then (
          (if s.discovery_pending then discover ∷ [] else [])
              ++ (if s.online_published
                  then []
                  else send (availability_topic base) (plain (codes "online")) ∷ []),
          record noted { discovery_pending = false; online_published = true },
        )
        else ([], noted)
      else ([], s)

  -- An action, and what follows it at once.
  unfoldable pub perform : Action → MqttService → List Action × MqttService
  unfolding publish update_battery_type settle_initial device_discovery
  perform (send topic payload) s = ([], publish topic payload s)
  perform (learn_battery battery) s = ([], update_battery_type battery s)
  perform (remember values) s = ([], record s { last_published_config = values })
  perform (settle id config_published status_published) s =
      settle_initial id config_published status_published s
  perform discover s = (
    [],
    publish (discovery_topic config)
        (document (device_discovery config base s.last_published_config s.battery_type parse_float))
        s,
  )

  -- What follows an action is followed by nothing.
  unfoldable pub perform_last : List Action → MqttService → MqttService
  unfolding perform
  perform_last [] s = s
  perform_last (action ∷ actions) s = perform_last actions (perform action s).1

  unfoldable pub perform_all : List Action → MqttService → MqttService
  unfolding perform perform_last
  perform_all [] s = s
  perform_all (action ∷ actions) s =
      let (more, s') = perform action s in perform_all actions (perform_last more s')

  -- publishUpdates
  unfoldable pub publish_updates : MqttService → MqttService
  unfolding begin_updates perform_all
  publish_updates s = let (actions, s') = begin_updates s in perform_all actions s'

  -- runPending
  unfoldable pub run_pending : MqttService → Bool × MqttService
  unfolding take_updates publish_updates
  run_pending s = let (due, s') = take_updates s in (due, if due then publish_updates s' else s')

  -- Run's loop up to its select; `none` where these many rounds do not reach it.
  unfoldable pub run_to_select : ℕ → MqttService → Option MqttService
  run_to_select zero s = none
  run_to_select (suc rounds) s =
      let (due, s') = run_pending s in
      let rest = run_to_select rounds s' in if due then rest else some s'
