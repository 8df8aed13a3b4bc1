-- ===== src/Mqtt/Commands.antt =====
-- mqtt.go: the commands that arrive on topics.
pub mod Accepted
pub mod InLimits
use spf5000es_server.Prelude.{
  ℕ, Bool, true, false, ◌||◌, Option, none, some, List, Text, String, if◌then◌else◌,
}
use spf5000es_server.Error.{Error, Result, ok, err, message}
use spf5000es_server.Float.{Float64}
use spf5000es_server.Strings.{equal_fold, trim_space}
use spf5000es_server.Value.{Value, bool, float64, string, Config, ParseFloat}
use spf5000es_server.Register.Holdings.{holding_registers}
use spf5000es_server.Register.Limits.{validate_writable_number_value}
use spf5000es_server.Inverter.{finite_scalar}
use spf5000es_server.Polling.{PollingService, queue_config_write, request_time_sync}
use spf5000es_server.Mqtt.Topics.{
  Route, time_sync, unrelated, unknown_key, panics, config_key, route,
}

-- What json.Unmarshal makes of a text: `none` is an error, `compound` an array, an object or null.
pub data Json : Type 0 where
  text : Text → Json
  number : Float64 → Json
  boolean : Bool → Json
  compound : Json

abbrev pub DecodeJson : Type 0
DecodeJson = Text → Option Json

-- A command is answered, or the goroutine panics.
pub data Answer : Type 0 where
  answered : Result (Unit {0}) → Answer
  panicked : Answer

module _ (parse_float : ParseFloat) (decode_json : DecodeJson) where
  abbrev pub json_value : Text → Option Json → Result Value
  json_value payload (some (text s)) = ok (string s)
  json_value payload (some (number x)) = ok (float64 x)
  json_value payload (some (boolean b)) = ok (bool b)
  json_value payload (some compound) = finite_scalar parse_float payload
  json_value payload none = finite_scalar parse_float payload

  -- parseMQTTCommandValue
  unfoldable pub parse_mqtt_command_value : Text → Result Value
  parse_mqtt_command_value payload =
      if equal_fold payload "true" || equal_fold payload "on"
      then ok (bool true)
      else if equal_fold payload "false" || equal_fold payload "off"
      then ok (bool false)
      else json_value payload (decode_json payload)

  module _ {W : Type 0} (config : Config) (battery_type : Text) where
    abbrev pub on_service : Result (Unit {0}) × PollingService W → Answer × PollingService W
    on_service (r, s) = (answered r, s)

    abbrev pub refuse : Error → PollingService W → Answer × PollingService W
    refuse e s = (answered (err e), s)

    -- The part of handleCommand after the value is parsed.
    abbrev pub queue_checked :
        String → Value → Result (Unit {0}) → PollingService W → Answer × PollingService W
    queue_checked key value (err e) s = refuse e s
    queue_checked key value (ok x) s = on_service (queue_config_write key value s)

    abbrev pub queue_parsed : String → Result Value → PollingService W → Answer × PollingService W
    queue_parsed key (err e) s = refuse e s
    queue_parsed key (ok value) s =
        queue_checked key value
          (validate_writable_number_value parse_float key value config battery_type) s

    abbrev pub handle_route : Text → Route → PollingService W → Answer × PollingService W
    handle_route payload time_sync s = (answered (ok tt), request_time_sync s)
    handle_route payload unrelated s = (answered (ok tt), s)
    handle_route payload unknown_key s = refuse (message "unknown config key") s
    handle_route payload panics s = (panicked, s)
    handle_route payload (config_key key) s = queue_parsed key (parse_mqtt_command_value payload) s

    -- handleCommand, with the config and the battery type that it reads under the lock.
    unfoldable pub handle_command :
        Text → Text → Text → PollingService W → Answer × PollingService W
    unfolding parse_mqtt_command_value
    handle_command base topic payload s =
        handle_route payload (route base (holding_registers parse_float) topic) s

    -- onMessage: the error of a command is only logged.
    unfoldable pub on_message : Text → Text → Text → PollingService W → Answer × PollingService W
    unfolding handle_command
    on_message base topic body s = handle_command base topic (trim_space body) s
