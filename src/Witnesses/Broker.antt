-- ===== src/Witnesses/Broker.antt =====
-- mqtt.go: topics, commands and limits on concrete data.
use spf5000es_server.Prelude.{◌≡◌, refl, true, false, some, [], ◌++◌, codes, Text, ◌⊎◌, pos, lookup}
use mathlib.Core.Path.{subst}
use spf5000es_server.Error.{ok}
use spf5000es_server.Float.{Float64, of_int, is_nan, lt, le, rounded, nearest, ulp}
use spf5000es_server.Strings.{equal_fold}
use spf5000es_server.Value.{float64, bool, Config, scalar_as_float64}
use spf5000es_server.Register.{RegisterDef, register, register_uint, raw_integer, raw_as_int64}
use spf5000es_server.Register.Codecs.{scale_write, as_bool, bool_write}
use spf5000es_server.Register.Holdings.{holding_registers}
use spf5000es_server.Register.Windows.{find_register}
use spf5000es_server.Register.Limits.{
  is_boolean_key, base_number_limits, discovery_number_limits, is_writable_number_register,
  validate_writable_number_value,
}
use spf5000es_server.Register.Limits.Widening.{Allows, discovery_number_limits-Allows}
use spf5000es_server.Mqtt.Topics.{config_prefix, config_key, command_topic, route, route_level}
use spf5000es_server.Mqtt.Topics.Routing.{route-level}
use spf5000es_server.Mqtt.Discovery.Metadata.{text}
use spf5000es_server.Mqtt.Discovery.{config_discovery, is_boolean_register}
use spf5000es_server.Mqtt.Discovery.Announcing.{config_discovery-Routed}
use spf5000es_server.Mqtt.Discovery.Switches.{config_discovery-Switched}
use spf5000es_server.Mqtt.Service.Publisher.{mqtt_value}
use spf5000es_server.Mqtt.Commands.{number, DecodeJson, parse_mqtt_command_value, handle_command}
use spf5000es_server.Mqtt.Commands.Accepted.{Queued, handle_command-Queued}
use spf5000es_server.Mqtt.Commands.InLimits.{validated-le}
use spf5000es_server.Witnesses.{no_float, bulk_charge_volt}
use spf5000es_server.Witnesses.Polls.{service}
use spf5000es_server.Witnesses.Connections.{broker, formats}

abbrev base : Text
base = codes "inverter"

abbrev no_config : Config
no_config = []

abbrev volts : Float64
volts = of_int (pos 55)

-- Every text is the number 55.
abbrev fifty_five : DecodeJson
fifty_five payload = some (number volts)

discovery_number_limits-Allows_example :
    Allows (discovery_number_limits "FloatChargeVolt" no_config []) volts
unfolding base_number_limits lt of_int rounded nearest ulp lookup scalar_as_float64
discovery_number_limits-Allows_example =
    discovery_number_limits-Allows "FloatChargeVolt" no_config [] volts (refl, refl)

route-level_example :
    route base (holding_registers no_float) (config_prefix base ++ codes "no_such" ++ codes "/set")
    ≡ route_level (some (codes "no_such")) (holding_registers no_float)
route-level_example = route-level base (codes "no_such") (holding_registers no_float)

bulk_is_found : find_register "BulkChargeVolt" (holding_registers no_float) ≡ some bulk_charge_volt
unfolding find_register holding_registers
bulk_is_found = refl

handle_command-Queued_example :
    Queued no_float fifty_five no_config []
      (route base (holding_registers no_float) (command_topic base "BulkChargeVolt"))
      (codes "55")
      service.commands
      (handle_command no_float fifty_five no_config [] base
        (command_topic base "BulkChargeVolt")
        (codes "55")
        service).1.commands
handle_command-Queued_example =
    handle_command-Queued no_float fifty_five no_config [] base
      (command_topic base "BulkChargeVolt") (codes "55") service

is_number : is_writable_number_register no_float "BulkChargeVolt" ≡ true
unfolding is_writable_number_register find_register holding_registers lookup
is_number = refl

parsed_volts : parse_mqtt_command_value no_float fifty_five (codes "55") ≡ ok (float64 volts)
unfolding parse_mqtt_command_value equal_fold
parsed_volts = refl

valid_volts :
    validate_writable_number_value no_float "BulkChargeVolt" (float64 volts) no_config [] ≡ ok tt
unfolding validate_writable_number_value find_register holding_registers base_number_limits lt
    of_int rounded nearest ulp lookup scalar_as_float64
valid_volts = refl

some-volts : (x : Float64) → some (number volts) ≡ some (number x) → volts ≡ x
some-volts x h = cc

numbers : (s : Text) (x : Float64) → fifty_five s ≡ some (number x) → is_nan x ≡ false
unfolding is_nan of_int rounded nearest ulp
numbers s x h = subst (λ (y : Float64). is_nan y ≡ false) (some-volts x h) refl

validated-le_example :
    let limits = discovery_number_limits "BulkChargeVolt" no_config [] in
    (x : Float64) × (scalar_as_float64 (float64 volts) ≡ some x)
    × (le limits.minimum x ≡ true)
    × (le x limits.maximum ≡ true)
validated-le_example =
    validated-le no_float fifty_five "BulkChargeVolt" (codes "55") (float64 volts) no_config []
      numbers is_number parsed_volts valid_volts

config_discovery-Routed_example :
    (topic : Text) × (lookup "command_topic"
        (config_discovery broker base no_config [] bulk_charge_volt).payload
      ≡ some (text topic))
    × (route base (holding_registers no_float) topic ≡ config_key "BulkChargeVolt")
config_discovery-Routed_example =
    config_discovery-Routed no_float broker base no_config [] "BulkChargeVolt" bulk_charge_volt
      (scale_write no_float 10) bulk_is_found refl

abbrev buzzer : RegisterDef
buzzer = register "BuzzerEnable" 22 1 register_uint (as_bool no_float) (some bool_write)

buzzer_is_found : find_register "BuzzerEnable" (holding_registers no_float) ≡ some buzzer
unfolding find_register holding_registers
buzzer_is_found = refl

is_switch : is_boolean_register "BuzzerEnable" ≡ true
unfolding is_boolean_key
is_switch = refl

buzzer_reads : buzzer.read (raw_integer (pos 1)) ≡ ok (bool true)
unfolding as_bool raw_as_int64
buzzer_reads = refl

config_discovery-Switched_example :
    let announced = (config_discovery broker base no_config [] buzzer).payload in
    (lookup "payload_on" announced ≡ some (text (mqtt_value formats (bool true))))
    ⊎ (lookup "payload_off" announced ≡ some (text (mqtt_value formats (bool true))))
config_discovery-Switched_example =
    config_discovery-Switched no_float formats broker base no_config [] "BuzzerEnable" buzzer
      (raw_integer (pos 1)) (bool true) buzzer_is_found is_switch buzzer_reads
