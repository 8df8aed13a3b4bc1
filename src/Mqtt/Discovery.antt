-- ===== src/Mqtt/Discovery.antt =====
-- mqtt.go: the discovery document of the device for Home Assistant, before it is encoded as JSON.
pub mod Metadata
pub mod Switches
pub mod Announcing
pub mod Lacking
use spf5000es_server.Prelude.{
  ℕ, Bool, true, false, not, ◌&&◌, ◌||◌, Option, none, some, List, [], ◌∷◌, ◌++◌, map, String, Text,
  codes, eq_string, eq_text, lookup, insert, if◌then◌else◌,
}
use spf5000es_server.Strings.{is_upper}
use spf5000es_server.Value.{Config, ParseFloat}
use spf5000es_server.Config.{MqttConfig}
use spf5000es_server.Register.{RegisterDef, register_char}
use spf5000es_server.Register.Inputs.{input_registers}
use spf5000es_server.Register.Holdings.{holding_registers}
use spf5000es_server.Register.Limits.{
  NumberLimits, discovery_number_limits, is_boolean_key, select_options, is_some, is_char,
}
use spf5000es_server.Mqtt.Topics.{
  begins_word, first, slug, value_topic, config_topic, command_topic, base_topic,
  availability_topic, time_sync_command,
}
use spf5000es_server.Mqtt.Discovery.Metadata.{
  Field, Fields, text, integer, number, flag, texts, field, merge, entity_metadata, fields_of,
  sensor_metadata,
}

-- The loop of friendlyName: the words that end before the text does, and the last one.
unfoldable pub friendly_words : Option ℕ → Text → Text → List Text
friendly_words previous current [] = current ∷ []
friendly_words previous current (c ∷ s) =
    let same = friendly_words (some c) (current ++ c ∷ []) s in
    let next = friendly_words (some c) (c ∷ []) s in
    if begins_word previous c (first s) then current ∷ next else same

-- strings.Join(words, " "); a word of no letters stands only for the empty name.
unfoldable pub join_with_spaces : List Text → Text
join_with_spaces [] = []
join_with_spaces (w ∷ []) = w
join_with_spaces (w ∷ words) = w ++ codes " " ++ join_with_spaces words

-- friendlyName
unfoldable pub friendly_name : Text → Text
unfolding friendly_words join_with_spaces
friendly_name value = join_with_spaces (friendly_words none [] value)

-- isBooleanRegister
abbrev pub is_boolean_register : String → Bool
is_boolean_register key = eq_string key "DebugModeEnable" || is_boolean_key key

-- batteryUnitMetadata
unfoldable pub battery_unit_metadata : Text → Fields
battery_unit_metadata battery =
    if eq_text battery []
    then []
    else if eq_text battery (codes "Lithium")
    then field "icon" "mdi:percent-outline"
      ∷ field "unit_of_measurement" "%"
      ∷ field "state_class" "measurement"
      ∷ []
    else field "device_class" "voltage"
      ∷ field "icon" "mdi:sine-wave"
      ∷ field "unit_of_measurement" "V"
      ∷ field "state_class" "measurement"
      ∷ []

-- delete(m, key)
unfoldable pub remove : String → Fields → Fields
remove key [] = []
remove key ((held, value) ∷ fields) =
    let rest = remove key fields in if eq_string held key then rest else (held, value) ∷ rest

-- payload[key] = value, for each of them in order.
abbrev pub assign : List (String × Field) → Fields → Fields
assign values payload = merge payload values

-- An entity of the device: its platform and its fields.
pub record Component : Type 0 where
  pub platform : String
  pub payload : Fields

abbrev pub component : String → Fields → Component
component platform payload = record { platform = platform; payload = payload }

abbrev pub switch_fields : List (String × Field)
switch_fields =
    field "payload_on" "true"
    ∷ field "payload_off" "false"
    ∷ field "state_on" "true"
    ∷ field "state_off" "false"
    ∷ ("optimistic", flag true)
    ∷ []

abbrev pub boolean_fields : List (String × Field)
boolean_fields =
    field "payload_on" "true"
    ∷ field "payload_off" "false"
    ∷ field "icon" "mdi:toggle-switch-outline"
    ∷ []

abbrev pub state_fields : List (String × Field)
state_fields = field "state_on" "true" ∷ field "state_off" "false" ∷ ("optimistic", flag true) ∷ []

-- The name of entityMetadata, where it has one, and else the friendly name.
abbrev pub named : Text → Option Field → Text
named name (some (text given)) = given
named name _ = name

-- components[key] = component: a later one of a key replaces an earlier.
unfoldable pub put : Text → Component → List (Text × Component) → List (Text × Component)
put key c [] = (key, c) ∷ []
put key c ((held, old) ∷ components) =
    let rest = put key c components in
    if eq_text held key then (held, c) ∷ components else (held, old) ∷ rest

unfoldable pub put_all : List (Text × Component) → List (Text × Component) → List (Text × Component)
unfolding put
put_all components [] = components
put_all components ((key, c) ∷ more) = put_all (put key c components) more

module _ (config : MqttConfig) where
  abbrev pub object_id : Text → Text
  object_id name = config.ha_device_id ++ codes "_" ++ name

  -- componentBase
  unfoldable pub component_base : Text → Text → Fields
  component_base id name =
      ("name", text name)
      ∷ ("object_id", text id)
      ∷ ("unique_id", text (config.ha_device_id ++ codes "_" ++ id))
      ∷ []

  module _ (base : Text) (last_config : Config) (battery_type : Text) where
    -- The first assignments of configDiscovery.
    unfoldable pub config_base : RegisterDef → Fields
    unfolding component_base friendly_name merge entity_metadata command_topic config_topic
    config_base d =
        let given = lookup "name" (fields_of (lookup d.key entity_metadata)) in
        let name = named (friendly_name (codes d.key)) given in
        let started =
          assign (("state_topic", text (config_topic base d.key)) ∷ [])
            (component_base (object_id (slug (codes d.key))) name) in
        if is_some d.write
        then assign
            (("command_topic", text (command_topic base d.key))
              ∷ ("retain", flag false)
              ∷ ("qos", integer 1)
              ∷ [])
            started
        else started

    -- The number of configDiscovery: its limits, and the unit of a battery's threshold.
    unfoldable pub number_component : String → Fields → Component
    unfolding merge sensor_metadata remove battery_unit_metadata discovery_number_limits
    number_component key payload =
        let limits = discovery_number_limits key last_config battery_type in
        let limited =
          assign
            (("min", number limits.minimum)
              ∷ ("max", number limits.maximum)
              ∷ ("step", number limits.step)
              ∷ [])
            (merge payload (sensor_metadata key)) in
        let bare =
          remove "state_class" (remove "unit_of_measurement" (remove "device_class" limited)) in
        let united =
          if eq_string key "BatLowtoUti" || eq_string key "uwAC2BatVolt"
          then merge bare (battery_unit_metadata battery_type)
          else limited in
        component "number" (assign (field "mode" "box" ∷ ("optimistic", flag true) ∷ []) united)

    -- The rest of configDiscovery for a register that can be written and is not Boolean.
    unfoldable pub writable_component : Option (List String) → RegisterDef → Fields → Component
    unfolding number_component sensor_metadata
    writable_component (some options) d payload = component "select" (
        assign (("options", texts options) ∷ ("optimistic", flag true) ∷ [])
          (merge payload (sensor_metadata d.key)))
    writable_component none d payload =
        if is_boolean_key d.key
        then component "switch" (assign switch_fields (merge payload (sensor_metadata d.key)))
        else if is_char d.kind
        then component "text"
            (assign (("optimistic", flag true) ∷ []) (merge payload (sensor_metadata d.key)))
        else number_component d.key payload

    -- configDiscovery; every definition has a Read function.
    unfoldable pub config_discovery : RegisterDef → Component
    unfolding config_base writable_component select_options
    config_discovery d =
        let payload = config_base d in
        let boolean = assign boolean_fields payload in
        if is_boolean_register d.key
        then if is_some d.write
          then component "switch" (assign state_fields boolean)
          else component "binary_sensor" boolean
        else if is_some d.write
        then writable_component (lookup d.key select_options) d payload
        else component "sensor" (merge payload (sensor_metadata d.key))

    -- The sensor of a status register.
    unfoldable pub status_component : RegisterDef → Component
    unfolding component_base friendly_name merge sensor_metadata value_topic
    status_component d = component "sensor" (
        merge
          (assign (("state_topic", text (value_topic base (codes "status") d.key)) ∷ [])
            (component_base (object_id (slug (codes d.key))) (friendly_name (codes d.key))))
          (sensor_metadata d.key))

    abbrev sync_button : Component
    sync_button = component "button" (
        assign
          (("command_topic", text (time_sync_command base))
            ∷ field "payload_press" "sync"
            ∷ ("qos", integer 1)
            ∷ ("retain", flag false)
            ∷ field "icon" "mdi:clock-sync-outline"
            ∷ [])
          (component_base (object_id (codes "sync_time")) (codes "Sync Time")))

    -- components[object_id], in the order in which they are set.
    unfoldable pub entries : ParseFloat → List (Text × Component)
    unfolding status_component config_discovery
    entries parse_float =
        map (λ d. (object_id (slug (codes d.key)), status_component d))
          (input_registers parse_float)
        ++ map (λ d. (object_id (slug (codes d.key)), config_discovery d))
            (holding_registers parse_float)
        ++ (object_id (codes "sync_time"), sync_button) ∷ []

    unfoldable pub discovery_components : ParseFloat → List (Text × Component)
    unfolding entries put_all
    discovery_components parse_float = put_all [] (entries parse_float)

-- The document of publishDeviceDiscovery; its origin and the maker and model of its device are
-- constants.
pub record Discovery : Type 0 where
  pub availability_topic : Text
  pub identifiers : List Text
  pub device_name : Text
  pub components : List (Text × Component)

unfoldable pub device_discovery : MqttConfig → Text → Config → Text → ParseFloat → Discovery
unfolding discovery_components
device_discovery config base last_config battery_type parse_float = record {
  availability_topic = availability_topic base;
  identifiers = config.ha_device_id ∷ [];
  device_name = config.ha_device_name;
  components = discovery_components config base last_config battery_type parse_float;
}

-- The topic of publishDiscoveryPayload for the device.
abbrev pub discovery_topic : MqttConfig → Text
discovery_topic config =
    config.ha_discovery_prefix ++ codes "/device/" ++ config.ha_device_id ++ codes "/config"
