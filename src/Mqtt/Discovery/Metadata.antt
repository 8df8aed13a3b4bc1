-- ===== src/Mqtt/Discovery/Metadata.antt =====
-- mqtt.go and registers.go: what Home Assistant is told of a register by its name.
use spf5000es_server.Prelude.{
  ℕ, Bool, false, not, ◌&&◌, ◌||◌, Option, none, some, List, [], ◌∷◌, String, Text, codes, eq_text,
  lookup, insert, map, if◌then◌else◌,
}
use spf5000es_server.Float.{Float64}
use spf5000es_server.Strings.{lower, has_prefix, has_suffix, contains}
use spf5000es_server.Register.Limits.{is_some}

-- A value of a JSON object of a component.
pub data Field : Type 0 where
  text : Text → Field
  integer : ℕ → Field
  number : Float64 → Field
  flag : Bool → Field
  texts : List String → Field

-- map[string]any
abbrev pub Fields : Type 0
Fields = List (String × Field)

abbrev pub field : String → String → String × Field
field key value = (key, text (codes value))

-- merge(destination, source)
unfoldable pub merge : Fields → Fields → Fields
merge destination [] = destination
merge destination ((key, value) ∷ source) = merge (insert key value destination) source

-- entityMetadata
unfoldable pub entity_metadata : List (String × Fields)
entity_metadata =
    ("SystemStatus", field "icon" "mdi:solar-power" ∷ [])
    ∷ ("FaultBit", field "icon" "mdi:alert-circle-outline" ∷ [])
    ∷ ("WarningBit", field "icon" "mdi:alert-outline" ∷ [])
    ∷ ("WarningBitHigh", field "icon" "mdi:alert-outline" ∷ [])
    ∷ ("WarningValue", field "icon" "mdi:alert-outline" ∷ [])
    ∷ ("DeviceTypeCode", field "icon" "mdi:identifier" ∷ [])
    ∷ ("WorkTimeTotalSeconds", field "icon" "mdi:timer-outline" ∷ [])
    ∷ ("OutputConfig", field "icon" "mdi:transmission-tower-export" ∷ [])
    ∷ ("ChargeConfig", field "icon" "mdi:battery-charging" ∷ [])
    ∷ ("UtiOutStart", field "icon" "mdi:clock-start" ∷ field "unit_of_measurement" "h" ∷ [])
    ∷ ("UtiOutEnd", field "icon" "mdi:clock-end" ∷ field "unit_of_measurement" "h" ∷ [])
    ∷ ("UtiChargeStart", field "icon" "mdi:battery-clock" ∷ field "unit_of_measurement" "h" ∷ [])
    ∷ ("UtiChargeEnd", field "icon" "mdi:battery-clock" ∷ field "unit_of_measurement" "h" ∷ [])
    ∷ ("PVModel", field "icon" "mdi:solar-panel" ∷ [])
    ∷ ("ACInModel", field "icon" "mdi:transmission-tower-import" ∷ [])
    ∷ ("FWVersion", field "icon" "mdi:chip" ∷ [])
    ∷ ("FWVersion2", field "icon" "mdi:chip" ∷ [])
    ∷ ("LCDLanguage", field "icon" "mdi:translate" ∷ [])
    ∷ ("SerialNumber", field "icon" "mdi:barcode" ∷ [])
    ∷ ("MoudleH", field "icon" "mdi:chip" ∷ [])
    ∷ ("MoudleL", field "icon" "mdi:chip" ∷ [])
    ∷ ("ComAddress", field "icon" "mdi:serial-port" ∷ [])
    ∷ ("FlashStart", field "icon" "mdi:flash" ∷ [])
    ∷ ("ResetUserInfo", field "icon" "mdi:account-sync-outline" ∷ [])
    ∷ ("ResetToFactory", field "icon" "mdi:factory" ∷ [])
    ∷ ("BatteryType", field "icon" "mdi:car-battery" ∷ [])
    ∷ ("AgingMode", field "icon" "mdi:timer-sand" ∷ [])
    ∷ ("FunctionMask", field "icon" "mdi:bitwise" ∷ [])
    ∷ ("SafetyType", field "icon" "mdi:shield-check-outline" ∷ [])
    ∷ ("DTC", field "icon" "mdi:alert-decagram-outline" ∷ [])
    ∷ ("ControlFWBuildNo2", field "icon" "mdi:chip" ∷ [])
    ∷ ("ControlFWBuildNo1", field "icon" "mdi:chip" ∷ [])
    ∷ ("ComFWBuildNo2", field "icon" "mdi:chip" ∷ [])
    ∷ ("ComFWBuildNo1", field "icon" "mdi:chip" ∷ [])
    ∷ ("ModbusVersion", field "icon" "mdi:protocol" ∷ [])
    ∷ ("SCCComMode", field "icon" "mdi:connection" ∷ [])
    ∷ ("ComboardVer", field "icon" "mdi:chip" ∷ [])
    ∷ ("uwBatPieceNum", field "icon" "mdi:battery-multiple" ∷ [])
    ∷ ("uwAC2BatVolt", field "name" "uw AC2 Bat" ∷ [])
    ∷ ("LiProtocolType", field "icon" "mdi:protocol" ∷ [])
    ∷ []

-- m[key] of a map of maps: a nil map where the key is missing.
abbrev pub fields_of : Option Fields → Fields
fields_of none = []
fields_of (some fields) = fields

-- The first case that holds; nothing where none does.
abbrev pub first_case : List (Bool × Fields) → Fields
first_case [] = []
first_case ((test, fields) ∷ cases) = let rest = first_case cases in if test then fields else rest

-- The cases of the first switch of sensorMetadata, on the key in lower case.
unfoldable pub unit_cases : Text → List (Bool × Fields)
unit_cases key =
    let has = λ (part : String). contains key (codes part) in
    (
      has_suffix key (codes "seconds") || (has "time" && (has "volt" || has "freq")),
      field "device_class" "duration"
          ∷ field "icon" "mdi:timer-outline"
          ∷ field "unit_of_measurement" "s"
          ∷ [],
    )
    ∷ (
      has_suffix key (codes "kwh"),
      field "device_class" "energy"
          ∷ field "icon" "mdi:lightning-bolt"
          ∷ field "unit_of_measurement" "kWh"
          ∷ field "state_class" "total_increasing"
          ∷ [],
    )
    ∷ (
      has_suffix key (codes "kw"),
      field "device_class" "power"
          ∷ field "icon" "mdi:flash"
          ∷ field "unit_of_measurement" "kW"
          ∷ [],
    )
    ∷ (
      has "percent" || has_suffix key (codes "soc"),
      field "icon" "mdi:percent-outline" ∷ field "unit_of_measurement" "%" ∷ [],
    )
    ∷ (
      has "temp" && has_suffix key (codes "c"),
      field "device_class" "temperature"
          ∷ field "icon" "mdi:thermometer"
          ∷ ("unit_of_measurement", text (194 ∷ 176 ∷ b'C' ∷ []))
          ∷ [],
    )
    ∷ (
      has "watt",
      field "device_class" "power"
          ∷ field "icon" "mdi:flash"
          ∷ field "unit_of_measurement" "W"
          ∷ [],
    )
    ∷ (
      has "volt",
      field "device_class" "voltage"
          ∷ field "icon" "mdi:sine-wave"
          ∷ field "unit_of_measurement" "V"
          ∷ [],
    )
    ∷ (
      has_suffix key (codes "va"),
      field "device_class" "apparent_power"
          ∷ field "icon" "mdi:flash-triangle-outline"
          ∷ field "unit_of_measurement" "VA"
          ∷ [],
    )
    ∷ (
      has "amps",
      field "device_class" "current"
          ∷ field "icon" "mdi:current-ac"
          ∷ field "unit_of_measurement" "A"
          ∷ [],
    )
    ∷ (
      has "freq",
      field "device_class" "frequency"
          ∷ field "icon" "mdi:sine-wave"
          ∷ field "unit_of_measurement" "Hz"
          ∷ [],
    )
    ∷ []

unfoldable pub unit_metadata : Text → Fields
unfolding unit_cases
unit_metadata key = first_case (unit_cases key)

-- The cases of the second switch, on a key without an icon so far.
unfoldable pub icon_cases : Text → List (Bool × Fields)
icon_cases key =
    let has = λ (part : String). contains key (codes part) in
    (has "fan", field "icon" "mdi:fan" ∷ [])
    ∷ (has "battery" || has_prefix key (codes "bat"), field "icon" "mdi:battery" ∷ [])
    ∷ (has "pv", field "icon" "mdi:solar-panel" ∷ [])
    ∷ (has "grid" || has "uti", field "icon" "mdi:transmission-tower" ∷ [])
    ∷ (has "output", field "icon" "mdi:power-plug-outline" ∷ [])
    ∷ (has "buzzer" || has "alarm", field "icon" "mdi:bell-ring-outline" ∷ [])
    ∷ (has "restart" || has "reset", field "icon" "mdi:restart" ∷ [])
    ∷ (has "enable", field "icon" "mdi:toggle-switch-outline" ∷ [])
    ∷ []

unfoldable pub icon_metadata : Text → Fields
unfolding icon_cases
icon_metadata key = first_case (icon_cases key)

abbrev pub has_field : String → Fields → Bool
has_field key fields = is_some (lookup key fields)

abbrev pub is_text : Option Field → Text → Bool
is_text (some (text s)) wanted = eq_text s wanted
is_text _ wanted = false

unfoldable pub with_icon : Text → Fields → Fields
unfolding icon_metadata merge
with_icon key metadata =
    if has_field "icon" metadata then metadata else merge metadata (icon_metadata key)

unfoldable pub with_state_class : Fields → Fields
with_state_class metadata =
    if has_field "unit_of_measurement" metadata
      && not (has_field "state_class" metadata)
      && not (is_text (lookup "device_class" metadata) (codes "duration"))
    then insert "state_class" (text (codes "measurement")) metadata
    else metadata

-- sensorMetadata
unfoldable pub sensor_metadata : String → Fields
unfolding merge entity_metadata unit_metadata with_icon with_state_class
sensor_metadata key =
    let lowered = map lower (codes key) in
    let named = merge [] (fields_of (lookup key entity_metadata)) in
    with_state_class (with_icon lowered (merge named (unit_metadata lowered)))
