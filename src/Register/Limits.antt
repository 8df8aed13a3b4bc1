-- ===== src/Register/Limits.antt =====
-- registers.go: which registers are writable numbers, and the limits of their values.
pub mod Widening
pub mod Proper
use spf5000es_server.Prelude.{
  ℕ, Bool, true, false, not, ◌&&◌, ◌||◌, Option, none, some, List, [], ◌∷◌, String, pos, Text,
  codes, eq_string, eq_text, lookup, any, if◌then◌else◌, map,
}
use spf5000es_server.Error.{Error, Result, ok, err, message}
use spf5000es_server.Float.{Float64, of_int, of_ratio, lt, le}
use spf5000es_server.Value.{Value, string, Config, ParseFloat, scalar_as_float64}
use spf5000es_server.Register.{RegisterDef, RegisterType, register_char}
use spf5000es_server.Register.Windows.{find_register}
use spf5000es_server.Register.Holdings.{holding_registers}

-- selectOptions
unfoldable pub select_options : List (String × List String)
select_options =
    ("OutputConfig", "SBU" ∷ "SOL" ∷ "UTI" ∷ "SUB" ∷ [])
    ∷ ("ChargeConfig", "PV First" ∷ "PV&UTI" ∷ "PV Only" ∷ [])
    ∷ ("PVModel", "Independent" ∷ "Parallel" ∷ [])
    ∷ ("ACInModel", "APL" ∷ "UPS" ∷ "GEN" ∷ [])
    ∷ (
      "OutputVoltType",
      "208VAC" ∷ "230VAC" ∷ "240VAC" ∷ "220VAC" ∷ "100VAC" ∷ "110VAC" ∷ "120VAC" ∷ [],
    )
    ∷ ("OutputFreqType", "50Hz" ∷ "60Hz" ∷ [])
    ∷ ("OverLoadRestart", "Yes" ∷ "No" ∷ "Switch to UTI" ∷ [])
    ∷ ("BatteryType", "AGM" ∷ "FLD" ∷ "USE" ∷ "Lithium" ∷ "USE2" ∷ [])
    ∷ ("AgingMode", "Normal" ∷ "Aging" ∷ [])
    ∷ ("SafetyType", "Standard" ∷ "ETL" ∷ "AS4777" ∷ "CQC" ∷ "VDE4105" ∷ [])
    ∷ []

-- booleanKeys
unfoldable pub boolean_keys : List String
boolean_keys =
    "OverTempRestart" ∷ "BuzzerEnable" ∷ "BypEnable" ∷ "PowSavingEnable" ∷ "SpowBalEnable"
    ∷ "ClrEnergyToday" ∷ "ClrEnergyAll" ∷ "BurnInTestEnable" ∷ "ManualStartEnable"
    ∷ "SciLossChkEnable" ∷ "BlightEnable" ∷ "AudioAlarmEnable" ∷ []

-- booleanKeys[key]
unfoldable pub is_boolean_key : String → Bool
unfolding boolean_keys
is_boolean_key key = any (eq_string key) boolean_keys

-- numberLimits
pub record NumberLimits : Type 0 where
  pub minimum : Float64
  pub maximum : Float64
  pub step : Float64

abbrev whole : ℕ → Float64
whole n = of_int (pos n)

abbrev tenth : Float64
tenth = of_ratio 1 10

abbrev limits : ℕ → ℕ → Float64 → NumberLimits
limits minimum maximum step = record {
  minimum = whole minimum;
  maximum = whole maximum;
  step = step;
}

-- configNumberLimits
unfoldable pub config_number_limits : List (String × NumberLimits)
config_number_limits =
    ("UtiOutStart", limits 0 23 (whole 1))
    ∷ ("UtiOutEnd", limits 0 23 (whole 1))
    ∷ ("UtiChargeStart", limits 0 23 (whole 1))
    ∷ ("UtiChargeEnd", limits 0 23 (whole 1))
    ∷ ("LCDLanguage", limits 0 1 (whole 1))
    ∷ ("MoudleH", limits 0 1 (whole 1))
    ∷ ("ComAddress", limits 1 254 (whole 1))
    ∷ ("ResetUserInfo", limits 0 1 (whole 1))
    ∷ ("ResetToFactory", limits 0 1 (whole 1))
    ∷ ("MaxChargeAmps", limits 0 180 (whole 1))
    ∷ ("BulkChargeVolt", limits 50 64 tenth)
    ∷ ("FloatChargeVolt", limits 50 56 tenth)
    ∷ ("ACChargeAmps", limits 0 80 (whole 1))
    ∷ ("LiProtocolType", limits 0 99 (whole 1))
    ∷ []

-- discoveryNominalMaxRegisters
unfoldable pub discovery_nominal_max_registers : List (String × String)
discovery_nominal_max_registers =
    ("ACChargeAmps", "NomAcChgCurrRaw") ∷ ("MaxChargeAmps", "ParaMaxChgAmps") ∷ []

-- isWritableNumberRegister, on a definition of holdingByKey
abbrev pub is_char : RegisterType → Bool
is_char register_char = true
is_char _ = false

abbrev pub is_some {ℓ} : {A : Type ℓ} → Option A → Bool
is_some none = false
is_some (some a) = true

abbrev pub is_writable_number : String → Option RegisterDef → Bool
is_writable_number key none = false
is_writable_number key (some d) =
    is_some d.write
    && not (is_boolean_key key || eq_string key "DebugModeEnable")
    && not (is_some (lookup key select_options))
    && not (is_char d.kind)

unfoldable pub is_writable_number_register : ParseFloat → String → Bool
unfolding is_boolean_key select_options
is_writable_number_register parse_float key =
    is_writable_number key (find_register key (holding_registers parse_float))

-- baseNumberLimits
unfoldable pub base_number_limits : String → Text → NumberLimits
unfolding config_number_limits
base_number_limits key battery_type =
    if eq_string key "BatLowtoUti" || eq_string key "uwAC2BatVolt"
    then if eq_text battery_type (codes "Lithium")
      then limits 5 100 (whole 1)
      else if not (eq_text battery_type [])
      then limits 20 64 tenth
      else limits 5 100 tenth
    else elim (lookup key config_number_limits) [
      | some found ↦ found
      | none ↦ limits 0 65535 (whole 1)
    ]

-- scalarAsFloat64(config[key])
abbrev pub config_number : Config → String → Option Float64
config_number config key = elim (lookup key config) [
  | none ↦ none
  | some value ↦ scalar_as_float64 value
]

-- The limits stretched to the present state, where that is not above the nominal maximum.
unfoldable pub stretch : Option Float64 → Option Float64 → NumberLimits → NumberLimits
stretch (some state) (some nominal) l =
    if le state nominal
    then record l {
      maximum = if lt l.maximum state then state else l.maximum;
      minimum = if lt state l.minimum then state else l.minimum;
    }
    else l
stretch _ _ l = l

unfoldable pub stretch_maximum : Float64 → NumberLimits → NumberLimits
stretch_maximum bulk l = if lt l.maximum bulk then record l { maximum = bulk } else l

-- discoveryNumberLimits
unfoldable pub discovery_number_limits : String → Config → Text → NumberLimits
unfolding base_number_limits stretch stretch_maximum discovery_nominal_max_registers
discovery_number_limits key config battery_type =
    let base = base_number_limits key battery_type in
    let stated : NumberLimits = elim (lookup key discovery_nominal_max_registers) [
      | none ↦ base
      | some nominal_key ↦
          stretch (config_number config key) (config_number config nominal_key) base
    ] in
    if eq_string key "FloatChargeVolt"
    then stretch_maximum (base_number_limits "BulkChargeVolt" battery_type).maximum stated
    else stated

-- The tests of validateWritableNumberValue on a writable number.
unfoldable pub check_limits : NumberLimits → Option Float64 → Result (Unit {0})
check_limits l none = err (message "numeric value required")
check_limits l (some number) =
    if lt number l.minimum || lt l.maximum number
    then err (message "value outside allowed range")
    else ok tt

-- validateWritableNumberValue
unfoldable pub validate_writable_number_value :
    ParseFloat → String → Value → Config → Text → Result (Unit {0})
unfolding is_writable_number_register discovery_number_limits check_limits
validate_writable_number_value parse_float key value config battery_type =
    if is_writable_number_register parse_float key
    then check_limits (discovery_number_limits key config battery_type) (scalar_as_float64 value)
    else ok tt
