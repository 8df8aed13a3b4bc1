-- ===== src/Config/Ini.antt =====
-- config.go: the values of an INI file, and which keys it may have. The file is what the library
-- gopkg.in/ini.v1 loads.
use spf5000es_server.Prelude.{
  ◌^◌, Bool, false, ◌||◌, Option, none, some, List, [], ◌∷◌, map, Text, codes, eq_text, eq_string,
  lookup, String, ℤ, any, if◌then◌else◌,
}
use spf5000es_server.Error.{Result, ok, err, message, wrap, map_err, ◌>>=◌}
use spf5000es_server.Float.{Float64, is_nan, is_inf, of_ratio, mul, le, lt, to_int64}
use spf5000es_server.Value.{ParseFloat}
use spf5000es_server.Strings.{trim_space, trim, lower}

-- Sections with the names of their keys, ini.DEFAULT_SECTION, and the text of a key, which `none`
-- where the section or the key is not there: `Key` of the library then gives an empty text.
pub record IniFile : Type 0 where
  pub sections : List (String × List String)
  pub default_section : String
  pub get_key : String → String → Option Text

-- strconv.Atoi, ParseBool and ParseFloat
pub record Parsers : Type 0 where
  pub atoi : Text → Result ℤ
  pub parse_boolean : Text → Result Bool
  pub parse_float : ParseFloat

abbrev or_empty : Option Text → Text
or_empty (some text) = text
or_empty none = []

-- strings.TrimSpace(cfg.Section(section).Key(key).String())
abbrev raw_value : IniFile → String → String → Text
raw_value file section key = trim_space (or_empty (file.get_key section key))

abbrev is_empty : Text → Bool
is_empty text = eq_text text []

-- value
unfoldable pub value : IniFile → String → String → Text → Text
value file section key fallback =
    let raw = raw_value file section key in if is_empty raw then fallback else raw

-- optionalValue: no letter but an ASCII one has a lower case in these words.
unfoldable pub optional_value : IniFile → String → String → Text
optional_value file section key =
    let raw = raw_value file section key in
    let folded = map lower raw in
    if is_empty folded
      || eq_text folded (codes "none")
      || eq_text folded (codes "null")
      || eq_text folded (codes "false")
    then []
    else raw

-- intValue
unfoldable pub int_value : Parsers → IniFile → String → String → ℤ → Result ℤ
int_value parsers file section key fallback = elim (file.get_key section key) [
  | none ↦ ok fallback
  | some entry ↦
      let raw = trim_space entry in
      if is_empty raw
      then err (message "%s.%s must not be empty")
      else map_err (wrap "invalid %s.%s %q: %w") (parsers.atoi raw)
]

-- boolValue
unfoldable pub bool_value : Parsers → IniFile → String → String → Bool → Result Bool
bool_value parsers file section key fallback = elim (file.get_key section key) [
  | none ↦ ok fallback
  | some entry ↦ map_err (wrap "invalid %s.%s %q: %w") (parsers.parse_boolean (trim_space entry))
]

-- float64(math.MaxInt64) / float64(time.Second)
abbrev max_seconds : Float64
max_seconds = of_ratio (2 ^ 63) (10 ^ 9)

-- time.Duration(x * float64(time.Second))
abbrev pub from_seconds : Float64 → ℤ
from_seconds x = to_int64 (mul x (10 ^ 9))

abbrev positive_seconds : Float64 → Result ℤ
positive_seconds parsed =
    if is_nan parsed || is_inf parsed || le parsed (of_ratio 0 1)
    then err (message "%s.%s must be a finite positive number, got %q")
    else if lt max_seconds parsed
    then err (message "%s.%s is too large")
    else ok (from_seconds parsed)

-- durationSeconds
unfoldable pub duration_seconds : Parsers → IniFile → String → String → Float64 → Result ℤ
duration_seconds parsers file section key fallback = elim (file.get_key section key) [
  | none ↦ ok (from_seconds fallback)
  | some entry ↦
      let raw = trim_space entry in
      if is_empty raw
      then err (message "%s.%s must not be empty")
      else map_err (λ e. message "%s.%s must be a finite positive number, got %q")
          (parsers.parse_float raw)
        >>= positive_seconds
]

-- configSchema, with keys
unfoldable pub config_schema : List (String × List String)
config_schema =
    ("MODBUS", "PORT" ∷ "TIMEOUT_SEC" ∷ [])
    ∷ (
      "MQTT",
      "HOST" ∷ "PORT" ∷ "USER" ∷ "PASSWORD" ∷ "TLS_ENABLED" ∷ "TLS_CA_FILE" ∷ "TLS_CERT_FILE"
          ∷ "TLS_KEY_FILE" ∷ "TLS_SERVER_NAME" ∷ "CLIENT_ID" ∷ "KEEPALIVE_SEC" ∷ "WILL_DELAY_SEC"
          ∷ "OPERATION_TIMEOUT_SEC" ∷ "DISCONNECT_TIMEOUT_SEC" ∷ "TOPIC_PREFIX"
          ∷ "HA_DISCOVERY_PREFIX" ∷ "HA_DEVICE_ID" ∷ "HA_DEVICE_NAME" ∷ [],
    )
    ∷ ("POLLING", "CONFIG_INTERVAL_SEC" ∷ "STATUS_INTERVAL_SEC" ∷ [])
    ∷ (
      "RECOVERY",
      "RECONNECT_ATTEMPTS" ∷ "INITIAL_BACKOFF_SEC" ∷ "MAX_BACKOFF_SEC" ∷ "RESET_COOLDOWN_SEC" ∷ [],
    )
    ∷ ("LOGGING", "LEVEL" ∷ [])
    ∷ []

abbrev mem_string : String → List String → Bool
mem_string name names = any (λ held. eq_string held name) names

-- The loop over the keys of a section.
abbrev check_keys : List String → List String → Result (Unit {0})
check_keys allowed [] = ok tt
check_keys allowed (key ∷ keys) =
    let rest = check_keys allowed keys in
    if mem_string key allowed then rest else err (message "unknown configuration key %s.%s")

abbrev check_section : String → String × List String → Result (Unit {0})
check_section default_section (name, []) =
    if eq_string name default_section then ok tt else elim (lookup name config_schema) [
      | none ↦ err (message "unknown configuration section %q")
      | some allowed ↦ ok tt
    ]
check_section default_section (name, key ∷ keys) =
    if eq_string name default_section
    then err (message "configuration keys must be inside a named section")
    else elim (lookup name config_schema) [
      | none ↦ err (message "unknown configuration section %q")
      | some allowed ↦ check_keys allowed (key ∷ keys)
    ]

check_sections : String → List (String × List String) → Result (Unit {0})
check_sections default_section [] = ok tt
check_sections default_section (section ∷ sections) =
    check_section default_section section >>= λ _. check_sections default_section sections

-- validateConfigSchema
unfoldable pub validate_config_schema : IniFile → Result (Unit {0})
unfolding check_sections
validate_config_schema file = check_sections file.default_section file.sections

-- The fields that may not be empty where they are given.
abbrev explicit_fields : List (String × String)
explicit_fields =
    ("MODBUS", "PORT")
    ∷ ("MQTT", "HOST")
    ∷ ("MQTT", "CLIENT_ID")
    ∷ ("MQTT", "TOPIC_PREFIX")
    ∷ ("MQTT", "HA_DISCOVERY_PREFIX")
    ∷ ("MQTT", "HA_DEVICE_ID")
    ∷ ("MQTT", "HA_DEVICE_NAME")
    ∷ ("LOGGING", "LEVEL")
    ∷ []

-- A key that is there with a text of which `clean` leaves nothing.
abbrev is_blank : (Text → Text) → Option Text → Bool
is_blank clean none = false
is_blank clean (some entry) = is_empty (clean entry)

check_explicit : (Text → Text) → String → IniFile → List (String × String) → Result (Unit {0})
check_explicit clean refusal file [] = ok tt
check_explicit clean refusal file ((section, key) ∷ fields) =
    let rest = check_explicit clean refusal file fields in
    if is_blank clean (file.get_key section key) then err (message refusal) else rest

-- validateExplicitValues
unfoldable pub validate_explicit_values : IniFile → Result (Unit {0})
unfolding check_explicit
validate_explicit_values file =
    check_explicit trim_space "%s.%s must not be empty" file explicit_fields >>= λ _.
    check_explicit (λ entry. trim b'/' (trim_space entry)) "MQTT.%s must contain a topic name" file
      (("MQTT", "TOPIC_PREFIX") ∷ ("MQTT", "HA_DISCOVERY_PREFIX") ∷ [])
