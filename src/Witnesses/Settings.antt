-- ===== src/Witnesses/Settings.antt =====
-- config.go on concrete data.
use spf5000es_server.Prelude.{
  ◌*◌, ◌/◌, ◌^◌, ◌<◌, ◌≤◌, ◌≡◌, refl, true, false, none, some, [], ◌∷◌, ◌++◌, ◌↔◌, codes, pos,
  eq_string, lookup, pos_part, if◌then◌else◌,
}
use spf5000es_server.Error.{ok, err, message, canceled}
use spf5000es_server.Float.{of_ratio, min_int64, to_int64, mul, rounded, nearest, ulp}
use spf5000es_server.Config.{AppConfig, recovery_config, level_info}
use spf5000es_server.Strings.{trim_space, trim, trim_left}
use spf5000es_server.Config.Ini.{
  IniFile, Parsers, from_seconds, value, optional_value, int_value, bool_value, duration_seconds,
  config_schema, validate_config_schema, validate_explicit_values,
}
use spf5000es_server.Config.Names.{
  normalize_topic, parse_log_level, upper_case, validate_mqtt_identifier, validate_mqtt_topic,
}
use spf5000es_server.Config.Read.{
  read_config, read_file, read_settings, read_modbus, read_mqtt, read_polling, read_recovery,
  accept, refusals, refuse_first, validate_app, validate_names, validate_topics, with_level,
}
use spf5000es_server.Config.Ranges.{Acceptable, read_config-Acceptable}
use spf5000es_server.Config.Log.{log_config}
use spf5000es_server.Config.Log.Secrecy.{with_password, log_config-with_password}
use spf5000es_server.Config.Recovers.{read_config-Validated}
use spf5000es_server.Mqtt.Client.{connect_options}
use spf5000es_server.Mqtt.Client.Expiry.{read_config-connect_options}
use spf5000es_server.Recovery.{execute_with_recovery}
use spf5000es_server.Recovery.Success.{Validated}
use spf5000es_server.Main.{Parts, run, run_body, mqtt_stopped, inverter_closed}
use spf5000es_server.Main.Outcome.{Smooth, run-Smooth}
use spf5000es_server.Witnesses.{no_float}
use spf5000es_server.Witnesses.Recovering.{surroundings, fresh}

-- A file that names the port of the device.
abbrev file : IniFile
file = record {
  sections = ("DEFAULT", []) ∷ ("MODBUS", "PORT" ∷ []) ∷ [];
  default_section = "DEFAULT";
  get_key = λ section key.
      if eq_string section "MODBUS"
      then if eq_string key "PORT" then some (codes "/dev/ttyUSB0") else none
      else none;
}

abbrev parsers : Parsers
parsers = record {
  atoi = λ s. err (message "invalid syntax");
  parse_boolean = λ s. err (message "invalid syntax");
  parse_float = no_float;
}

abbrev defaults : AppConfig
defaults = record {
  modbus = record { port = codes "/dev/ttyUSB0"; timeout = pos (1500 * 10 ^ 6) };
  mqtt = record {
    host = codes "localhost";
    port = pos 1883;
    username = [];
    password = [];
    tls_enabled = false;
    tls_ca_file = [];
    tls_cert_file = [];
    tls_key_file = [];
    tls_server_name = [];
    client_id = codes "growatt_spf5000es";
    keepalive = pos (60 * 10 ^ 9);
    will_delay = pos (300 * 10 ^ 9);
    operation_timeout = pos (10 * 10 ^ 9);
    disconnect_timeout = pos (5 * 10 ^ 9);
    topic_prefix = codes "growatt_spf5000es";
    ha_discovery_prefix = codes "homeassistant";
    ha_device_id = codes "growatt_spf5000es";
    ha_device_name = codes "Growatt SPF 5000 ES";
  };
  polling = record { config_interval = pos (600 * 10 ^ 9); status_interval = pos (2 * 10 ^ 9) };
  recovery = record {
    reconnect_attempts = pos 3;
    initial_backoff = pos (1 * 10 ^ 9);
    max_backoff = pos (10 * 10 ^ 9);
    reset_cooldown = pos (300 * 10 ^ 9);
  };
  log_level = level_info;
}

accepted : read_config parsers true (ok file) ≡ ok defaults
unfolding read_config read_file read_settings read_modbus read_mqtt read_polling read_recovery
    accept refusals refuse_first validate_app validate_names validate_topics with_level value
    optional_value int_value bool_value duration_seconds config_schema validate_config_schema
    validate_explicit_values normalize_topic parse_log_level upper_case validate_mqtt_identifier
    validate_mqtt_topic trim_space trim trim_left lookup of_ratio mul to_int64 rounded nearest ulp
accepted = refl

read_config-Acceptable_example : Acceptable defaults
read_config-Acceptable_example = read_config-Acceptable parsers true (ok file) defaults accepted

read_config-Validated_example :
    Validated surroundings
      (recovery_config defaults.recovery)
      (execute_with_recovery surroundings (recovery_config defaults.recovery) fresh)
read_config-Validated_example =
    read_config-Validated parsers true (ok file) defaults accepted surroundings fresh

read_config-connect_options_example :
    (1 ≤ (connect_options defaults.mqtt).keep_alive)
    × ((connect_options defaults.mqtt).keep_alive ≡ pos_part defaults.mqtt.keepalive / 10 ^ 9)
    × ((connect_options defaults.mqtt).will_delay_interval
        ≡ pos_part defaults.mqtt.will_delay / 10 ^ 9)
    × ((connect_options defaults.mqtt).will_delay_interval
        < (connect_options defaults.mqtt).session_expiry_interval)
read_config-connect_options_example =
    read_config-connect_options parsers true (ok file) defaults accepted

-- Both loops end because the context is done.
abbrev parts : Parts
parts = record {
  read_config = ok defaults;
  connect = none;
  start_polling = none;
  start_mqtt = none;
  loops = some canceled ∷ some canceled ∷ [];
  close = none;
}

run-Smooth_example :
    (((run parts).0 ≡ none) ↔ (Smooth parts × (parts.close ≡ none)))
    × ((run parts).1 ≡ (run_body parts).1 ++ mqtt_stopped ∷ inverter_closed ∷ [])
run-Smooth_example = run-Smooth parts defaults refl

-- The greatest number of seconds that is not too large is one nanosecond too many.
greatest_seconds : from_seconds (of_ratio (2 ^ 63) (10 ^ 9)) ≡ min_int64
unfolding to_int64 mul of_ratio rounded nearest ulp
greatest_seconds = refl

log_config-with_password_example :
    log_config (with_password (codes "hunter2") defaults)
    ≡ log_config (with_password (codes "letmein") defaults)
log_config-with_password_example =
    log_config-with_password (codes "hunter2") (codes "letmein") defaults refl
