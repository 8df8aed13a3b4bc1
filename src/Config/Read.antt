-- ===== src/Config/Read.antt =====
-- config.go: readConfig.
use spf5000es_server.Prelude.{
  ℕ, ◌*◌, ◌-◌, ◌^◌, Bool, true, false, not, ◌&&◌, ◌||◌, List, [], ◌∷◌, Text, codes, eq_text, String,
  ℤ, pos, ltb_ℤ, if◌then◌else◌,
}
use spf5000es_server.Error.{Result, ok, err, message, wrap, map_err, ◌>>=◌}
use spf5000es_server.Float.{of_ratio}
use spf5000es_server.Config.{
  ModbusConfig, MqttConfig, PollingSettings, RecoverySettings, level_info, AppConfig,
}
use spf5000es_server.Config.Ini.{
  IniFile, Parsers, value, optional_value, int_value, bool_value, duration_seconds,
  validate_config_schema, validate_explicit_values,
}
use spf5000es_server.Config.Names.{
  validate_mqtt_identifier, validate_mqtt_topic, normalize_topic, parse_log_level,
}

-- The section MODBUS, the numbers of MQTT, and the other sections, in the order in which they are read.
unfoldable pub read_modbus : Parsers → IniFile → Result ModbusConfig
read_modbus parsers file =
    let port = value file "MODBUS" "PORT" [] in
    if eq_text port [] then err (message "MODBUS.PORT is required") else do
      timeout ← duration_seconds parsers file "MODBUS" "TIMEOUT_SEC" (of_ratio 3 2)
      ok (record { port = port; timeout = timeout })

unfoldable pub read_mqtt : Parsers → IniFile → Result MqttConfig
read_mqtt parsers file =
    let ha_device_id = value file "MQTT" "HA_DEVICE_ID" (codes "growatt_spf5000es") in
    do
      port ← int_value parsers file "MQTT" "PORT" (pos 1883)
      tls_enabled ← bool_value parsers file "MQTT" "TLS_ENABLED" false
      keepalive ← duration_seconds parsers file "MQTT" "KEEPALIVE_SEC" (of_ratio 60 1)
      will_delay ← duration_seconds parsers file "MQTT" "WILL_DELAY_SEC" (of_ratio 300 1)
      operation_timeout ←
          duration_seconds parsers file "MQTT" "OPERATION_TIMEOUT_SEC" (of_ratio 10 1)
      disconnect_timeout ←
          duration_seconds parsers file "MQTT" "DISCONNECT_TIMEOUT_SEC" (of_ratio 5 1)
      ok (record {
        host = value file "MQTT" "HOST" (codes "localhost");
        port = port;
        username = optional_value file "MQTT" "USER";
        password = optional_value file "MQTT" "PASSWORD";
        tls_enabled = tls_enabled;
        tls_ca_file = optional_value file "MQTT" "TLS_CA_FILE";
        tls_cert_file = optional_value file "MQTT" "TLS_CERT_FILE";
        tls_key_file = optional_value file "MQTT" "TLS_KEY_FILE";
        tls_server_name = optional_value file "MQTT" "TLS_SERVER_NAME";
        client_id = value file "MQTT" "CLIENT_ID" ha_device_id;
        keepalive = keepalive;
        will_delay = will_delay;
        operation_timeout = operation_timeout;
        disconnect_timeout = disconnect_timeout;
        topic_prefix = normalize_topic (value file "MQTT" "TOPIC_PREFIX" ha_device_id) ha_device_id;
        ha_discovery_prefix =
            normalize_topic (value file "MQTT" "HA_DISCOVERY_PREFIX" (codes "homeassistant"))
              (codes "homeassistant");
        ha_device_id = ha_device_id;
        ha_device_name = value file "MQTT" "HA_DEVICE_NAME" (codes "Growatt SPF 5000 ES");
      })

unfoldable pub read_polling : Parsers → IniFile → Result PollingSettings
read_polling parsers file = do
  config_interval ← duration_seconds parsers file "POLLING" "CONFIG_INTERVAL_SEC" (of_ratio 600 1)
  status_interval ← duration_seconds parsers file "POLLING" "STATUS_INTERVAL_SEC" (of_ratio 2 1)
  ok (record { config_interval = config_interval; status_interval = status_interval })

unfoldable pub read_recovery : Parsers → IniFile → Result RecoverySettings
read_recovery parsers file = do
  reconnect_attempts ← int_value parsers file "RECOVERY" "RECONNECT_ATTEMPTS" (pos 3)
  initial_backoff ← duration_seconds parsers file "RECOVERY" "INITIAL_BACKOFF_SEC" (of_ratio 1 1)
  max_backoff ← duration_seconds parsers file "RECOVERY" "MAX_BACKOFF_SEC" (of_ratio 10 1)
  reset_cooldown ← duration_seconds parsers file "RECOVERY" "RESET_COOLDOWN_SEC" (of_ratio 300 1)
  ok (record {
    reconnect_attempts = reconnect_attempts;
    initial_backoff = initial_backoff;
    max_backoff = max_backoff;
    reset_cooldown = reset_cooldown;
  })

-- The log level is the zero value, Info, until the text of it is parsed.
unfoldable pub read_settings : Parsers → IniFile → Result AppConfig
read_settings parsers file = do
  modbus ← read_modbus parsers file
  mqtt ← read_mqtt parsers file
  polling ← read_polling parsers file
  recovery ← read_recovery parsers file
  ok (record {
    modbus = modbus;
    mqtt = mqtt;
    polling = polling;
    recovery = recovery;
    log_level = level_info;
  })

-- A whole number of milliseconds and of seconds.
abbrev pub millis : ℕ → ℤ
millis n = pos (n * 10 ^ 6)

abbrev pub seconds : ℕ → ℤ
seconds n = pos (n * 10 ^ 9)

abbrev pub outside : ℤ → ℤ → ℤ → Bool
outside low high x = ltb_ℤ x low || ltb_ℤ high x

abbrev given : Text → Bool
given text = not (eq_text text [])

-- The conditions under which a configuration is refused, in order.
unfoldable pub refusals : AppConfig → List (Bool × String)
refusals app =
    (ltb_ℤ app.modbus.timeout (millis 100), "MODBUS.TIMEOUT_SEC must be at least 0.1")
    ∷ (ltb_ℤ app.mqtt.keepalive (seconds 1), "MQTT.KEEPALIVE_SEC must be at least 1")
    ∷ (ltb_ℤ (seconds 65535) app.mqtt.keepalive, "MQTT.KEEPALIVE_SEC must not exceed 65535")
    ∷ (
      outside (seconds 1) (seconds (2 ^ 32 - 2)) app.mqtt.will_delay,
      "MQTT.WILL_DELAY_SEC must be between 1 and %d",
    )
    ∷ (
      ltb_ℤ app.mqtt.operation_timeout (millis 100),
      "MQTT.OPERATION_TIMEOUT_SEC must be at least 0.1",
    )
    ∷ (
      ltb_ℤ app.polling.config_interval (seconds 1),
      "POLLING.CONFIG_INTERVAL_SEC must be at least 1",
    )
    ∷ (
      ltb_ℤ app.polling.status_interval (seconds 1),
      "POLLING.STATUS_INTERVAL_SEC must be at least 1",
    )
    ∷ (
      outside (pos 1) (pos 20) app.recovery.reconnect_attempts,
      "RECOVERY.RECONNECT_ATTEMPTS must be between 1 and 20",
    )
    ∷ (
      ltb_ℤ app.recovery.max_backoff app.recovery.initial_backoff,
      "RECOVERY.MAX_BACKOFF_SEC must be at least RECOVERY.INITIAL_BACKOFF_SEC",
    )
    ∷ (outside (pos 1) (pos 65535) app.mqtt.port, "MQTT.PORT must be between 1 and 65535")
    ∷ (
      if given app.mqtt.tls_cert_file
          then not (given app.mqtt.tls_key_file)
          else given app.mqtt.tls_key_file,
      "MQTT.TLS_CERT_FILE and MQTT.TLS_KEY_FILE must be configured together",
    )
    ∷ (
      not app.mqtt.tls_enabled
          && (given app.mqtt.tls_ca_file
              || given app.mqtt.tls_cert_file
              || given app.mqtt.tls_server_name),
      "MQTT TLS files and server name require MQTT.TLS_ENABLED=true",
    )
    ∷ []

-- The first condition that holds.
unfoldable pub refuse_first : List (Bool × String) → Result (Unit {0})
refuse_first [] = ok tt
refuse_first ((holds, refusal) ∷ conditions) =
    let rest = refuse_first conditions in if holds then err (message refusal) else rest

-- The loop over the two topics; Go walks the map in any order.
unfoldable pub validate_topics : Bool → MqttConfig → Result (Unit {0})
validate_topics prefix_first mqtt =
    if prefix_first
    then (validate_mqtt_topic mqtt.topic_prefix >>= λ _.
        validate_mqtt_topic mqtt.ha_discovery_prefix)
    else (validate_mqtt_topic mqtt.ha_discovery_prefix >>= λ _.
        validate_mqtt_topic mqtt.topic_prefix)

-- The checks of identifiers and topics.
unfoldable pub validate_names : Bool → MqttConfig → Result (Unit {0})
validate_names prefix_first mqtt = validate_mqtt_identifier mqtt.client_id false >>= λ _.
    validate_mqtt_identifier mqtt.ha_device_id true >>= λ _. validate_topics prefix_first mqtt

-- The checks of what was read.
unfoldable pub validate_app : Bool → AppConfig → Result (Unit {0})
unfolding refusals refuse_first validate_topics validate_names
validate_app prefix_first app =
    refuse_first (refusals app) >>= λ _. validate_names prefix_first app.mqtt

unfoldable pub with_level : IniFile → AppConfig → Result AppConfig
with_level file app = parse_log_level (value file "LOGGING" "LEVEL" (codes "INFO")) >>= λ level.
    ok (record app { log_level = level })

unfoldable pub accept : Bool → IniFile → AppConfig → Result AppConfig
unfolding validate_app with_level
accept prefix_first file app = validate_app prefix_first app >>= λ _. with_level file app

-- What follows ini.Load.
unfoldable pub read_file : Parsers → Bool → IniFile → Result AppConfig
unfolding read_settings accept
read_file parsers prefix_first file = validate_config_schema file >>= λ _.
    validate_explicit_values file >>= λ _. read_settings parsers file >>= accept prefix_first file

-- readConfig, from what ini.Load gives.
unfoldable pub read_config : Parsers → Bool → Result IniFile → Result AppConfig
unfolding read_file
read_config parsers prefix_first loaded =
    map_err (wrap "read config %q: %w") loaded >>= read_file parsers prefix_first
