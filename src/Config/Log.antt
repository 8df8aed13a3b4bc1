-- ===== src/Config/Log.antt =====
-- config.go: the settings that logConfig writes to the log.
pub mod Secrecy
use spf5000es_server.Prelude.{Bool, List, [], ◌∷◌, Text, codes, eq_text, String, ℤ, if◌then◌else◌}
use spf5000es_server.Config.{AppConfig, LogLevel, level_debug, level_info, level_warn, level_error}

-- A value of a setting; `seconds` is what Seconds gives for a duration.
pub data Shown : Type 0 where
  text : Text → Shown
  number : ℤ → Shown
  flag : Bool → Shown
  seconds : ℤ → Shown

-- Level.String
abbrev pub level_text : LogLevel → Text
level_text level_debug = codes "DEBUG"
level_text level_info = codes "INFO"
level_text level_warn = codes "WARN"
level_text level_error = codes "ERROR"

-- Of a password, whether there is one.
abbrev pub configured : Text → Text
configured password = if eq_text password [] then codes "not configured" else codes "configured"

-- logConfig
unfoldable pub log_config : AppConfig → List (String × Shown)
log_config c =
    ("MODBUS.PORT", text c.modbus.port)
    ∷ ("MODBUS.TIMEOUT_SEC", seconds c.modbus.timeout)
    ∷ ("MQTT.HOST", text c.mqtt.host)
    ∷ ("MQTT.PORT", number c.mqtt.port)
    ∷ ("MQTT.USER", text c.mqtt.username)
    ∷ ("MQTT.PASSWORD", text (configured c.mqtt.password))
    ∷ ("MQTT.TLS_ENABLED", flag c.mqtt.tls_enabled)
    ∷ ("MQTT.TLS_CA_FILE", text c.mqtt.tls_ca_file)
    ∷ ("MQTT.TLS_CERT_FILE", text c.mqtt.tls_cert_file)
    ∷ ("MQTT.TLS_KEY_FILE", text c.mqtt.tls_key_file)
    ∷ ("MQTT.TLS_SERVER_NAME", text c.mqtt.tls_server_name)
    ∷ ("MQTT.CLIENT_ID", text c.mqtt.client_id)
    ∷ ("MQTT.KEEPALIVE_SEC", seconds c.mqtt.keepalive)
    ∷ ("MQTT.WILL_DELAY_SEC", seconds c.mqtt.will_delay)
    ∷ ("MQTT.OPERATION_TIMEOUT_SEC", seconds c.mqtt.operation_timeout)
    ∷ ("MQTT.DISCONNECT_TIMEOUT_SEC", seconds c.mqtt.disconnect_timeout)
    ∷ ("MQTT.TOPIC_PREFIX", text c.mqtt.topic_prefix)
    ∷ ("MQTT.HA_DISCOVERY_PREFIX", text c.mqtt.ha_discovery_prefix)
    ∷ ("MQTT.HA_DEVICE_ID", text c.mqtt.ha_device_id)
    ∷ ("MQTT.HA_DEVICE_NAME", text c.mqtt.ha_device_name)
    ∷ ("POLLING.CONFIG_INTERVAL_SEC", seconds c.polling.config_interval)
    ∷ ("POLLING.STATUS_INTERVAL_SEC", seconds c.polling.status_interval)
    ∷ ("RECOVERY.RECONNECT_ATTEMPTS", number c.recovery.reconnect_attempts)
    ∷ ("RECOVERY.INITIAL_BACKOFF_SEC", seconds c.recovery.initial_backoff)
    ∷ ("RECOVERY.MAX_BACKOFF_SEC", seconds c.recovery.max_backoff)
    ∷ ("RECOVERY.RESET_COOLDOWN_SEC", seconds c.recovery.reset_cooldown)
    ∷ ("LOGGING.LEVEL", text (level_text c.log_level))
    ∷ []
