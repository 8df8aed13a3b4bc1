-- ===== src/Config.antt =====
-- config.go: the configuration of the program.
pub mod Ini
pub mod Names
pub mod Read
pub mod Ranges
pub mod Recovers
pub mod Log
use spf5000es_server.Prelude.{ℕ, Bool, Text, ℤ, pos_part}
use spf5000es_server.Recovery.{RecoveryConfig}
use spf5000es_server.Polling.Run.{PollingConfig}

-- ModbusConfig; a time.Duration is a whole number of nanoseconds.
pub record ModbusConfig : Type 0 where
  pub port : Text
  pub timeout : ℤ

-- MQTTConfig
pub record MqttConfig : Type 0 where
  pub host : Text
  pub port : ℤ
  pub username : Text
  pub password : Text
  pub tls_enabled : Bool
  pub tls_ca_file : Text
  pub tls_cert_file : Text
  pub tls_key_file : Text
  pub tls_server_name : Text
  pub client_id : Text
  pub keepalive : ℤ
  pub will_delay : ℤ
  pub operation_timeout : ℤ
  pub disconnect_timeout : ℤ
  pub topic_prefix : Text
  pub ha_discovery_prefix : Text
  pub ha_device_id : Text
  pub ha_device_name : Text

-- PollingConfig and RecoveryConfig, as they are read.
pub record PollingSettings : Type 0 where
  pub config_interval : ℤ
  pub status_interval : ℤ

pub record RecoverySettings : Type 0 where
  pub reconnect_attempts : ℤ
  pub initial_backoff : ℤ
  pub max_backoff : ℤ
  pub reset_cooldown : ℤ

-- slog.Level, as far as parseLogLevel gives one.
pub data LogLevel : Type 0 where
  level_debug level_info level_warn level_error : LogLevel

-- AppConfig
pub record AppConfig : Type 0 where
  pub modbus : ModbusConfig
  pub mqtt : MqttConfig
  pub polling : PollingSettings
  pub recovery : RecoverySettings
  pub log_level : LogLevel

-- The same as their users take them: a wait of less than nothing is over at once, and a loop of less
-- than no attempts makes none.
abbrev pub polling_config : PollingSettings → PollingConfig
polling_config s = record {
  config_interval = pos_part s.config_interval;
  status_interval = pos_part s.status_interval;
}

abbrev pub recovery_config : RecoverySettings → RecoveryConfig
recovery_config s = record {
  reconnect_attempts = pos_part s.reconnect_attempts;
  initial_backoff = s.initial_backoff;
  max_backoff = s.max_backoff;
  reset_cooldown = pos_part s.reset_cooldown;
}
