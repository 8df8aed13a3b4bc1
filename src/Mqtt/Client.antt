-- ===== src/Mqtt/Client.antt =====
-- mqtt.go: what NewMQTTService gives the client library of the configuration's durations, each in
-- whole seconds of a fixed width.
pub mod Expiry
pub mod Starting
pub mod Subscribing
use spf5000es_server.Prelude.{ℕ, ◌+◌, ◌*◌, ◌/◌, ◌%◌, ◌^◌, ltb, if◌then◌else◌, ℤ, pos_part}
use spf5000es_server.Config.{MqttConfig}

-- Of the last will, the keep-alive and the session, in the options of the client.
pub record ConnectOptions : Type 0 where
  pub keep_alive : ℕ
  pub session_expiry_interval : ℕ
  pub will_delay_interval : ℕ

-- uint16(d / time.Second) and uint32(d / time.Second), for a duration that is not negative.
abbrev pub whole_seconds : ℕ → ℤ → ℕ
whole_seconds width d = pos_part d / 10 ^ 9 % 2 ^ width

abbrev longer : ℕ → ℕ → ℕ
longer a b = if ltb a b then b else a

unfoldable pub connect_options : MqttConfig → ConnectOptions
connect_options config =
    let will_delay = whole_seconds 32 config.will_delay in
    record {
      keep_alive = whole_seconds 16 config.keepalive;
      session_expiry_interval = longer 60 ((will_delay + 1) % 2 ^ 32);
      will_delay_interval = will_delay;
    }
