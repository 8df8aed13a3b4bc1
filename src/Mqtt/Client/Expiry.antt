-- ===== src/Mqtt/Client/Expiry.antt =====
-- config.go, mqtt.go: the options of the client under an accepted configuration.
use spf5000es_server.Prelude.{◌/◌, ◌^◌, ◌<◌, ◌≤◌, ◌≡◌, Bool, pos_part, arith}
use spf5000es_server.Error.{Result, ok}
use spf5000es_server.Config.{AppConfig}
use spf5000es_server.Config.Ini.{IniFile, Parsers}
use spf5000es_server.Config.Read.{read_config}
use spf5000es_server.Config.Ranges.{read_config-InRange}
use spf5000es_server.Mqtt.Client.{connect_options}

-- For a configuration that readConfig accepts, the keep-alive of the client is at least a second,
-- it and the will delay are the whole seconds of the configured durations, not cut to their width,
-- and the session expires later than the will delay.
pub read_config-connect_options :
    (parsers : Parsers) (prefix_first : Bool) (loaded : Result IniFile) (app : AppConfig)
    → read_config parsers prefix_first loaded ≡ ok app
    → (1 ≤ (connect_options app.mqtt).keep_alive)
      × ((connect_options app.mqtt).keep_alive ≡ pos_part app.mqtt.keepalive / 10 ^ 9)
      × ((connect_options app.mqtt).will_delay_interval ≡ pos_part app.mqtt.will_delay / 10 ^ 9)
      × ((connect_options app.mqtt).will_delay_interval
          < (connect_options app.mqtt).session_expiry_interval)
unfolding connect_options
read_config-connect_options parsers prefix_first loaded app accepted =
    let (_, keepalive, will_delay, _, _, _, _, _, _) =
      read_config-InRange parsers prefix_first loaded app accepted in
    (
      ground (arith, keepalive),
      ground (arith, keepalive),
      ground (arith, will_delay),
      ground (arith, will_delay),
    )
