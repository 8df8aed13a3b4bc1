-- ===== src/Recovery/Calls/Wiring.antt =====
-- main.go: the inverter behind recovery, as the inverter of the polling service. inverter.go: Connect
-- and Close.
use spf5000es_server.Prelude.{ℕ, Bool, Option}
use spf5000es_server.Exec.{Exec}
use spf5000es_server.Value.{Config, ParseFloat}
use spf5000es_server.Modbus.{Client}
use spf5000es_server.Inverter.Device.{Inverter, Clock, on_client}
use spf5000es_server.Inverter.Device
use spf5000es_server.Recovery.{RecoveryConfig}
use spf5000es_server.Recovery.Calls.{InverterConnection, Host, Recovering}
use spf5000es_server.Recovery.Calls
use spf5000es_server.Polling.Run.{PollingWorld}

-- Inverter as an inverterConnection
abbrev pub inverter_connection :
    {W : Type 0} → Client W → Clock W → ParseFloat → InverterConnection (Inverter W)
inverter_connection client clock parse_float = record {
  connect = on_client client.connect;
  close = on_client client.close;
  read_status = Device.read_status client clock parse_float;
  read_config = Device.read_config client clock parse_float;
  write_config = Device.write_config client clock parse_float;
  sync_time = Device.sync_time client clock parse_float;
}

-- What of the polling service's surroundings is not its inverter.
pub record PollingHost (W : Type 0) : Type 0 where
  pub status_updated : Config → W → W
  pub config_updated : Config → W → W
  pub now : W → ℕ
  pub check : W → Bool × W
  pub wait : Option ℕ → ℕ → Bool → Exec W Bool

-- RecoveringInverter as an inverterDataSource
abbrev pub polling_world :
    {W : Type 0}
    → InverterConnection W
    → Host W
    → RecoveryConfig
    → PollingHost (Recovering W)
    → PollingWorld (Recovering W)
polling_world inverter host config polling = record {
  read_status = Calls.read_status inverter host config;
  read_config = Calls.read_config inverter host config;
  write_config = Calls.write_config inverter host config;
  sync_time = Calls.sync_time inverter host config;
  status_updated = polling.status_updated;
  config_updated = polling.config_updated;
  now = polling.now;
  check = polling.check;
  wait = polling.wait;
}
