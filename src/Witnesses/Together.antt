-- ===== src/Witnesses/Together.antt =====
-- polling.go, recovery.go and inverter.go together on concrete data.
use spf5000es_server.Prelude.{ℕ, All, lookup, insert, ◌≡◌, refl, false, none, [], ◌∷◌, pos}
use spf5000es_server.Error.{ok, message, config_command, is_fatal_modbus}
use spf5000es_server.Exec.{pure}
use spf5000es_server.Value.{int64}
use spf5000es_server.Register.Holdings.{holding_registers}
use spf5000es_server.Register.Windows.{find_register}
use spf5000es_server.Inverter.Device.{Inverter, prepare_write}
use spf5000es_server.Recovery.{RecoveryConfig}
use spf5000es_server.Recovery.Calls.{Host, Recovering}
use spf5000es_server.Recovery.Calls.Refusals.{Refused, write, drain_commands-Refused}
use spf5000es_server.Polling.{
  ConfigWriteCommand, PollingService, drain_commands, take_latest, collect,
}
use spf5000es_server.Witnesses.{no_float, desk_client, desk_clock, desk_inverter}

abbrev host : Host (Inverter ℕ)
host = record {
  sleep = λ d w. (ok tt, w);
  now = λ w. w.world;
  request_reset = pure tt;
  ctx_done = λ w. false;
  availability_changed = λ available w. w;
}

abbrev recovery : RecoveryConfig
recovery = record {
  reconnect_attempts = 2;
  initial_backoff = pos 1;
  max_backoff = pos 5;
  reset_cooldown = 60;
}

-- A command for a key that no register has.
abbrev lost_command : ConfigWriteCommand
lost_command = record { key = "Nothing"; value = int64 (pos 1) }

abbrev asked : PollingService (Recovering (Inverter ℕ))
asked = record {
  commands = lost_command ∷ lost_command ∷ [];
  pending_writes = [];
  time_sync_requested = false;
  wake = false;
  polling_enabled = false;
  polling_version = 0;
  observed_version = 0;
  started = false;
  config_deadline = none;
  status_deadline = none;
  watchdog_deadline = none;
  time_sync_deadline = none;
  world = record { last_reset = none; has_sink = false; world = desk_inverter };
}

refused : All (Refused desk_client desk_clock no_float host recovery) (take_latest asked.commands)
unfolding take_latest collect lookup insert prepare_write find_register holding_registers
    is_fatal_modbus
refused = ((config_command (message "invalid key"), refl, refl), tt)

drain_commands-Refused_example :
    drain_commands (write desk_client desk_clock no_float host recovery) asked
    ≡ (ok false, record asked { commands = [] })
drain_commands-Refused_example =
    drain_commands-Refused desk_client desk_clock no_float host recovery asked refused
