-- ===== src/Witnesses/Polls.antt =====
-- polling.go on concrete data.
use spf5000es_server.Prelude.{
  ℕ, ◌≡◌, refl, true, false, none, some, List, [], ◌∷◌, map, arith, String, pos, lookup, insert,
}
use spf5000es_server.Error.{Error, err, message, fatal_modbus, wrap, is_config_command}
use spf5000es_server.Exec.{Exec, Gives, raise, pure}
use spf5000es_server.Value.{Value, int64}
use spf5000es_server.Polling.{
  ConfigWriteCommand, PollingService, drain_commands, drain_batch, drain_command, take_latest,
  collect, or_zero,
}
use spf5000es_server.Polling.Run.{PollingConfig, PollingWorld, run_pending, start}
use spf5000es_server.Polling.Run.Settled.{Settled, run_pending-Settled}
use spf5000es_server.Polling.Run.Stages.{Advances}
use spf5000es_server.Polling.Service.{write, switch, sync, new_polling_service, answers, run}
use spf5000es_server.Polling.Service.Lasting.{Lasting}
use spf5000es_server.Polling.Service.Lasting.Rounds.{run-Lasting}
use spf5000es_server.Polling.Run.Disabled.{with_reads, run_pending-same}
use spf5000es_server.Polling.Batch.{first_keys, last_command, take_latest-last_command}
use spf5000es_server.Polling.Queue.{drain_commands-errors}

abbrev set_to : String → ℕ → ConfigWriteCommand
set_to key n = record { key = key; value = int64 (pos n) }

abbrev three_commands : List ConfigWriteCommand
three_commands = set_to "a" 1 ∷ set_to "b" 2 ∷ set_to "a" 3 ∷ []

abbrev pub service : PollingService ℕ
service = record {
  commands = three_commands;
  pending_writes = [];
  time_sync_requested = false;
  wake = false;
  polling_enabled = true;
  polling_version = 0;
  observed_version = 0;
  started = true;
  config_deadline = some 0;
  status_deadline = some 0;
  watchdog_deadline = some 100;
  time_sync_deadline = some 100;
  world = 0;
}

take_latest-last_command_example :
    take_latest three_commands
    ≡ map (λ key. or_zero (last_command key none three_commands)) (first_keys three_commands)
take_latest-last_command_example = take_latest-last_command three_commands

abbrev no_answer : String → Value → Exec ℕ Value
no_answer key value = raise (fatal_modbus (message "timeout"))

abbrev no_write : Error
no_write = wrap "inverter task config_write" (fatal_modbus (message "timeout"))

not_drained : (drain_commands no_answer service).0 ≡ err no_write
unfolding drain_commands take_latest collect drain_batch drain_command lookup insert
    is_config_command
not_drained = refl

drain_commands-errors_example : is_config_command no_write ≡ false
drain_commands-errors_example = drain_commands-errors no_answer service no_write not_drained

abbrev idle_service : PollingService ℕ
idle_service = record service { polling_enabled = false }

abbrev config_only : PollingConfig
config_only = record { config_interval = 600; status_interval = 5 }

abbrev quiet_world : PollingWorld ℕ
quiet_world = record {
  read_status = pure [];
  read_config = pure [];
  write_config = no_answer;
  sync_time = pure tt;
  status_updated = λ status w. w;
  config_updated = λ read w. w;
  now = λ w. w;
  check = λ w. (false, w);
  wait = λ deadline now woken. pure woken;
}

run_pending-same_example :
    run_pending (with_reads quiet_world (raise no_write) (raise no_write)) config_only idle_service
    ≡ run_pending quiet_world config_only idle_service
run_pending-same_example =
    run_pending-same quiet_world config_only (raise no_write) (raise no_write) idle_service refl

steady : Advances quiet_world
steady = record {
  read_status = λ w. omega arith;
  read_config = λ w. omega arith;
  write_config = λ key value w. omega arith;
  sync_time = λ w. omega arith;
  status_updated = λ status w. omega arith;
  config_updated = λ read w. omega arith;
  check = λ w. omega arith;
}

-- Both reads and a time sync are due.
abbrev busy_service : PollingService ℕ
busy_service = record service { commands = []; time_sync_requested = true }

run_pending-Settled_example :
    Gives (λ _ s'. Settled 0 s') (run_pending quiet_world config_only busy_service)
run_pending-Settled_example =
    run_pending-Settled quiet_world config_only steady busy_service (omega arith) (omega arith)

run-Lasting_example :
    Lasting
      (run quiet_world config_only
        (λ w. none)
        ((write "a" (int64 (pos 1)) ∷ switch true ∷ []) ∷ (sync ∷ []) ∷ [])
        (start quiet_world.now (answers (switch true ∷ []) (new_polling_service 5)))).1
run-Lasting_example =
    run-Lasting quiet_world config_only (λ w. none) 5 (switch true ∷ [])
      ((write "a" (int64 (pos 1)) ∷ switch true ∷ []) ∷ (sync ∷ []) ∷ [])
