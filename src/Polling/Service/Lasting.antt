-- ===== src/Polling/Service/Lasting.antt =====
-- polling.go: what stays true of the polling service, whatever is asked of it between its steps.
pub mod Rounds
use spf5000es_server.Prelude.{
  ℕ, ◌+◌, ◌^◌, ◌<◌, ◌≤◌, ◌≡◌, refl, Bool, true, false, not, ◌&&◌, ◌||◌, Option, none, some, List,
  [], ◌∷◌, String, length, ltb, arith, inl, inr, Bool-cases, lookup,
}
use spf5000es_server.Error.{Error, Result, ok, err, is_config_command}
use spf5000es_server.Exec.{Exec, continue}
use spf5000es_server.Value.{Value}
use spf5000es_server.Register.Limits.{is_some}
use spf5000es_server.Polling.{
  ConfigWriteCommand, PollingService, poll_command_queue_size, queue_config_write,
  set_polling_enabled, request_time_sync, drain_commands, drain_batch, drain_command, note_written,
  is_pending, take_latest,
}
use spf5000es_server.Polling.Queue.{queue_config_write-bounded}
use spf5000es_server.Polling.Run.{
  PollingConfig, PollingWorld, start, due_at, any_due, observe, on_world, tell, run_commands,
  run_config, run_watchdog, run_time_sync, run_status, run_due, idle, run_pending, poll_status,
  poll_config, Due, note_readback, config_readback_delay, named, then_always,
}
use spf5000es_server.Polling.Service.{
  Request, write, switch, sync, Running, returned, new_polling_service, answer, answers, run_loop,
  run,
}

-- Every deadline is set.
abbrev pub has_deadlines : {W : Type 0} → PollingService W → Bool
has_deadlines s =
    is_some s.config_deadline
    && is_some s.status_deadline
    && is_some s.watchdog_deadline
    && is_some s.time_sync_deadline

-- The channel holds what it has room for, the version is a uint64 of the switch's, and the deadlines
-- of a started service are set.
abbrev pub Lasting : {W : Type 0} → PollingService W → Type 0
Lasting s =
    (length s.commands ≤ poll_command_queue_size)
    × (s.polling_version < 2 ^ 64)
    × (s.observed_version < 2 ^ 64)
    × ((not s.started || has_deadlines s) ≡ true)

queue_config_write-Lasting :
    {W : Type 0} (key : String) (value : Value) (s : PollingService W)
    → Lasting s
    → Lasting (queue_config_write key value s).1
unfolding queue_config_write
queue_config_write-Lasting key value s (room, version, observed, set) =
    let bounded = (queue_config_write-bounded key value s room).0 in
    elim (Bool-cases (ltb (length s.commands) poll_command_queue_size)) [
      | inl free ↦ rw free (rw (free, queue_config_write) at bounded, version, observed, set)
      | inr full ↦ rw full (room, version, observed, set)
    ]

answer-Lasting :
    {W : Type 0} (request : Request) (s : PollingService W) → Lasting s → Lasting (answer request s)
unfolding answer set_polling_enabled request_time_sync
answer-Lasting (write key value) s h = queue_config_write-Lasting key value s h
answer-Lasting (switch enabled) s (room, version, observed, set) =
    (room, ground arith, observed, set)
answer-Lasting sync s h = h

answers-Lasting :
    {W : Type 0} (requests : List Request) (s : PollingService W)
    → Lasting s
    → Lasting (answers requests s)
unfolding answers
answers-Lasting [] s h = h
answers-Lasting (request ∷ requests) s h =
    answers-Lasting requests (answer request s) (answer-Lasting request s h)

continue-Lasting :
    {W A B : Type 0} (p : Result A × PollingService W) (f : A → Exec (PollingService W) B)
    → Lasting p.1
    → ((a : A) (s : PollingService W) → Lasting s → Lasting (f a s).1)
    → Lasting (continue p.0 f p.1).1
continue-Lasting (ok a, s) f h next = next a s h
continue-Lasting (err e, s) f h next = h

module _ {W : Type 0} (env : PollingWorld W) (config : PollingConfig) where
  note_written-Lasting :
      (command : ConfigWriteCommand) (wrote : Bool) (r : Result Value) (s : PollingService W)
      → Lasting s
      → Lasting (note_written env.write_config command wrote r s).1
  note_written-Lasting command wrote (ok value) s h = h
  note_written-Lasting command wrote (err e) s h = elim (Bool-cases (is_config_command e)) [
    | inl refused ↦ rw refused h
    | inr failed ↦ rw failed h
  ]

  drain_command-Lasting :
      (command : ConfigWriteCommand) (wrote : Bool) (s : PollingService W)
      → Lasting s
      → Lasting (drain_command env.write_config command wrote s).1
  unfolding drain_command
  drain_command-Lasting command wrote s h =
      elim (Bool-cases (is_pending (lookup command.key s.pending_writes) command.value)) [
        | inl waits ↦ rw waits h
        | inr new ↦
            let (r, w) = env.write_config command.key command.value s.world in
            rw new (note_written-Lasting command wrote r (record s { world = w }) h)
      ]

  next-Lasting :
      (commands : List ConfigWriteCommand) (p : Result Bool × PollingService W)
      → Lasting p.1
      → ((wrote : Bool) (s : PollingService W)
          → Lasting s
          → Lasting (drain_batch env.write_config commands wrote s).1)
      → Lasting
          (elim p.0 as (λ _. Result Bool × PollingService W) [
            | ok wrote ↦ drain_batch env.write_config commands wrote p.1
            | err e ↦ (err e, p.1)
          ]).1
  next-Lasting commands (ok wrote, s) h next = next wrote s h
  next-Lasting commands (err e, s) h next = h

  drain_batch-Lasting :
      (commands : List ConfigWriteCommand) (wrote : Bool) (s : PollingService W)
      → Lasting s
      → Lasting (drain_batch env.write_config commands wrote s).1
  unfolding drain_batch drain_command
  drain_batch-Lasting [] wrote s h = h
  drain_batch-Lasting (command ∷ commands) wrote s h =
      next-Lasting commands (drain_command env.write_config command wrote s)
        (drain_command-Lasting command wrote s h) (drain_batch-Lasting commands)

  config_set :
      (d : ℕ) (s : PollingService W) → Lasting s → Lasting (record s { config_deadline = some d })
  config_set d s (room, version, observed, set) = (room, version, observed, ground arith)

  note_readback-Lasting :
      (wrote : Bool) (s : PollingService W)
      → Lasting s
      → Lasting (note_readback env config wrote s).1
  note_readback-Lasting false s h = h
  note_readback-Lasting true s h = config_set (env.now s.world + config_readback_delay) s h

  run_commands-Lasting :
      (b : Bool) (s : PollingService W) → Lasting s → Lasting (run_commands env config b s).1
  unfolding run_commands drain_commands
  run_commands-Lasting false s h = h
  run_commands-Lasting true s (room, version, observed, set) =
      continue-Lasting (drain_commands env.write_config s) _
        (drain_batch-Lasting (take_latest s.commands) false (record s { commands = [] })
          (omega arith, version, observed, set))
        note_readback-Lasting

  run_config-Lasting :
      (b : Bool) (s : PollingService W) → Lasting s → Lasting (run_config env config b s).1
  unfolding run_config poll_config
  run_config-Lasting false s h = h
  run_config-Lasting true s h =
      continue-Lasting
        (named env config "inverter task config_poll"
          (then_always (poll_config env config) (λ s'. record s' { pending_writes = [] })) s)
        _
        (continue-Lasting (on_world env.read_config s) (λ found. tell (env.config_updated found)) h
          (λ _ _ h'. h'))
        (λ _ s' h'. config_set (env.now s'.world + config.config_interval) s' h')

  run_watchdog-Lasting :
      (b : Bool) (s : PollingService W) → Lasting s → Lasting (run_watchdog env config b s).1
  unfolding run_watchdog request_time_sync
  run_watchdog-Lasting false s h = h
  run_watchdog-Lasting true s (room, version, observed, set) =
      elim (Bool-cases (env.check s.world).0) [
        | inl changed ↦ rw changed (room, version, observed, ground arith)
        | inr same ↦ rw same (room, version, observed, ground arith)
      ]

  run_time_sync-Lasting :
      (b : Bool) (s : PollingService W) → Lasting s → Lasting (run_time_sync env config b s).1
  unfolding run_time_sync
  run_time_sync-Lasting false s h = h
  run_time_sync-Lasting true s (room, version, observed, set) =
      (room, version, observed, ground arith)

  run_status-Lasting :
      (b : Bool) (s : PollingService W) → Lasting s → Lasting (run_status env config b s).1
  unfolding run_status poll_status
  run_status-Lasting false s h = h
  run_status-Lasting true s h =
      let (room, version, observed, set) =
        continue-Lasting (on_world env.read_status s) (λ found. tell (env.status_updated found)) h
          (λ _ _ h'. h') in
      (room, version, observed, ground arith)
