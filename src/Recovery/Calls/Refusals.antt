-- ===== src/Recovery/Calls/Refusals.antt =====
-- polling.go, recovery.go and inverter.go together: commands that the inverter's checks refuse.
use spf5000es_server.Prelude.{
  ◌≡◌, refl, ap, ◌∙◌, Bool, false, Option, List, [], ◌∷◌, All, String, lookup, Bool-cases, inl, inr,
  if_true, if_false,
}
use spf5000es_server.Error.{Error, Result, ok, err, is_fatal_modbus}
use spf5000es_server.Exec.{Exec}
use spf5000es_server.Value.{Value, nil, ParseFloat}
use spf5000es_server.Modbus.{Client}
use spf5000es_server.Inverter.Device.{Inverter, Clock, prepare_write}
use spf5000es_server.Inverter.Device
use spf5000es_server.Inverter.Device.Commands.{write_config-refused}
use spf5000es_server.Recovery.{
  RecoveryConfig, operated, Surroundings, RecoveringInverter, execute_with_recovery,
}
use spf5000es_server.Recovery.Calls.{
  InverterConnection, Host, Recovering, result_or, call, replay, surroundings, write_config,
}
use spf5000es_server.Recovery.Calls.Wiring.{inverter_connection}
use spf5000es_server.Polling.{
  ConfigWriteCommand, PollingService, take_latest, is_pending, note_written, drain_command,
  drain_batch, drain_commands,
}

execute_with_recovery-passes :
    {A : Type 0} (env : Surroundings A) (config : RecoveryConfig) (i : RecoveringInverter)
    (e : Error)
    → env.operation i.history ≡ err e
    → is_fatal_modbus e ≡ false
    → execute_with_recovery env config i ≡ (err e, record i { history = operated ∷ i.history })
unfolding execute_with_recovery
execute_with_recovery-passes env config i e fails mild =
    rw (fails, execute_with_recovery) (rw (mild, execute_with_recovery) refl)

-- An operation that fails with an error that is not Modbus', and changes nothing.
call-passes :
    {W A : Type 0} (inverter : InverterConnection W) (host : Host W) (config : RecoveryConfig)
    (zero : A) (operation : Exec W A) (r : Recovering W) (e : Error)
    → operation r.world ≡ (err e, r.world)
    → is_fatal_modbus e ≡ false
    → call inverter host config zero operation r ≡ (err e, r)
unfolding call surroundings replay
call-passes inverter host config zero operation r e fails mild =
    let begun : RecoveringInverter = record {
      last_reset = r.last_reset;
      has_sink = r.has_sink;
      history = [];
    } in
    ap
      (λ (p : Result (Option _) × RecoveringInverter). (
        result_or inverter host config zero p.0,
        record {
          last_reset = p.1.last_reset;
          has_sink = p.1.has_sink;
          world = replay inverter host operation r.world p.1.history;
        },
      ))
      (execute_with_recovery-passes (surroundings inverter host operation r.world) config begun e
        (ap (λ (p : Result _ × _). p.0) fails) mild)
    ∙ ap (λ (p : Result _ × _). (err e, record r { world = p.1 })) fails

module _ {W : Type 0} (client : Client W) (clock : Clock W) (parse_float : ParseFloat)
    (host : Host (Inverter W)) (config : RecoveryConfig) where
  -- A command that the inverter's checks refuse, with an error that is not Modbus'.
  abbrev pub Refused : ConfigWriteCommand → Type 0
  Refused c =
      (e : Error) × (prepare_write parse_float c.key c.value ≡ err e) × (is_fatal_modbus e ≡ false)

  abbrev pub write : String → Value → Exec (Recovering (Inverter W)) Value
  write = write_config (inverter_connection client clock parse_float) host config

  write-refused :
      (c : ConfigWriteCommand) (r : Recovering (Inverter W)) (e : Error)
      → prepare_write parse_float c.key c.value ≡ err e
      → is_fatal_modbus e ≡ false
      → write c.key c.value r ≡ (err e, r)
  unfolding write_config
  write-refused c r e refused mild =
      call-passes (inverter_connection client clock parse_float) host config nil
        (Device.write_config client clock parse_float c.key c.value) r e
        (write_config-refused client clock parse_float c.key c.value e r.world refused).0 mild

  drain_command-Refused :
      (c : ConfigWriteCommand) (wrote : Bool) (s : PollingService (Recovering (Inverter W)))
      → Refused c
      → drain_command write c wrote s ≡ (ok wrote, s)
  unfolding drain_command
  drain_command-Refused c wrote s (e, refused, mild) =
      elim (Bool-cases (is_pending (lookup c.key s.pending_writes) c.value)) [
        | inl known ↦ if_true _ _ known
        | inr new ↦
            if_false _ _ new
            ∙ ap
                (λ (p : Result Value × Recovering (Inverter W)).
                  note_written write c wrote p.0 (record s { world = p.1 }))
                (write-refused c s.world e refused mild)
            ∙ if_true _ _
                (write_config-refused client clock parse_float c.key c.value e s.world.world
                  refused).1
      ]

  drain_batch-Refused :
      (commands : List ConfigWriteCommand) (wrote : Bool)
      (s : PollingService (Recovering (Inverter W)))
      → All Refused commands
      → drain_batch write commands wrote s ≡ (ok wrote, s)
  unfolding drain_batch
  drain_batch-Refused [] wrote s h = refl
  drain_batch-Refused (c ∷ commands) wrote s (h, hs) =
      ap
        (λ (p : Result Bool × PollingService (Recovering (Inverter W))).
          elim p.0 as (λ _. Result Bool × PollingService (Recovering (Inverter W))) [
            | ok wrote' ↦ drain_batch write commands wrote' p.1
            | err e ↦ (err e, p.1)
          ])
        (drain_command-Refused c wrote s h)
      ∙ drain_batch-Refused commands wrote s hs

  -- Where the inverter's checks refuse the last command of every key in the queue, with errors
  -- that are not Modbus', drainCommands over the inverter behind recovery writes nothing and ends
  -- without an error: it empties the queue and leaves all else as it was, the line and what
  -- recovery keeps included.
  pub drain_commands-Refused :
      (s : PollingService (Recovering (Inverter W)))
      → All Refused (take_latest s.commands)
      → drain_commands write s ≡ (ok false, record s { commands = [] })
  unfolding drain_commands
  drain_commands-Refused s h =
      drain_batch-Refused (take_latest s.commands) false (record s { commands = [] }) h
