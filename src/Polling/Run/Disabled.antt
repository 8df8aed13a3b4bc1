-- ===== src/Polling/Run/Disabled.antt =====
-- polling.go: runPending while polling is disabled.
use mathlib.Core.Path.{fun_ext}
use spf5000es_server.Prelude.{ℕ, ◌≡◌, refl, true, false, Bool-cases, inl, inr}
use spf5000es_server.Exec.{Exec}
use spf5000es_server.Value.{Config}
use spf5000es_server.Polling.{PollingService}
use spf5000es_server.Polling.Run.{
  PollingConfig, PollingWorld, Due, due_at, observe, any_due, run_commands, run_config,
  run_watchdog, run_time_sync, run_status, run_due, run_pending, idle,
}

-- The same surroundings, with other reads of the tables.
abbrev pub with_reads :
    {W : Type 0} → PollingWorld W → Exec W Config → Exec W Config → PollingWorld W
with_reads env status config = record env { read_status = status; read_config = config }

due_disabled :
    {W : Type 0} (now : ℕ) (s : PollingService W)
    → s.polling_enabled ≡ false
    → ((due_at now s).config ≡ false) × ((due_at now s).status ≡ false)
unfolding due_at
due_disabled now s off = rw off (refl, refl)

module _ {W : Type 0} (env : PollingWorld W) (config : PollingConfig)
    (status_read config_read : Exec W Config) where
  abbrev other : PollingWorld W
  other = with_reads env status_read config_read

  same_commands : run_commands other config ≡ run_commands env config
  unfolding run_commands
  same_commands = fun_ext λ b. elim b [ false ↦ refl | true ↦ refl ]

  same_watchdog : run_watchdog other config ≡ run_watchdog env config
  unfolding run_watchdog
  same_watchdog = fun_ext λ b. elim b [ false ↦ refl | true ↦ refl ]

  same_time_sync : run_time_sync other config ≡ run_time_sync env config
  unfolding run_time_sync
  same_time_sync = fun_ext λ b. elim b [ false ↦ refl | true ↦ refl ]

  run_due-same :
      (due : Due) (s : PollingService W)
      → due.config ≡ false
      → due.status ≡ false
      → run_due (with_reads env status_read config_read) config due s ≡ run_due env config due s
  unfolding run_due run_commands run_config run_watchdog run_time_sync run_status
  run_due-same due s no_config no_status =
      rw (no_config, no_status, run_due, same_commands, same_watchdog, same_time_sync) refl

  -- A step of a service whose polling is disabled is the same whatever reading the status or the
  -- config of the inverter would do: it reads neither.
  pub run_pending-same :
      (s : PollingService W)
      → s.polling_enabled ≡ false
      → run_pending (with_reads env status_read config_read) config s ≡ run_pending env config s
  unfolding run_pending idle
  run_pending-same s off =
      let (no_config, no_status) = due_disabled (env.now s.world) s off in
      elim (Bool-cases (any_due (due_at (env.now s.world) s))) [
        | inl work ↦
            rw work (run_due-same (due_at (env.now s.world) s) (observe s) no_config no_status)
        | inr nothing ↦ rw nothing refl
      ]
