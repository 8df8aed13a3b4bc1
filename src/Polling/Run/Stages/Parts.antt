-- ===== src/Polling/Run/Stages/Parts.antt =====
-- polling.go: what each part of runPending does to what is due.
use spf5000es_server.Prelude.{
  ℕ, ◌+◌, ◌<◌, ◌≡◌, refl, ap, ◌∙◌, Bool, true, false, ◌&&◌, ◌||◌, some, [], arith, inl, inr,
  Bool-cases,
}
use spf5000es_server.Exec.{Gives, Gives-bind, Gives-any}
use spf5000es_server.Watchdog.{clock_watchdog_interval}
use spf5000es_server.Polling.{PollingService, drain_commands, request_time_sync}
use spf5000es_server.Polling.Run.{
  PollingConfig, PollingWorld, due_at, reached, then_always, named, poll_status, poll_config,
  note_readback, run_commands, run_config, run_watchdog, run_time_sync, run_status,
  config_readback_delay, change, sync_time_interval, task_result,
}
use spf5000es_server.Polling.Run.Stages.{
  View, Advances, without_commands, without_config, after_check, without_time_sync, without_status,
  view, not_reached, off_both, off_right, on_right, At, At-world, At-drain_commands, At-polled,
  Gives-ended,
}

module _ {W : Type 0} (env : PollingWorld W) (config : PollingConfig) (t : ℕ)
    (advances : Advances env) where
  abbrev Now : View → PollingService W → Type 0
  Now = At env config t advances

  -- A deadline after the time is not reached, and sets its flag off.
  config_set :
      (v : View) (s : PollingService W) (later : ℕ)
      → 0 < later
      → Now v s
      → Now (without_config true v) (record s { config_deadline = some (env.now s.world + later) })
  unfolding view due_at
  config_set v s later pos (clock, fresh, seen) =
      let off =
        off_both (s.polling_enabled && s.started) _ _
          (not_reached (env.now s.world) later t clock pos) fresh in
      (
        clock,
        fresh,
        ap (λ b. (record (due_at t s) { config = b }, s.time_sync_requested)) off
            ∙ ap (without_config true) seen,
      )

  status_set :
      (v : View) (s : PollingService W)
      → 0 < config.status_interval
      → Now v s
      → Now
          (without_status true v)
          (record s { status_deadline = some (env.now s.world + config.status_interval) })
  unfolding view due_at
  status_set v s pos (clock, fresh, seen) =
      let off =
        off_both (s.polling_enabled && s.started) _ _
          (not_reached (env.now s.world) config.status_interval t clock pos) fresh in
      (
        clock,
        fresh,
        ap (λ b. (record (due_at t s) { status = b }, s.time_sync_requested)) off
            ∙ ap (without_status true) seen,
      )

  note_readback-At :
      (v : View) (wrote : Bool) (s : PollingService W)
      → Now v s
      → Gives (λ wrote s'. Now (without_config wrote v) s') (note_readback env config wrote s)
  note_readback-At v false s h = h
  note_readback-At v true s h = config_set v s config_readback_delay (omega arith) h

  pub run_commands-At :
      (b : Bool) (v : View) (s : PollingService W)
      → v.0.commands ≡ b
      → Now v s
      → Gives
          (λ wrote s'. Now (without_config wrote (without_commands v)) s')
          (run_commands env config b s)
  unfolding run_commands
  run_commands-At false v s none_left (clock, fresh, seen) =
      (clock, fresh, seen ∙ ap (λ b. (record v.0 { commands = b }, v.1)) none_left)
  run_commands-At true v s some_left h =
      Gives-bind (λ _ s'. Now (without_commands v) s')
        (λ wrote s'. Now (without_config wrote (without_commands v)) s')
        (drain_commands env.write_config s) (note_readback env config)
        (At-drain_commands env config t advances v s h) (note_readback-At (without_commands v))

  pub run_config-At :
      (b : Bool) (v : View) (s : PollingService W)
      → 0 < config.config_interval
      → Now v s
      → Gives (λ _ s'. Now (without_config b v) s') (run_config env config b s)
  unfolding run_config poll_config view
  run_config-At false v s pos h = h
  run_config-At true v s pos h =
      Gives-bind (λ _ s'. Now v s') (λ _ s'. Now (without_config true v) s')
        (named env config "inverter task config_poll"
          (then_always (poll_config env config) (λ s'. record s' { pending_writes = [] })) s)
        (λ _.
          change (λ s'. record s' {
            config_deadline = some (env.now s'.world + config.config_interval);
          }))
        (Gives-ended env config t advances (Now v) (Now v) "inverter task config_poll"
          (λ s'. record s' { pending_writes = [] }) (poll_config env config s)
          (At-polled env config t advances v env.read_config env.config_updated s
            advances.read_config advances.config_updated h)
          (λ s' h'. h'))
        (λ _ s' h'. config_set v s' config.config_interval pos h')

  pub run_watchdog-At :
      (b : Bool) (v : View) (s : PollingService W)
      → Now v s
      → Gives (λ changed s'. Now (after_check b changed v) s') (run_watchdog env config b s)
  unfolding run_watchdog view due_at request_time_sync
  run_watchdog-At false v s h = h
  run_watchdog-At true v s (clock, fresh, seen) =
      let later = advances.check s.world in
      let off =
        ap (λ b. s.started && b)
          (not_reached (env.now s.world) clock_watchdog_interval t clock (omega arith))
        ∙ off_right s.started in
      elim (Bool-cases (env.check s.world).0) [
        | inl changed ↦ rw changed (
          omega arith,
          fresh,
          ap
                (λ b. (
                  record (due_at t s) {
                    watchdog = b;
                    time_sync = (s.started && reached s.time_sync_deadline t) || true;
                  },
                  true,
                ))
                off
              ∙ ap (λ b. (record (due_at t s) { watchdog = false; time_sync = b }, true))
                  (on_right (s.started && reached s.time_sync_deadline t))
              ∙ ap (after_check true true) seen,
        )
        | inr same ↦ rw same (
          omega arith,
          fresh,
          ap (λ b. (record (due_at t s) { watchdog = b }, s.time_sync_requested)) off
              ∙ ap (after_check true false) seen,
        )
      ]

  time_synced :
      (v : View) (s : PollingService W)
      → Now v s
      → Now (without_time_sync true v) (record s {
        time_sync_requested = false;
        time_sync_deadline = some (env.now s.world + sync_time_interval);
      })
  unfolding view due_at
  time_synced v s (clock, fresh, seen) =
      let off =
        off_both s.started _ _
          (not_reached (env.now s.world) sync_time_interval t clock (omega arith)) refl in
      (
        clock,
        fresh,
        ap (λ b. (record (due_at t s) { time_sync = b }, false)) off
            ∙ ap (without_time_sync true) seen,
      )

  pub run_time_sync-At :
      (b : Bool) (v : View) (s : PollingService W)
      → Now v s
      → Gives (λ _ s'. Now (without_time_sync b v) s') (run_time_sync env config b s)
  unfolding run_time_sync view due_at
  run_time_sync-At false v s h = h
  run_time_sync-At true v s h =
      let w = (env.sync_time s.world).1 in
      Gives-any (Now (without_time_sync true v))
        (task_result "inverter task time_sync" (env.sync_time s.world).0) _
        (time_synced v (record s { world = w })
          (At-world env config t advances v s w (advances.sync_time s.world) h))

  pub run_status-At :
      (b : Bool) (v : View) (s : PollingService W)
      → 0 < config.status_interval
      → Now v s
      → Gives (λ _ s'. Now (without_status b v) s') (run_status env config b s)
  unfolding run_status poll_status
  run_status-At false v s pos h = h
  run_status-At true v s pos h =
      Gives-ended env config t advances (Now v) (Now (without_status true v))
        "inverter task status_poll" _ (poll_status env config s)
        (At-polled env config t advances v env.read_status env.status_updated s advances.read_status
          advances.status_updated h)
        (λ s' h'. status_set v s' pos h')
