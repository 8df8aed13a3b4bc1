-- ===== src/Polling/Run/Stages.antt =====
-- polling.go: what each part of runPending leaves due at the time at which the step began.
pub mod Parts
use spf5000es_server.Prelude.{
  ℕ, ◌+◌, ◌≤◌, ◌<◌, ◌≡◌, refl, ap, ◌∙◌, Bool, true, false, not, ◌&&◌, ◌||◌, some, List, [], ◌∷◌,
  ◌==◌, if◌then◌else◌, String, lookup, arith, inl, inr, Bool-cases,
}
use spf5000es_server.Error.{Result, ok, err, is_config_command}
use spf5000es_server.Exec.{Exec, Gives, Gives-bind, Gives-any, ◌>>=◌}
use spf5000es_server.Value.{Value, Config}
use spf5000es_server.Watchdog.{clock_watchdog_interval}
use spf5000es_server.Polling.{
  ConfigWriteCommand, PollingService, drain_commands, drain_batch, drain_command, note_written,
  is_pending, take_latest, request_time_sync,
}
use spf5000es_server.Polling.Run.{
  PollingConfig, PollingWorld, Due, due_at, reached, on_world, tell, then_always, named,
  poll_status, poll_config, note_readback, run_commands, run_config, run_watchdog, run_time_sync,
  run_status, config_readback_delay, change, sync_time_interval, task_result,
}

-- What is due at a time, and whether a time sync is requested.
abbrev pub View : Type 0
View = Due × Bool

abbrev pub without_commands : View → View
without_commands (d, b) = (record d { commands = false }, b)

abbrev pub without_config : Bool → View → View
without_config ended (d, b) = (record d { config = if ended then false else d.config }, b)

abbrev pub after_check : Bool → Bool → View → View
after_check ran changed (d, b) = (
  record d { watchdog = if ran then false else d.watchdog; time_sync = changed || d.time_sync },
  changed || b,
)

abbrev pub without_time_sync : Bool → View → View
without_time_sync ended (d, b) =
    (record d { time_sync = if ended then false else d.time_sync }, if ended then false else b)

abbrev pub without_status : Bool → View → View
without_status ended (d, b) = (record d { status = if ended then false else d.status }, b)

module _ {W : Type 0} where
  -- The version of the polling switch is not observed yet.
  abbrev pub is_fresh : PollingService W → Bool
  is_fresh s = s.polling_enabled && not (s.polling_version == s.observed_version)

  unfoldable pub view : ℕ → PollingService W → View
  unfolding due_at
  view t s = (due_at t s, s.time_sync_requested)

-- The clock does not run backwards over what the service calls.
pub record Advances {W : Type 0} (env : PollingWorld W) : Type 0 where
  pub read_status : (w : W) → env.now w ≤ env.now (env.read_status w).1
  pub read_config : (w : W) → env.now w ≤ env.now (env.read_config w).1
  pub write_config :
      (key : String) (value : Value) (w : W) → env.now w ≤ env.now (env.write_config key value w).1
  pub sync_time : (w : W) → env.now w ≤ env.now (env.sync_time w).1
  pub status_updated : (status : Config) (w : W) → env.now w ≤ env.now (env.status_updated status w)
  pub config_updated : (read : Config) (w : W) → env.now w ≤ env.now (env.config_updated read w)
  pub check : (w : W) → env.now w ≤ env.now (env.check w).1

not_reached : (n m t : ℕ) → t ≤ n → 0 < m → reached (some (n + m)) t ≡ false
not_reached n m t h k = ground arith

off_both : (a b c : Bool) → b ≡ false → c ≡ false → ((a && b) || c) ≡ false
off_both a b c h k = ground arith

off_right : (b : Bool) → (b && false) ≡ false
off_right b = ground arith

on_right : (b : Bool) → (b || true) ≡ true
on_right b = ground arith

module _ {W : Type 0} (env : PollingWorld W) (config : PollingConfig) (t : ℕ)
    (advances : Advances env) where
  -- A state of the step, with what is due in it.
  abbrev pub At : View → PollingService W → Type 0
  At v s = (t ≤ env.now s.world) × (is_fresh s ≡ false) × (view t s ≡ v)

  At-note_written :
      (v : View) (command : ConfigWriteCommand) (wrote : Bool) (r : Result Value)
      (s : PollingService W)
      → At v s
      → Gives (λ _ s'. At v s') (note_written env.write_config command wrote r s)
  unfolding view
  At-note_written v command wrote (ok value) s h = h
  At-note_written v command wrote (err e) s h = elim (Bool-cases (is_config_command e)) [
    | inl refused ↦ rw refused h
    | inr failed ↦ rw failed tt
  ]

  At-world :
      (v : View) (s : PollingService W) (w : W)
      → env.now s.world ≤ env.now w
      → At v s
      → At v (record s { world = w })
  unfolding view
  At-world v s w later (clock, fresh, seen) = (omega arith, fresh, seen)

  At-on_world :
      {A : Type 0} (v : View) (m : Exec W A) (s : PollingService W)
      → ((w : W) → env.now w ≤ env.now (m w).1)
      → At v s
      → Gives (λ _ s'. At v s') (on_world m s)
  At-on_world v m s later h =
      Gives-any (At v) (m s.world).0 (record s { world = (m s.world).1 })
        (At-world v s (m s.world).1 (later s.world) h)

  At-drain_command :
      (v : View) (command : ConfigWriteCommand) (wrote : Bool) (s : PollingService W)
      → At v s
      → Gives (λ _ s'. At v s') (drain_command env.write_config command wrote s)
  unfolding drain_command
  At-drain_command v command wrote s h =
      elim (Bool-cases (is_pending (lookup command.key s.pending_writes) command.value)) [
        | inl waits ↦ rw waits h
        | inr new ↦
            let (answer, w) = env.write_config command.key command.value s.world in
            rw new (
              At-note_written v command wrote (env.write_config command.key command.value s.world).0
                _
                (At-world v s (env.write_config command.key command.value s.world).1
                  (advances.write_config command.key command.value s.world) h))
      ]

  At-next :
      (v : View) (commands : List ConfigWriteCommand) (p : Result Bool × PollingService W)
      → Gives (λ _ s'. At v s') p
      → ((wrote : Bool) (s : PollingService W)
          → At v s
          → Gives (λ _ s'. At v s') (drain_batch env.write_config commands wrote s))
      → Gives {A = Bool}
          (λ _ s'. At v s')
          (elim p.0 [
            | ok wrote ↦ drain_batch env.write_config commands wrote p.1
            | err e ↦ (err e, p.1)
          ])
  At-next v commands (ok wrote, s) h next = next wrote s h
  At-next v commands (err e, s) h next = tt

  At-drain_batch :
      (v : View) (commands : List ConfigWriteCommand) (wrote : Bool) (s : PollingService W)
      → At v s
      → Gives (λ _ s'. At v s') (drain_batch env.write_config commands wrote s)
  unfolding drain_batch
  At-drain_batch v [] wrote s h = h
  At-drain_batch v (command ∷ commands) wrote s h =
      At-next v commands (drain_command env.write_config command wrote s)
        (At-drain_command v command wrote s h) (At-drain_batch v commands)

  At-drain_commands :
      (v : View) (s : PollingService W)
      → At v s
      → Gives (λ _ s'. At (without_commands v) s') (drain_commands env.write_config s)
  unfolding drain_commands view due_at
  At-drain_commands v s (clock, fresh, seen) =
      At-drain_batch (without_commands v) (take_latest s.commands) false
        (record s { commands = [] }) (clock, fresh, ap without_commands seen)

  At-polled :
      (v : View) (read : Exec W Config) (deliver : Config → W → W) (s : PollingService W)
      → ((w : W) → env.now w ≤ env.now (read w).1)
      → ((found : Config) (w : W) → env.now w ≤ env.now (deliver found w))
      → At v s
      → Gives (λ _ s'. At v s') ((on_world read >>= λ found. tell (deliver found)) s)
  At-polled v read deliver s later told h =
      Gives-bind (λ _ s'. At v s') (λ _ s'. At v s') (on_world read s)
        (λ found. tell (deliver found)) (At-on_world v read s later h)
        (λ found s' h'. At-world v s' (deliver found s'.world) (told found s'.world) h')

  -- A task is named where it fails, and its deadline is set however it ends.
  Gives-ended :
      {A : Type 0} (P Q : PollingService W → Type 0) (name : String)
      (f : PollingService W → PollingService W) (p : Result A × PollingService W)
      → Gives (λ _. P) p
      → ((s : PollingService W) → P s → Q (f s))
      → Gives (λ _. Q) (task_result name p.0, f p.1)
  Gives-ended P Q name f (ok a, s) h next = next s h
  Gives-ended P Q name f (err e, s) h next = tt
