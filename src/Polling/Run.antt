-- ===== src/Polling/Run.antt =====
-- polling.go: Start and runPending. A request of another goroutine falls before or after a step.
pub mod Disabled
pub mod Enabled
pub mod Settled
pub mod Stages
use spf5000es_server.Prelude.{
  ℕ, ◌+◌, ◌*◌, ◌^◌, Bool, true, false, not, ◌&&◌, ◌||◌, Option, none, some, List, [], ◌∷◌, leb,
  ◌==◌, if◌then◌else◌, String,
}
use spf5000es_server.Error.{Error, Result, ok, err, wrap}
use spf5000es_server.Exec.{Exec, pure, ◌>>=◌, ◌>>◌}
use spf5000es_server.Value.{Value, Config}
use spf5000es_server.Watchdog.{clock_watchdog_interval}
use spf5000es_server.Polling.{
  ConfigWriteCommand, PollingService, drain_commands, earliest_deadline, request_time_sync,
}

-- PollingConfig
pub record PollingConfig : Type 0 where
  pub config_interval : ℕ
  pub status_interval : ℕ

-- The inverter, the sink (where there is none, its calls change nothing), time.Now and the watchdog's
-- Check. `wait` is the select on ctx.Done, the wake channel and the timer: it is told the deadline,
-- the time and whether the channel is full, and says whether it took from the channel.
pub record PollingWorld (W : Type 0) : Type 0 where
  pub read_status : Exec W Config
  pub read_config : Exec W Config
  pub write_config : String → Value → Exec W Value
  pub sync_time : Exec W (Unit {0})
  pub status_updated : Config → W → W
  pub config_updated : Config → W → W
  pub now : W → ℕ
  pub check : W → Bool × W
  pub wait : Option ℕ → ℕ → Bool → Exec W Bool

-- syncTimeInterval and configReadbackDelay
abbrev pub sync_time_interval : ℕ
sync_time_interval = 6 * 3600 * 10 ^ 9

abbrev pub config_readback_delay : ℕ
config_readback_delay = 2 * 10 ^ 9

-- What is due in a step.
pub record Due : Type 0 where
  pub commands : Bool
  pub config : Bool
  pub watchdog : Bool
  pub time_sync : Bool
  pub status : Bool

-- !deadline.After(now)
abbrev pub reached : Option ℕ → ℕ → Bool
reached none now = true
reached (some deadline) now = leb deadline now

abbrev pub is_empty : List ConfigWriteCommand → Bool
is_empty [] = true
is_empty (c ∷ cs) = false

abbrev pub any_due : Due → Bool
any_due due = due.commands || due.config || due.watchdog || due.time_sync || due.status

-- inverterTaskError
abbrev pub task_result : {A : Type 0} → String → Result A → Result A
task_result name (ok a) = ok a
task_result name (err e) = err (wrap name e)

module _ {W : Type 0} where
  -- Start
  unfoldable pub start : (W → ℕ) → PollingService W → PollingService W
  start now s =
      let t = now s.world in
      record s {
        started = true;
        config_deadline = some t;
        status_deadline = some t;
        watchdog_deadline = some (t + clock_watchdog_interval);
        time_sync_deadline = some t;
      }

  -- The tests at the head of runPending.
  unfoldable pub due_at : ℕ → PollingService W → Due
  due_at now s =
      let fresh = s.polling_enabled && not (s.polling_version == s.observed_version) in
      record {
        commands = not (is_empty s.commands);
        config = (s.polling_enabled && s.started && reached s.config_deadline now) || fresh;
        watchdog = s.started && reached s.watchdog_deadline now;
        time_sync = (s.started && reached s.time_sync_deadline now) || s.time_sync_requested;
        status = (s.polling_enabled && s.started && reached s.status_deadline now) || fresh;
      }

  -- What those tests take: the new version is observed, and the request of a time sync received.
  abbrev pub observe : PollingService W → PollingService W
  observe s = record s {
    observed_version = if s.polling_enabled then s.polling_version else s.observed_version;
    time_sync_requested = false;
  }

  abbrev pub on_world : {A : Type 0} → Exec W A → Exec (PollingService W) A
  on_world m s = let (r, w) = m s.world in (r, record s { world = w })

  abbrev pub tell : (W → W) → Exec (PollingService W) (Unit {0})
  tell f s = (ok tt, record s { world = f s.world })

  abbrev pub change : (PollingService W → PollingService W) → Exec (PollingService W) (Unit {0})
  change f s = (ok tt, f s)

  -- f on the result, whatever it is: the call that follows comes before the test of the error.
  abbrev pub then_always :
      {A : Type 0}
      → Exec (PollingService W) A
      → (PollingService W → PollingService W)
      → Exec (PollingService W) A
  then_always m f s = let (r, s') = m s in (r, f s')

module _ {W : Type 0} (env : PollingWorld W) (config : PollingConfig) where
  abbrev pub named : {A : Type 0} → String → Exec (PollingService W) A → Exec (PollingService W) A
  named name m s = let (r, s') = m s in (task_result name r, s')

  -- pollStatus and pollConfig
  unfoldable pub poll_status : Exec (PollingService W) (Unit {0})
  poll_status = do status ← on_world env.read_status; tell (env.status_updated status)

  unfoldable pub poll_config : Exec (PollingService W) (Unit {0})
  poll_config = do read ← on_world env.read_config; tell (env.config_updated read)

  -- After a write the next read-back waits.
  abbrev pub note_readback : Bool → Exec (PollingService W) Bool
  note_readback false s = (ok false, s)
  note_readback true s =
      (ok true, record s { config_deadline = some (env.now s.world + config_readback_delay) })

  -- The parts of runPending, in its order: each does nothing unless it is due.
  unfoldable pub run_commands : Bool → Exec (PollingService W) Bool
  run_commands false = pure false
  run_commands true = do wrote ← drain_commands env.write_config; note_readback wrote

  unfoldable pub run_config : Bool → Exec (PollingService W) (Unit {0})
  unfolding poll_config
  run_config false = pure tt
  run_config true = do
    named "inverter task config_poll"
        (then_always poll_config (λ s. record s { pending_writes = [] }))
    change (λ s. record s { config_deadline = some (env.now s.world + config.config_interval) })

  -- The result says whether the clock had changed: the time is then synchronised in a later step.
  unfoldable pub run_watchdog : Bool → Exec (PollingService W) Bool
  run_watchdog false s = (ok false, s)
  run_watchdog true s =
      let (changed, w) = env.check s.world in
      let checked = record s {
        watchdog_deadline = some (env.now s.world + clock_watchdog_interval);
        world = w;
      } in
      (ok changed, if changed then request_time_sync checked else checked)

  unfoldable pub run_time_sync : Bool → Exec (PollingService W) (Unit {0})
  run_time_sync false s = (ok tt, s)
  run_time_sync true s =
      named "inverter task time_sync"
        (then_always (on_world env.sync_time)
          (λ s'. record s' { time_sync_deadline = some (env.now s'.world + sync_time_interval) }))
        (record s { time_sync_requested = false })

  unfoldable pub run_status : Bool → Exec (PollingService W) (Unit {0})
  unfolding poll_status
  run_status false = pure tt
  run_status true = named "inverter task status_poll" (
      then_always poll_status
        (λ s. record s { status_deadline = some (env.now s.world + config.status_interval) }))

  -- The select of a step without work.
  unfoldable pub idle : ℕ → Exec (PollingService W) (Unit {0})
  idle now s =
      let shown = λ (deadline : Option ℕ). if s.polling_enabled then deadline else none in
      let next = earliest_deadline (
        shown s.config_deadline
        ∷ shown s.status_deadline
        ∷ s.watchdog_deadline
        ∷ s.time_sync_deadline
        ∷ []) in
      let (r, w) = env.wait next now s.wake s.world in
      elim r [
        | ok woken ↦ (ok tt, record s { wake = s.wake && not woken; world = w })
        | err e ↦ (err e, record s { world = w })
      ]

  -- The steps of runPending where there is work.
  unfoldable pub run_due : Due → Exec (PollingService W) (Unit {0})
  unfolding run_commands run_config run_watchdog run_time_sync run_status
  run_due due = do
    wrote ← run_commands due.commands
    run_config (due.config && not wrote)
    changed ← run_watchdog due.watchdog
    run_time_sync (due.time_sync && not changed)
    run_status due.status

  -- runPending
  unfoldable pub run_pending : Exec (PollingService W) (Unit {0})
  unfolding due_at idle run_due
  run_pending s =
      let now = env.now s.world in
      let due = due_at now s in
      if any_due due then run_due due (observe s) else idle now (observe s)
