-- ===== src/Polling/Service.antt =====
-- polling.go: the polling service from its construction on, and Run among the requests of other
-- goroutines.
pub mod Lasting
use spf5000es_server.Prelude.{
  ℕ, Bool, true, false, not, Option, none, some, List, [], ◌∷◌, String, if◌then◌else◌,
}
use spf5000es_server.Error.{Error, Result, ok, err, message}
use spf5000es_server.Value.{Value}
use spf5000es_server.Polling.{
  PollingService, queue_config_write, set_polling_enabled, request_time_sync,
}
use spf5000es_server.Polling.Run.{PollingConfig, PollingWorld, start, run_pending}

-- The methods of inverterCommandService, as other goroutines call them.
pub data Request : Type 0 where
  write : String → Value → Request
  switch : Bool → Request
  sync : Request

-- Run goes on, or has returned an error: it returns nothing else.
pub data Running : Type 0 where
  running : Running
  returned : Error → Running

module _ {W : Type 0} where
  -- NewPollingService
  unfoldable pub new_polling_service : W → PollingService W
  new_polling_service world = record {
    commands = [];
    pending_writes = [];
    time_sync_requested = false;
    wake = false;
    polling_enabled = false;
    polling_version = 0;
    observed_version = 0;
    started = false;
    config_deadline = none;
    status_deadline = none;
    watchdog_deadline = none;
    time_sync_deadline = none;
    world = world;
  }

  -- The effect of a request on the service; a full queue refuses the command.
  unfoldable pub answer : Request → PollingService W → PollingService W
  unfolding queue_config_write set_polling_enabled request_time_sync
  answer (write key value) s = (queue_config_write key value s).1
  answer (switch enabled) s = set_polling_enabled enabled s
  answer sync s = request_time_sync s

  unfoldable pub answers : List Request → PollingService W → PollingService W
  unfolding answer
  answers [] s = s
  answers (request ∷ requests) s = answers requests (answer request s)

module _ {W : Type 0} (env : PollingWorld W) (config : PollingConfig)
    (ctx_err : W → Option Error) where
  -- The loop of Run: each round begins after the requests of its batch. What comes after the last
  -- batch is left open.
  unfoldable pub run_loop : List (List Request) → PollingService W → Running × PollingService W
  unfolding answers
  run_loop [] s = (running, s)
  run_loop (requests ∷ batches) s =
      let begun = answers requests s in
      let (r, s') = run_pending env config begun in
      let rest = run_loop batches s' in
      elim (ctx_err begun.world) [
        | some e ↦ (returned e, begun)
        | none ↦ elim r [ ok done ↦ rest | err e ↦ (returned e, s') ]
      ]

  -- Run
  unfoldable pub run : List (List Request) → PollingService W → Running × PollingService W
  unfolding run_loop
  run batches s =
      if s.started
      then run_loop batches s
      else (returned (message "polling service is not started"), s)
