-- ===== src/Recovery/Calls.antt =====
-- recovery.go: the methods of RecoveringInverter over an inverter that is a state machine. What the
-- history of a call leaves of the device is found by replaying it.
pub mod Wiring
pub mod Refusals
use spf5000es_server.Prelude.{ℕ, ℤ, Bool, false, Option, none, some, List, [], ◌∷◌, String}
use spf5000es_server.Error.{Error, Result, ok, err, wrap, map_err}
use spf5000es_server.Exec.{Exec}
use spf5000es_server.Value.{Value, nil, Config}
use spf5000es_server.Recovery.{
  RecoveryConfig, Event, closed, connected, operated, reset, slept, notified, History, Surroundings,
  RecoveringInverter, execute_with_recovery,
}

-- inverterConnection
pub record InverterConnection (W : Type 0) : Type 0 where
  pub connect : Exec W (Unit {0})
  pub close : Exec W (Unit {0})
  pub read_status : Exec W Config
  pub read_config : Exec W Config
  pub write_config : String → Value → Exec W Value
  pub sync_time : Exec W (Unit {0})

-- What else a call meets: sleepContext, time.Now, the resetter, the context and the sink.
pub record Host (W : Type 0) : Type 0 where
  pub sleep : ℤ → Exec W (Unit {0})
  pub now : W → ℕ
  pub request_reset : Exec W (Unit {0})
  pub ctx_done : W → Bool
  pub availability_changed : Bool → W → W

-- RecoveringInverter, with what its inverter and the host keep.
pub record Recovering (W : Type 0) : Type 0 where
  pub last_reset : Option ℕ
  pub has_sink : Bool
  pub world : W

-- RequestReset of systemdResetRequester, by the run of systemctl.
unfoldable pub systemd_reset : {W : Type 0} → Exec W (Unit {0}) → Exec W (Unit {0})
systemd_reset start w =
    let (r, w') = start w in (map_err (wrap "start spf5000es-recovery.service") r, w')

abbrev error_of : {A : Type 0} → Result A → Option Error
error_of (ok a) = none
error_of (err e) = some e

module _ {W : Type 0} (inverter : InverterConnection W) (host : Host W) where
  module _ {A : Type 0} (operation : Exec W A) (start : W) where
    -- The state after a history that began in `start`.
    unfoldable pub replay : History → W
    replay [] = start
    replay (closed ∷ h) = (inverter.close (replay h)).1
    replay (connected ∷ h) = (inverter.connect (replay h)).1
    replay (operated ∷ h) = (operation (replay h)).1
    replay (reset ∷ h) = (host.request_reset (replay h)).1
    replay (slept delay ∷ h) = (host.sleep delay (replay h)).1
    replay (notified available ∷ h) = host.availability_changed available (replay h)

    unfoldable pub surroundings : Surroundings A
    unfolding replay
    surroundings = record {
      connect = λ h. error_of (inverter.connect (replay h)).0;
      operation = λ h. (operation (replay h)).0;
      sleep = λ delay h. error_of (host.sleep delay (replay h)).0;
      now = λ h. host.now (replay h);
      request_reset = λ h. error_of (host.request_reset (replay h)).0;
      ctx_done = λ h. host.ctx_done (replay h);
    }

  module _ (config : RecoveryConfig) where
    -- The part that the methods share; the result is nil where the operation never gave one.
    abbrev pub result_or : {A : Type 0} → A → Result (Option A) → Result A
    result_or zero (ok none) = ok zero
    result_or zero (ok (some a)) = ok a
    result_or zero (err e) = err e

    unfoldable pub call : {A : Type 0} → A → Exec W A → Exec (Recovering W) A
    unfolding surroundings
    call zero operation r =
        let begun : RecoveringInverter = record {
          last_reset = r.last_reset;
          has_sink = r.has_sink;
          history = [];
        } in
        let (result, ended) = execute_with_recovery (surroundings operation r.world) config begun in
        (
          result_or zero result,
          record {
            last_reset = ended.last_reset;
            has_sink = ended.has_sink;
            world = replay operation r.world ended.history;
          },
        )

    -- Connect, ReadStatus, ReadConfig, WriteConfig and SyncTime
    unfoldable pub connect : Exec (Recovering W) (Unit {0})
    unfolding call
    connect = call tt inverter.connect

    unfoldable pub read_status : Exec (Recovering W) Config
    unfolding call
    read_status = call [] inverter.read_status

    unfoldable pub read_config : Exec (Recovering W) Config
    unfolding call
    read_config = call [] inverter.read_config

    unfoldable pub write_config : String → Value → Exec (Recovering W) Value
    unfolding call
    write_config key value = call nil (inverter.write_config key value)

    unfoldable pub sync_time : Exec (Recovering W) (Unit {0})
    unfolding call
    sync_time = call tt inverter.sync_time

  -- Close, without recovery
  unfoldable pub close : Exec (Recovering W) (Unit {0})
  close r = let (result, w) = inverter.close r.world in (result, record r { world = w })

-- NewRecoveringInverter and SetAvailabilitySink
abbrev pub new_recovering_inverter : {W : Type 0} → W → Recovering W
new_recovering_inverter w = record { last_reset = none; has_sink = false; world = w }

abbrev pub set_availability_sink : {W : Type 0} → Bool → Recovering W → Recovering W
set_availability_sink has_sink r = record r { has_sink = has_sink }
