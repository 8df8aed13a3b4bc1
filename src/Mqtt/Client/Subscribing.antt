-- ===== src/Mqtt/Client/Subscribing.antt =====
-- mqtt.go: the retries of subscribeCommands, over a client, a clock and the connection that may change
-- while it waits.
pub mod Delays
use spf5000es_server.Prelude.{
  ℕ, zero, suc, ◌*◌, ◌^◌, Bool, not, Option, none, some, min, if◌then◌else◌,
}
use spf5000es_server.Error.{Error, Result, ok, err, message}
use spf5000es_server.Exec.{Exec}

-- Whether the connection of the setup is the current one, Subscribe within the operation's timeout,
-- and sleep.
pub record Subscriber (W : Type 0) : Type 0 where
  pub is_current : W → Bool
  pub subscribe : Exec W (Unit {0})
  pub sleep : ℕ → Exec W (Unit {0})

-- mqttSubscribeInitialBackoff and mqttSubscribeMaxBackoff
abbrev pub subscribe_initial_backoff : ℕ
subscribe_initial_backoff = 10 ^ 9

abbrev pub subscribe_max_backoff : ℕ
subscribe_max_backoff = 30 * 10 ^ 9

abbrev pub next_delay : ℕ → ℕ
next_delay delay = min (delay * 2) subscribe_max_backoff

module _ {W : Type 0} (env : Subscriber W) where
  -- The loop of subscribeCommands, for a number of attempts; nothing where it still goes on.
  unfoldable pub subscribe_loop : ℕ → ℕ → W → Option (Result (Unit {0}) × W)
  subscribe_loop zero delay w = none
  subscribe_loop (suc attempts) delay w =
      let (answer, subscribed) = env.subscribe w in
      let (slept, later) = env.sleep delay subscribed in
      let rest = subscribe_loop attempts (next_delay delay) later in
      if not (env.is_current w)
      then some (err (message "MQTT connection changed during setup"), w)
      else elim answer [
        | ok done ↦ some (ok tt, subscribed)
        | err e ↦ elim slept [ ok done ↦ rest | err x ↦ some (err x, later) ]
      ]

  unfoldable pub subscribe_commands : ℕ → W → Option (Result (Unit {0}) × W)
  unfolding subscribe_loop
  subscribe_commands attempts w = subscribe_loop attempts subscribe_initial_backoff w
