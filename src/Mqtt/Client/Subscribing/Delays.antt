-- ===== src/Mqtt/Client/Subscribing/Delays.antt =====
-- mqtt.go: the delays between the attempts of subscribeCommands.
use mathlib.Core.Path.{fun_ext}
use spf5000es_server.Prelude.{
  ℕ, zero, suc, ◌≤◌, ◌≡◌, refl, ap, ◌∙◌, not, Option, some, if◌then◌else◌, arith,
}
use spf5000es_server.Error.{Result, ok, err, message}
use spf5000es_server.Exec.{Exec}
use spf5000es_server.Mqtt.Client.Subscribing.{
  Subscriber, subscribe_initial_backoff, subscribe_max_backoff, next_delay, subscribe_loop,
  subscribe_commands,
}

abbrev pub with_sleep : {W : Type 0} → Subscriber W → (ℕ → Exec W (Unit {0})) → Subscriber W
with_sleep env sleep = record env { sleep = sleep }

next_delay-within :
    (delay : ℕ)
    → subscribe_initial_backoff ≤ delay
    → delay ≤ subscribe_max_backoff
    → (subscribe_initial_backoff ≤ next_delay delay) × (next_delay delay ≤ subscribe_max_backoff)
next_delay-within delay low high = (ground arith, ground arith)

module _ {W : Type 0} (env : Subscriber W) (sleep : ℕ → Exec W (Unit {0}))
    (agree : (delay : ℕ)
      → subscribe_initial_backoff ≤ delay
      → delay ≤ subscribe_max_backoff
      → sleep delay ≡ env.sleep delay) where
  -- An attempt, with what sleeps after it and what comes then.
  abbrev attempt :
      Exec W (Unit {0}) → (W → Option (Result (Unit {0}) × W)) → W → Option (Result (Unit {0}) × W)
  attempt pause next w =
      let (answer, subscribed) = env.subscribe w in
      let (slept, later) = pause subscribed in
      let rest = next later in
      if not (env.is_current w)
      then some (err (message "MQTT connection changed during setup"), w)
      else elim answer [
        | ok done ↦ some (ok tt, subscribed)
        | err e ↦ elim slept [ ok done ↦ rest | err x ↦ some (err x, later) ]
      ]

  subscribe_loop-same :
      (attempts delay : ℕ) (w : W)
      → subscribe_initial_backoff ≤ delay
      → delay ≤ subscribe_max_backoff
      → subscribe_loop (with_sleep env sleep) attempts delay w ≡ subscribe_loop env attempts delay w
  unfolding subscribe_loop
  subscribe_loop-same zero delay w low high = refl
  subscribe_loop-same (suc attempts) delay w low high =
      let (later_low, later_high) = next_delay-within delay low high in
      ap
        (λ pause.
          attempt pause (subscribe_loop (with_sleep env sleep) attempts (next_delay delay)) w)
        (agree delay low high)
      ∙ ap (λ next. attempt (env.sleep delay) next w)
          (fun_ext
            λ later. subscribe_loop-same attempts (next_delay delay) later later_low later_high)

  -- Any two sleeps that agree on the delays from the initial one to the greatest give the same.
  subscribe_commands-same :
      (attempts : ℕ) (w : W)
      → subscribe_commands (with_sleep env sleep) attempts w ≡ subscribe_commands env attempts w
  unfolding subscribe_commands
  subscribe_commands-same attempts w =
      subscribe_loop-same attempts subscribe_initial_backoff w (omega arith) (omega arith)
