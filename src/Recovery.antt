-- ===== src/Recovery.antt =====
-- recovery.go: RecoveringInverter. Its surroundings (the inverter, the timer, the clock, systemd,
-- the context) are functions of the history of all that has been asked of them: any surroundings
-- are such functions. Each method holds the lock, so it is one step.
pub mod Reconnect
pub mod Reset
pub mod Success
pub mod Calls
use spf5000es_server.Prelude.{
  ℕ, zero, suc, ◌+◌, ◌-◌, ◌*◌, Bool, true, false, ◌&&◌, ◌||◌, not, Option, none, some, List, [],
  ◌∷◌, ltb, if◌then◌else◌, ◌^◌, ℤ, pos, negsuc, ◌+ℤ◌, ◌-ℤ◌, leb_ℤ, ltb_ℤ,
}
use spf5000es_server.Error.{Error, Result, ok, err, message, wrap, join, is_fatal_modbus}

-- RecoveryConfig; durations are nanoseconds, and the backoffs are those of a Duration, an int64.
pub record RecoveryConfig : Type 0 where
  pub reconnect_attempts : ℕ
  pub initial_backoff : ℤ
  pub max_backoff : ℤ
  pub reset_cooldown : ℕ

-- What is asked of the surroundings, and what they are told.
pub data Event : Type 0 where
  closed connected operated reset : Event
  slept : ℤ → Event
  notified : Bool → Event

-- The newest event first.
abbrev pub History : Type 0
History = List Event

-- The answers of Connect, the operation, sleepContext, time.Now, the resetter and ctx.Err.
pub record Surroundings (A : Type 0) : Type 0 where
  pub connect : History → Option Error
  pub operation : History → Result A
  pub sleep : ℤ → History → Option Error
  pub now : History → ℕ
  pub request_reset : History → Option Error
  pub ctx_done : History → Bool

-- RecoveringInverter: lastReset, `none` for the zero time, and whether a sink is set.
pub record RecoveringInverter : Type 0 where
  pub last_reset : Option ℕ
  pub has_sink : Bool
  pub history : History

-- notifyAvailabilityLocked
unfoldable pub notify : Bool → RecoveringInverter → RecoveringInverter
notify available i = if i.has_sink then record i { history = notified available ∷ i.history } else i

-- The error that a loop of no attempts returns is nil, and leaves no result: `ok none`.
abbrev pub loop_result : {A : Type 0} → Option Error → Result (Option A)
loop_result none = ok none
loop_result (some e) = err e

-- delay * 2 of an int64, which wraps around
unfoldable pub doubled : ℤ → ℤ
doubled delay =
    let twice = delay +ℤ delay in
    if leb_ℤ (pos (2 ^ 63)) twice
    then twice -ℤ pos (2 ^ 64)
    else if ltb_ℤ twice (negsuc (2 ^ 63 - 1))
    then twice +ℤ pos (2 ^ 64)
    else twice

abbrev pub min_ℤ : ℤ → ℤ → ℤ
min_ℤ a b = if leb_ℤ a b then a else b

module _ {A : Type 0} (env : Surroundings A) (config : RecoveryConfig) where
  -- min(delay*2, i.config.MaxBackoff)
  abbrev pub longer : ℤ → ℤ
  longer delay = min_ℤ (doubled delay) config.max_backoff

  -- The loop of reconnectAndValidateLocked: the attempts left, the delay and reconnectErr.
  unfoldable pub reconnect_loop : ℕ → ℤ → Option Error → History → Result (Option A) × History
  reconnect_loop zero delay last h = (loop_result last, h)
  reconnect_loop (suc attempts) delay last h =
      let h₁ = closed ∷ h in
      let h₂ = slept delay ∷ h₁ in
      let h₃ = connected ∷ h₂ in
      let h₄ = operated ∷ h₃ in
      let next = λ (e : Error) (h' : History). reconnect_loop attempts (longer delay) (some e) h' in
      elim (env.sleep delay h₁) [
        | some e ↦ (err e, h₂)
        | none ↦ elim (env.connect h₂) [
          | some e ↦ next e h₃
          | none ↦ elim (env.operation h₃) [
            | ok a ↦ (ok (some a), h₄)
            | err e ↦ if is_fatal_modbus e then next e h₄ else (err e, h₄)
          ]
        ]
      ]

  -- reconnectAndValidateLocked
  unfoldable pub reconnect_and_validate : History → Result (Option A) × History
  unfolding reconnect_loop
  reconnect_and_validate h = reconnect_loop config.reconnect_attempts config.initial_backoff none h

  -- Whether a reset at this time falls in the cooldown of an earlier one.
  unfoldable pub in_cooldown : Option ℕ → ℕ → Bool
  in_cooldown none now = false
  in_cooldown (some last) now = ltb now (last + config.reset_cooldown)

  abbrev pub recovered : Option A → RecoveringInverter → Result (Option A) × RecoveringInverter
  recovered a i = (ok a, notify true i)

  -- The last part of executeWithRecoveryLocked: reconnecting after a reset.
  unfoldable pub after_reset : Error → RecoveringInverter → Result (Option A) × RecoveringInverter
  unfolding reconnect_and_validate notify
  after_reset operation_err i =
      let (r, h) = reconnect_and_validate i.history in
      elim r [
        | ok a ↦ recovered a (record i { history = h })
        | err e ↦ (
          err (join operation_err (wrap "reconnect after inverter reset" e)),
          record i { history = h },
        )
      ]

  -- The middle part: the cooldown and the privileged reset.
  unfoldable pub reset_and_reconnect :
      Error → RecoveringInverter → Result (Option A) × RecoveringInverter
  unfolding in_cooldown after_reset
  reset_and_reconnect operation_err i =
      let now = env.now i.history in
      let asked = record i { history = reset ∷ i.history } in
      if in_cooldown i.last_reset now
      then (err (join operation_err (message "inverter reset suppressed during cooldown")), i)
      else elim (env.request_reset i.history) [
        | some e ↦ (err (join operation_err (wrap "request inverter reset" e)), asked)
        | none ↦ after_reset operation_err (record asked { last_reset = some now })
      ]

  -- Recovery from a fatal error of the operation.
  unfoldable pub recover : Error → RecoveringInverter → Result (Option A) × RecoveringInverter
  unfolding reconnect_and_validate notify reset_and_reconnect
  recover operation_err i =
      let down = notify false i in
      let (r, h) = reconnect_and_validate down.history in
      let tried = record down { history = h } in
      elim r [
        | ok a ↦ recovered a tried
        | err e ↦
            if not (is_fatal_modbus e) || env.ctx_done h
            then (err (join operation_err e), tried)
            else reset_and_reconnect operation_err tried
      ]

  -- executeWithRecoveryLocked; the result is what the operation's closure stored.
  unfoldable pub execute_with_recovery : RecoveringInverter → Result (Option A) × RecoveringInverter
  unfolding recover
  execute_with_recovery i =
      let ran = record i { history = operated ∷ i.history } in
      elim (env.operation i.history) [
        | ok a ↦ (ok (some a), ran)
        | err e ↦ if is_fatal_modbus e then recover e ran else (err e, ran)
      ]
