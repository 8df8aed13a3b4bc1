-- ===== src/Recovery/Success.antt =====
-- recovery.go: the success of a call with recovery.
use mathlib.Core.Path.{subst}
use spf5000es_server.Prelude.{
  zero, ◌≢◌, true, false, Option, none, some, [], ◌∷◌, not, ◌||◌, inl, inr, Bool-cases,
  Option-cases,
}
use spf5000es_server.Error.{Error, Result, ok, err, is_fatal_modbus, Result-cases}
use spf5000es_server.Recovery.{
  RecoveryConfig, closed, connected, operated, reset, slept, notified, History, Surroundings,
  RecoveringInverter, notify, reconnect_and_validate, in_cooldown, after_reset, reset_and_reconnect,
  recover, execute_with_recovery,
}
use spf5000es_server.Recovery.Reconnect.{Answered, reconnect_loop-Answered}

-- The history without the announcement of a recovery.
abbrev pub unannounced : History → History
unannounced [] = []
unannounced (notified true ∷ h) = h
unannounced (x ∷ h) = x ∷ h

module _ {A : Type 0} (env : Surroundings A) (config : RecoveryConfig) where
  abbrev retry : History → Result (Option A) × History
  retry = reconnect_and_validate env config

  -- Without the announcement, the last event is the operation that gave the result.
  abbrev pub Validated : Result (Option A) × RecoveringInverter → Type 0
  Validated (r, i) = Answered env config (r, unannounced i.history)

  Answered-unannounced :
      (r : Result (Option A)) (h : History)
      → Answered env config (r, h)
      → Answered env config (r, unannounced h)
  Answered-unannounced (err e) h a = tt
  Answered-unannounced (ok (some x)) (operated ∷ h) a = a
  Answered-unannounced (ok (some x)) [] a = absurd a
  Answered-unannounced (ok (some x)) (closed ∷ h) a = absurd a
  Answered-unannounced (ok (some x)) (connected ∷ h) a = absurd a
  Answered-unannounced (ok (some x)) (reset ∷ h) a = absurd a
  Answered-unannounced (ok (some x)) (slept d ∷ h) a = absurd a
  Answered-unannounced (ok (some x)) (notified b ∷ h) a = absurd a
  Answered-unannounced (ok none) h a = absurd a

  Validated-recovered :
      (r : Option A) (i : RecoveringInverter)
      → Answered env config (ok r, i.history)
      → Validated (ok r, notify true i)
  unfolding notify
  Validated-recovered r i a = elim (Bool-cases i.has_sink) [
    | inl e ↦ rw e a
    | inr e ↦ rw e (Answered-unannounced (ok r) i.history a)
  ]

  module _ (tries : config.reconnect_attempts ≢ zero) where
    Answered-retry : (h : History) → Answered env config (retry h)
    unfolding reconnect_and_validate
    Answered-retry h =
        reconnect_loop-Answered env config config.reconnect_attempts config.initial_backoff none h
          (λ z. absurd (tries z))

    after_reset-Validated :
        (x : Error) (i : RecoveringInverter) → Validated (after_reset env config x i)
    unfolding after_reset
    after_reset-Validated x i =
        let j = record i { history = (retry i.history).1 } in
        let a = Answered-retry i.history in
        elim (Result-cases (retry i.history).0) [
          | inl (r, e) ↦
              rw (e, after_reset)
                (Validated-recovered r j
                  (subst (λ q. Answered env config (q, (retry i.history).1)) e a))
          | inr (y, e) ↦ rw (e, after_reset) tt
        ]

    reset_and_reconnect-Validated :
        (x : Error) (i : RecoveringInverter) → Validated (reset_and_reconnect env config x i)
    unfolding reset_and_reconnect
    reset_and_reconnect-Validated x i =
        let asked = record i { history = reset ∷ i.history } in
        elim (Bool-cases (in_cooldown env config i.last_reset (env.now i.history))) [
          | inl e ↦ rw e tt
          | inr e ↦ rw e (elim (Option-cases (env.request_reset i.history)) [
            | inr (y, f) ↦ rw f tt
            | inl f ↦
                rw f
                  (after_reset-Validated x (record asked { last_reset = some (env.now i.history) }))
          ])
        ]

    recover-Validated : (x : Error) (i : RecoveringInverter) → Validated (recover env config x i)
    unfolding recover
    recover-Validated x i =
        let down = notify false i in
        let tried = record down { history = (retry down.history).1 } in
        let a = Answered-retry down.history in
        elim (Result-cases (retry down.history).0) [
          | inl (r, e) ↦
              rw (e, recover)
                (Validated-recovered r tried
                  (subst (λ q. Answered env config (q, (retry down.history).1)) e a))
          | inr (y, e) ↦
              rw (e, recover)
                (elim (Bool-cases
                  (not (is_fatal_modbus y) || env.ctx_done (retry down.history).1)) [
                    | inl f ↦ rw f tt
                    | inr f ↦ rw f (reset_and_reconnect-Validated x tried)
                  ])
        ]

    -- With an attempt or more configured, a call with recovery that succeeds has a value, and it
    -- is the operation's answer as the last thing asked before the announcement, if there is one,
    -- of the recovery.
    pub execute_with_recovery-Validated :
        (i : RecoveringInverter) → Validated (execute_with_recovery env config i)
    unfolding execute_with_recovery
    execute_with_recovery-Validated i = elim (Result-cases (env.operation i.history)) [
      | inl (a, e) ↦ rw (e, execute_with_recovery) e
      | inr (y, e) ↦
          rw (e, execute_with_recovery)
            (elim (Bool-cases (is_fatal_modbus y)) [
              | inl f ↦ rw f (recover-Validated y (record i { history = operated ∷ i.history }))
              | inr f ↦ rw f tt
            ])
    ]
