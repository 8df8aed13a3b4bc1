-- ===== src/Recovery/Reset.antt =====
-- recovery.go: the privileged reset, and what a call with recovery does in all.
use spf5000es_server.Prelude.{
  ℕ, suc, ◌+◌, ◌*◌, ◌≤◌, ◌≡◌, ◌≢◌, refl, Bool, true, false, Option, none, some, ◌∷◌, not, ◌||◌,
  arith, ◌⊎◌, inl, inr, sym, ◌∙◌, Bool-cases, Option-cases, ap,
}
use spf5000es_server.Error.{Error, Result, is_fatal_modbus, Result-cases}
use spf5000es_server.Recovery.{
  RecoveryConfig, operated, reset, History, Surroundings, RecoveringInverter, notify,
  reconnect_and_validate, in_cooldown, after_reset, reset_and_reconnect, recover,
  execute_with_recovery,
}
use spf5000es_server.Recovery.Reconnect.{
  connects, operations, Within, resets, reconnect_loop-Within, resets-reconnect_loop,
}

Within-refl : (h : History) → Within 0 h h
Within-refl h = (omega arith, omega arith)

Within-trans : (m n : ℕ) (h k l : History) → Within m h k → Within n k l → Within (m + n) h l
Within-trans m n h k l (a, b) (c, d) = (omega arith, omega arith)

Within-weaken : (m n : ℕ) (h k : History) → m ≤ n → Within m h k → Within n h k
Within-weaken m n h k more (a, b) = (omega arith, b)

notify-Within : (b : Bool) (i : RecoveringInverter) → Within 0 i.history (notify b i).history
unfolding notify connects operations
notify-Within b i = elim (Bool-cases i.has_sink) [
  | inl e ↦ rw e (omega arith, omega arith)
  | inr e ↦ rw e (omega arith, omega arith)
]

resets-notify : (b : Bool) (i : RecoveringInverter) → resets (notify b i).history ≡ resets i.history
unfolding notify resets
resets-notify b i = elim (Bool-cases i.has_sink) [ inl e ↦ rw e refl | inr e ↦ rw e refl ]

last_reset-notify : (b : Bool) (i : RecoveringInverter) → (notify b i).last_reset ≡ i.last_reset
unfolding notify
last_reset-notify b i = elim (Bool-cases i.has_sink) [ inl e ↦ rw e refl | inr e ↦ rw e refl ]

module _ {A : Type 0} (env : Surroundings A) (config : RecoveryConfig) where
  abbrev retry : History → Result (Option A) × History
  retry = reconnect_and_validate env config

  retry-Within : (h : History) → Within config.reconnect_attempts h (retry h).1
  unfolding reconnect_and_validate
  retry-Within h =
      reconnect_loop-Within env config config.reconnect_attempts config.initial_backoff none h

  recovered-Within :
      (i : RecoveringInverter)
      → Within config.reconnect_attempts i.history
          (notify true (record i { history = (retry i.history).1 })).history
  recovered-Within i =
      let n = config.reconnect_attempts in
      let tried = record i { history = (retry i.history).1 } in
      Within-weaken (n + 0) n i.history (notify true tried).history (omega arith) (
        Within-trans n 0 i.history tried.history (notify true tried).history
          (retry-Within i.history) (notify-Within true tried))

  after_reset-Within :
      (x : Error) (i : RecoveringInverter)
      → Within config.reconnect_attempts i.history (after_reset env config x i).1.history
  unfolding after_reset
  after_reset-Within x i = elim (Result-cases (retry i.history).0) [
    | inl (a, e) ↦ rw (e, after_reset) (recovered-Within i)
    | inr (y, e) ↦ rw (e, after_reset) (retry-Within i.history)
  ]

  abbrev granted : RecoveringInverter → RecoveringInverter
  granted i =
      let asked = record i { history = reset ∷ i.history } in
      record asked { last_reset = some (env.now i.history) }

  reset_and_reconnect-Within :
      (x : Error) (i : RecoveringInverter)
      → Within config.reconnect_attempts i.history (reset_and_reconnect env config x i).1.history
  unfolding reset_and_reconnect connects operations
  reset_and_reconnect-Within x i =
      elim (Bool-cases (in_cooldown env config i.last_reset (env.now i.history))) [
        | inl e ↦ rw e (omega arith, omega arith)
        | inr e ↦ rw e (elim (Option-cases (env.request_reset i.history)) [
          | inr (y, f) ↦ rw f (omega arith, omega arith)
          | inl f ↦ rw f (after_reset-Within x (granted i))
        ])
      ]

  recover-Within :
      (x : Error) (i : RecoveringInverter)
      → Within (2 * config.reconnect_attempts) i.history (recover env config x i).1.history
  unfolding recover
  recover-Within x i =
      let n = config.reconnect_attempts in
      let down = notify false i in
      let tried = record down { history = (retry down.history).1 } in
      let told = notify-Within false i in
      let once = retry-Within down.history in
      let twice = λ (m : ℕ) (more : m ≤ n) (k : History) (h : Within m tried.history k).
        Within-weaken (0 + n + m) (2 * n) i.history k (omega arith) (
          Within-trans (0 + n) m i.history tried.history k
            (Within-trans 0 n i.history down.history tried.history told once) h) in
      elim (Result-cases (retry down.history).0) [
        | inl (a, e) ↦ rw (e, recover) (twice 0 (omega arith) _ (notify-Within true tried))
        | inr (y, e) ↦
            rw (e, recover)
              (elim (Bool-cases (not (is_fatal_modbus y) || env.ctx_done (retry down.history).1)) [
                | inl f ↦ rw f (twice 0 (omega arith) _ (Within-refl tried.history))
                | inr f ↦ rw f (twice n (omega arith) _ (reset_and_reconnect-Within x tried))
              ])
      ]

  -- A call with recovery reconnects at most twice as often as attempts are configured and runs the
  -- operation at most once more than that; its reconnects and runs together, which are the calls
  -- of Connect where Connect is the operation, are at most four for each attempt and one.
  pub execute_with_recovery-Bounded :
      (i : RecoveringInverter)
      → let after = (execute_with_recovery env config i).1.history in
        (connects after ≤ connects i.history + 2 * config.reconnect_attempts)
        × (operations after ≤ operations i.history + 1 + 2 * config.reconnect_attempts)
        × (connects after + operations after
            ≤ connects i.history + operations i.history + 1 + 4 * config.reconnect_attempts)
  unfolding execute_with_recovery connects operations
  execute_with_recovery-Bounded i = elim (Result-cases (env.operation i.history)) [
    | inl (a, e) ↦ rw (e, execute_with_recovery) (omega arith, omega arith, omega arith)
    | inr (y, e) ↦
        let (c, o) = recover-Within y (record i { history = operated ∷ i.history }) in
        rw (e, execute_with_recovery)
          (elim (Bool-cases (is_fatal_modbus y)) [
            | inl f ↦ rw f (omega (arith, c), omega (arith, c, o), omega (arith, c, o))
            | inr f ↦ rw f (omega arith, omega arith, omega arith)
          ])
  ]

  -- The resets of a call: none, or one outside the cooldown of the last, noted if it was granted.
  abbrev pub ResetsRightly : RecoveringInverter → RecoveringInverter → Type 0
  ResetsRightly i j =
      ((resets j.history ≡ resets i.history) × (j.last_reset ≡ i.last_reset))
      ⊎ ((h : History) × (resets j.history ≡ suc (resets i.history))
          × (in_cooldown env config i.last_reset (env.now h) ≡ false)
          × (((env.request_reset h ≡ none) × (j.last_reset ≡ some (env.now h)))
              ⊎ ((env.request_reset h ≢ none) × (j.last_reset ≡ i.last_reset))))

  resets-retry : (h : History) → resets (retry h).1 ≡ resets h
  unfolding reconnect_and_validate
  resets-retry h =
      resets-reconnect_loop env config config.reconnect_attempts config.initial_backoff none h

  resets-after_reset :
      (x : Error) (i : RecoveringInverter)
      → (resets (after_reset env config x i).1.history ≡ resets i.history)
        × ((after_reset env config x i).1.last_reset ≡ i.last_reset)
  unfolding after_reset
  resets-after_reset x i =
      let j = record i { history = (retry i.history).1 } in
      elim (Result-cases (retry i.history).0) [
        | inl (a, e) ↦
            rw (e, after_reset)
              (resets-notify true j ∙ resets-retry i.history, last_reset-notify true j)
        | inr (y, e) ↦ rw (e, after_reset) (resets-retry i.history, refl)
      ]

  resets-reset_and_reconnect :
      (x : Error) (i : RecoveringInverter) → ResetsRightly i (reset_and_reconnect env config x i).1
  unfolding reset_and_reconnect resets
  resets-reset_and_reconnect x i =
      elim (Bool-cases (in_cooldown env config i.last_reset (env.now i.history))) [
        | inl e ↦ rw e (inl (refl, refl))
        | inr e ↦ rw e (elim (Option-cases (env.request_reset i.history)) [
          | inr (y, f) ↦ rw f (inr (i.history, refl, e, inr ((λ q. cc), refl)))
          | inl f ↦
              let (n, l) = resets-after_reset x (granted i) in
              rw f (inr (i.history, n, e, inl (f, l)))
        ])
      ]

  ResetsRightly-from :
      (i j k : RecoveringInverter)
      → resets j.history ≡ resets i.history
      → j.last_reset ≡ i.last_reset
      → ResetsRightly j k
      → ResetsRightly i k
  ResetsRightly-from i j k n l (inl (a, b)) = inl (a ∙ n, b ∙ l)
  ResetsRightly-from i j k n l (inr (h, a, b, c)) = inr (
    h,
    a ∙ ap suc n,
    rw (sym l) b,
    elim c [ inl (x, y) ↦ inl (x, y) | inr (x, y) ↦ inr (x, y ∙ l) ],
  )

  resets-recover : (x : Error) (i : RecoveringInverter) → ResetsRightly i (recover env config x i).1
  unfolding recover
  resets-recover x i =
      let down = notify false i in
      let n = resets-retry down.history ∙ resets-notify false i in
      let l = last_reset-notify false i in
      let tried = record down { history = (retry down.history).1 } in
      elim (Result-cases (retry down.history).0) [
        | inl (a, e) ↦
            rw (e, recover) (inl (resets-notify true tried ∙ n, last_reset-notify true tried ∙ l))
        | inr (y, e) ↦
            rw (e, recover)
              (elim (Bool-cases (not (is_fatal_modbus y) || env.ctx_done (retry down.history).1)) [
                | inl f ↦ rw f (inl (n, l))
                | inr f ↦ rw f (
                    ResetsRightly-from i tried (reset_and_reconnect env config x tried).1 n l
                      (resets-reset_and_reconnect x tried))
              ])
      ]

  -- A call with recovery asks for no reset and keeps the time of the last, or asks for exactly
  -- one, outside the cooldown of the last; the time is noted if the reset was granted and kept as
  -- it was if it was refused.
  pub execute_with_recovery-ResetsRightly :
      (i : RecoveringInverter) → ResetsRightly i (execute_with_recovery env config i).1
  unfolding execute_with_recovery resets
  execute_with_recovery-ResetsRightly i =
      let ran = record i { history = operated ∷ i.history } in
      elim (Result-cases (env.operation i.history)) [
        | inl (a, e) ↦ rw (e, execute_with_recovery) (inl (refl, refl))
        | inr (y, e) ↦
            rw (e, execute_with_recovery)
              (elim (Bool-cases (is_fatal_modbus y)) [
                | inl f ↦ rw f (
                    ResetsRightly-from i ran (recover env config y ran).1 refl refl
                      (resets-recover y ran))
                | inr f ↦ rw f (inl (refl, refl))
              ])
      ]
