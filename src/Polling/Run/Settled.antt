-- ===== src/Polling/Run/Settled.antt =====
-- polling.go: what a step of runPending that ends without an error leaves due.
use spf5000es_server.Prelude.{
  ℕ, ◌<◌, ◌≡◌, refl, sym, ap, ◌∙◌, Bool, true, false, not, ◌&&◌, ◌||◌, ◌==◌, if◌then◌else◌, arith,
}
use spf5000es_server.Error.{Result, ok, err}
use spf5000es_server.Exec.{Gives, Gives-bind, Gives-weaken, Gives-if}
use spf5000es_server.Polling.{PollingService}
use spf5000es_server.Polling.Run.{
  PollingConfig, PollingWorld, Due, due_at, observe, any_due, reached, run_commands, run_config,
  run_watchdog, run_time_sync, run_status, run_due, idle, run_pending,
}
use spf5000es_server.Polling.Run.Stages.{View, view, Advances, At}
use spf5000es_server.Polling.Run.Stages.Parts.{
  run_commands-At, run_config-At, run_watchdog-At, run_time_sync-At, run_status-At,
}

-- Nothing is due at the time, but a time sync that the step itself asked for.
abbrev pub Settled : {W : Type 0} → ℕ → PollingService W → Type 0
Settled t s =
    let due = due_at t s in
    (due.commands ≡ false)
    × (due.config ≡ false)
    × (due.watchdog ≡ false)
    × (due.status ≡ false)
    × (due.time_sync ≡ s.time_sync_requested)

ended : (done flag : Bool) → (flag && not done) ≡ false → (if done then false else flag) ≡ false
ended done flag h = ground arith

ended_unless :
    (due wrote flag : Bool)
    → (flag && not due) ≡ false
    → (if due && not wrote then false else if wrote then false else flag) ≡ false
ended_unless due wrote flag h = ground arith

synced :
    (due changed flag asked : Bool)
    → (flag && not due) ≡ false
    → asked ≡ false
    → (if due && not changed then false else changed || flag)
      ≡ (if due && not changed then false else changed || asked)
synced due changed flag asked h k = ground arith

stays : (flag : Bool) → (flag && not flag) ≡ false
stays flag = ground arith

unobserved :
    (enabled : Bool) (version held : ℕ)
    → (enabled && not (version == (if enabled then version else held))) ≡ false
unobserved true version held = ground arith
unobserved false version held = refl

-- What is due after the version was observed and the request received was due before.
off_fresh : (a b : Bool) (c : Bool) → c ≡ false → ((a || c) && not (a || b)) ≡ false
off_fresh a b c h = ground arith

quiet : (flag due : Bool) → (flag && not due) ≡ false → due ≡ false → flag ≡ false
quiet flag due h k = ground arith

none_due :
    (due : Due)
    → any_due due ≡ false
    → (due.commands ≡ false)
      × (due.config ≡ false)
      × (due.watchdog ≡ false)
      × (due.time_sync ≡ false)
      × (due.status ≡ false)
none_due due h = (ground arith, ground arith, ground arith, ground arith, ground arith)

Settled-At :
    {W : Type 0} (t : ℕ) (v : View) (s : PollingService W)
    → v.0.commands ≡ false
    → v.0.config ≡ false
    → v.0.watchdog ≡ false
    → v.0.status ≡ false
    → v.0.time_sync ≡ v.1
    → view t s ≡ v
    → Settled t s
unfolding view
Settled-At t v s h₀ h₁ h₂ h₃ h₄ seen = (
  ap (λ (x : View). x.0.commands) seen ∙ h₀,
  ap (λ (x : View). x.0.config) seen ∙ h₁,
  ap (λ (x : View). x.0.watchdog) seen ∙ h₂,
  ap (λ (x : View). x.0.status) seen ∙ h₃,
  ap (λ (x : View). x.0.time_sync) seen ∙ h₄ ∙ sym (ap (λ (x : View). x.1) seen),
)

Gives-woken :
    {W : Type 0} (Q : W → Type 0) (r : Result Bool) (f : Bool → W) (w : W)
    → ((b : Bool) → Q (f b))
    → Gives {A = Unit {0}} (λ _. Q) (elim r [ ok woken ↦ (ok tt, f woken) | err e ↦ (err e, w) ])
Gives-woken Q (ok woken) f w h = h woken
Gives-woken Q (err e) f w h = tt

-- Waiting changes nothing of what is due.
idle-Settled :
    {W : Type 0} (env : PollingWorld W) (config : PollingConfig) (now : ℕ) (s : PollingService W)
    → Settled now s
    → Gives (λ _ s'. Settled now s') (idle env config now s)
unfolding idle due_at
idle-Settled env config now s h = Gives-woken (Settled now) _ _ _ (λ b. h)

module _ {W : Type 0} (env : PollingWorld W) (config : PollingConfig)
    (advances : Advances env) where
  run_due-Settled :
      (t : ℕ) (due : Due) (v : View) (s : PollingService W)
      → 0 < config.config_interval
      → 0 < config.status_interval
      → v.0.commands ≡ due.commands
      → (v.0.config && not due.config) ≡ false
      → (v.0.watchdog && not due.watchdog) ≡ false
      → (v.0.time_sync && not due.time_sync) ≡ false
      → (v.0.status && not due.status) ≡ false
      → v.1 ≡ false
      → At env config t advances v s
      → Gives (λ _ s'. Settled t s') (run_due env config due s)
  unfolding run_due view
  run_due-Settled t due v s pos pos' h₀ h₁ h₂ h₃ h₄ h₅ h =
      Gives-bind _ (λ _ s'. Settled t s') (run_commands env config due.commands s) _
        (run_commands-At env config t advances due.commands v s h₀ h)
        λ wrote s₁ a₁.
          Gives-bind _ (λ _ s'. Settled t s') (run_config env config (due.config && not wrote) s₁) _
            (run_config-At env config t advances (due.config && not wrote) _ s₁ pos a₁)
            λ _ s₂ a₂.
              Gives-bind _ (λ _ s'. Settled t s') (run_watchdog env config due.watchdog s₂) _
                (run_watchdog-At env config t advances due.watchdog _ s₂ a₂)
                λ changed s₃ a₃.
                  Gives-bind _ (λ _ s'. Settled t s')
                    (run_time_sync env config (due.time_sync && not changed) s₃) _
                    (run_time_sync-At env config t advances (due.time_sync && not changed) _ s₃ a₃)
                    λ _ s₄ a₄.
                      Gives-weaken _ (λ _ s'. Settled t s') (run_status env config due.status s₄)
                        (λ _ s₅ a₅.
                          Settled-At t _ s₅ refl (ended_unless due.config wrote v.0.config h₁)
                            (ended due.watchdog v.0.watchdog h₂) (ended due.status v.0.status h₄)
                            (synced due.time_sync changed v.0.time_sync v.1 h₃ h₅) a₅.2)
                        (run_status-At env config t advances due.status _ s₄ pos' a₄)

  observe-At :
      (t : ℕ) (s : PollingService W)
      → t ≡ env.now s.world
      → At env config t advances (view t (observe s)) (observe s)
  observe-At t s h =
      (omega arith, unobserved s.polling_enabled s.polling_version s.observed_version, refl)

  -- Where the clock does not run backwards over the calls of the service and the two intervals are
  -- positive, a step of runPending that ends without an error leaves nothing due at the time at
  -- which it began: no command, config, watchdog or status, and a time sync only where it is
  -- requested.
  pub run_pending-Settled :
      (s : PollingService W)
      → 0 < config.config_interval
      → 0 < config.status_interval
      → Gives (λ _ s'. Settled (env.now s.world) s') (run_pending env config s)
  unfolding run_pending view due_at
  run_pending-Settled s pos pos' =
      let t = env.now s.world in
      let due = due_at t s in
      let started = s.polling_enabled && s.started in
      let observed = unobserved s.polling_enabled s.polling_version s.observed_version in
      let config_before =
        off_fresh (started && reached s.config_deadline t)
          (s.polling_enabled && not (s.polling_version == s.observed_version)) _ observed in
      let status_before =
        off_fresh (started && reached s.status_deadline t)
          (s.polling_enabled && not (s.polling_version == s.observed_version)) _ observed in
      let time_sync_before =
        off_fresh (s.started && reached s.time_sync_deadline t) s.time_sync_requested false refl in
      Gives-if (λ _ s'. Settled t s') (any_due due) (run_due env config due (observe s))
        (idle env config t (observe s))
        (λ work.
          run_due-Settled t due (view t (observe s)) (observe s) pos pos' refl config_before
            (stays due.watchdog) time_sync_before status_before refl (observe-At t s refl))
        (λ nothing.
          let (c, k, w, y, u) = none_due due nothing in
          idle-Settled env config t (observe s) (
            c,
            quiet _ due.config config_before k,
            w,
            quiet _ due.status status_before u,
            quiet _ due.time_sync time_sync_before y,
          ))
