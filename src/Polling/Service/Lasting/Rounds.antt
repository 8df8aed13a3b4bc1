-- ===== src/Polling/Service/Lasting/Rounds.antt =====
-- polling.go: what stays true of the polling service over the rounds of Run.
use spf5000es_server.Prelude.{
  ℕ, refl, Bool, not, ◌&&◌, Option, none, some, List, [], ◌∷◌, arith, inl, inr, Bool-cases,
}
use spf5000es_server.Error.{Error, Result, ok, err}
use spf5000es_server.Polling.{PollingService}
use spf5000es_server.Polling.Run.{
  PollingConfig, PollingWorld, start, due_at, any_due, observe, run_commands, run_config,
  run_watchdog, run_time_sync, run_due, idle, run_pending, Due,
}
use spf5000es_server.Polling.Service.{
  Request, Running, returned, new_polling_service, answers, run_loop, run,
}
use spf5000es_server.Polling.Service.Lasting.{
  Lasting, answers-Lasting, continue-Lasting, run_commands-Lasting, run_config-Lasting,
  run_watchdog-Lasting, run_time_sync-Lasting, run_status-Lasting,
}

module _ {W : Type 0} (env : PollingWorld W) (config : PollingConfig) where
  run_due-Lasting :
      (due : Due) (s : PollingService W) → Lasting s → Lasting (run_due env config due s).1
  unfolding run_due
  run_due-Lasting due s h =
      continue-Lasting (run_commands env config due.commands s) _
        (run_commands-Lasting env config due.commands s h)
        λ wrote s₁ h₁.
          continue-Lasting (run_config env config (due.config && not wrote) s₁) _
            (run_config-Lasting env config (due.config && not wrote) s₁ h₁)
            λ _ s₂ h₂.
              continue-Lasting (run_watchdog env config due.watchdog s₂) _
                (run_watchdog-Lasting env config due.watchdog s₂ h₂)
                λ changed s₃ h₃.
                  continue-Lasting (run_time_sync env config (due.time_sync && not changed) s₃) _
                    (run_time_sync-Lasting env config (due.time_sync && not changed) s₃ h₃)
                    λ _ s₄ h₄. run_status-Lasting env config due.status s₄ h₄

  woken-Lasting :
      (r : Result Bool) (s : PollingService W) (f : Bool → PollingService W)
      → Lasting s
      → ((b : Bool) → Lasting (f b))
      → Lasting
          (elim r as (λ _. Result (Unit {0}) × PollingService W) [
            | ok woken ↦ (ok tt, f woken)
            | err e ↦ (err e, s)
          ]).1
  woken-Lasting (ok woken) s f h k = k woken
  woken-Lasting (err e) s f h k = h

  idle-Lasting : (now : ℕ) (s : PollingService W) → Lasting s → Lasting (idle env config now s).1
  unfolding idle
  idle-Lasting now s h = woken-Lasting _ _ _ h (λ b. h)

  observe-Lasting : (s : PollingService W) → Lasting s → Lasting (observe s)
  observe-Lasting s (room, version, observed, set) = elim (Bool-cases s.polling_enabled) [
    | inl on ↦ rw on (room, version, version, set)
    | inr off ↦ rw off (room, version, observed, set)
  ]

  run_pending-Lasting : (s : PollingService W) → Lasting s → Lasting (run_pending env config s).1
  unfolding run_pending
  run_pending-Lasting s h =
      let due = due_at (env.now s.world) s in
      elim (Bool-cases (any_due due)) [
        | inl work ↦ rw work (run_due-Lasting due (observe s) (observe-Lasting s h))
        | inr nothing ↦
            rw nothing (idle-Lasting (env.now s.world) (observe s) (observe-Lasting s h))
      ]

  module _ (ctx_err : W → Option Error) where
    ended-Lasting :
        (o : Option Error) (begun : PollingService W) (r : Result (Unit {0}))
        (s' : PollingService W) (rest : Running × PollingService W)
        → Lasting begun
        → Lasting s'
        → Lasting rest.1
        → Lasting
            (elim o as (λ _. Running × PollingService W) [
              | some e ↦ (returned e, begun)
              | none ↦ elim r [ ok done ↦ rest | err e ↦ (returned e, s') ]
            ]).1
    ended-Lasting (some e) begun r s' rest h h' k = h
    ended-Lasting none begun (ok done) s' rest h h' k = k
    ended-Lasting none begun (err e) s' rest h h' k = h'

    run_loop-Lasting :
        (batches : List (List Request)) (s : PollingService W)
        → Lasting s
        → Lasting (run_loop env config ctx_err batches s).1
    unfolding run_loop
    run_loop-Lasting [] s h = h
    run_loop-Lasting (requests ∷ batches) s h =
        let begun = answers requests s in
        let h₁ = answers-Lasting requests s h in
        let h₂ = run_pending-Lasting begun h₁ in
        ended-Lasting (ctx_err begun.world) begun (run_pending env config begun).0
          (run_pending env config begun).1
          (run_loop env config ctx_err batches (run_pending env config begun).1) h₁ h₂
          (run_loop-Lasting batches (run_pending env config begun).1 h₂)

    -- Whatever requests come before Start and between the rounds of Run, and however Run ends, the
    -- queue of a new service that is started stays within its size, its versions within a uint64,
    -- and once it is started its four deadlines are set.
    pub run-Lasting :
        (world : W) (early : List Request) (batches : List (List Request))
        → Lasting
            (run env config ctx_err batches
              (start env.now (answers early (new_polling_service world)))).1
    unfolding run start new_polling_service
    run-Lasting world early batches =
        let (room, version, observed, set) =
          answers-Lasting early (new_polling_service world)
            (omega arith, omega arith, omega arith, refl) in
        run_loop-Lasting batches (start env.now (answers early (new_polling_service world)))
          (room, version, observed, refl)
