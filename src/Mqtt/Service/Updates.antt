-- ===== src/Mqtt/Service/Updates.antt =====
-- mqtt.go: the rounds of Run, and what one of them publishes.
use spf5000es_server.Prelude.{
  ℕ, zero, suc, ◌≡◌, refl, ◌∙◌, Bool, true, false, ◌||◌, none, some, List, [], ◌∷◌, Text, inl, inr,
  arith, Bool-cases, Option-cases,
}
use spf5000es_server.Value.{ParseFloat}
use spf5000es_server.Config.{MqttConfig}
use spf5000es_server.Mqtt.Service.{Payload, MqttService, publish, update_battery_type, take_updates}
use spf5000es_server.Mqtt.Service.Publisher.{
  Formats, Action, send, learn_battery, remember, settle, discover, settle_initial, begin_updates,
  perform, perform_last, perform_all, publish_updates, run_pending, run_to_select,
}

-- Nothing waits to be published.
abbrev pub Quiet : MqttService → Type 0
Quiet s = (s.status_dirty ≡ false) × (s.config_dirty ≡ false) × (s.updates_pending ≡ false)

module _ (config : MqttConfig) (base : Text) (parse_float : ParseFloat) (formats : Formats) where
  publish-Quiet :
      (topic : Text) (payload : Payload) (s : MqttService)
      → Quiet s
      → Quiet (publish topic payload s)
  unfolding publish
  publish-Quiet topic payload s h = elim (Option-cases s.client) [
    | inl e ↦ rw e h
    | inr (c, e) ↦ rw e h
  ]

  perform-Quiet :
      (a : Action) (s : MqttService)
      → Quiet s
      → Quiet (perform config base parse_float formats a s).1
  unfolding perform update_battery_type settle_initial
  perform-Quiet (send topic payload) s h = publish-Quiet topic payload s h
  perform-Quiet (learn_battery battery) s h = ground arith
  perform-Quiet (remember values) s h = h
  perform-Quiet (settle id c st) s h = ground arith
  perform-Quiet discover s h = publish-Quiet _ _ s h

  perform_last-Quiet :
      (todo : List Action) (s : MqttService)
      → Quiet s
      → Quiet (perform_last config base parse_float formats todo s)
  unfolding perform_last
  perform_last-Quiet [] s h = h
  perform_last-Quiet (a ∷ todo) s h = perform_last-Quiet todo _ (perform-Quiet a s h)

  perform_all-Quiet :
      (todo : List Action) (s : MqttService)
      → Quiet s
      → Quiet (perform_all config base parse_float formats todo s)
  unfolding perform_all
  perform_all-Quiet [] s h = h
  perform_all-Quiet (a ∷ todo) s h =
      perform_all-Quiet todo _
        (perform_last-Quiet (perform config base parse_float formats a s).0 _ (perform-Quiet a s h))

  abbrev due : MqttService → Bool
  due s = s.updates_pending || s.status_dirty || s.config_dirty

  run_pending-due :
      (s : MqttService)
      → due s ≡ true
      → run_pending config base parse_float formats s ≡ (
        true,
        publish_updates config base parse_float formats (record s { updates_pending = false }),
      )
  unfolding run_pending take_updates
  run_pending-due s h = rw (h, run_pending, take_updates) refl

  run_pending-idle :
      (s : MqttService) → due s ≡ false → run_pending config base parse_float formats s ≡ (false, s)
  unfolding run_pending take_updates
  run_pending-idle s h = rw (h, run_pending, take_updates) refl

  begin_updates-Quiet :
      (s : MqttService)
      → s.connected ≡ true
      → s.updates_pending ≡ false
      → Quiet (begin_updates config base parse_float formats s).1
  unfolding begin_updates
  begin_updates-Quiet s up taken = rw (up, begin_updates) (refl, refl, taken)

  publish_updates-Quiet :
      (s : MqttService)
      → s.connected ≡ true
      → s.updates_pending ≡ false
      → Quiet (publish_updates config base parse_float formats s)
  unfolding publish_updates
  publish_updates-Quiet s up taken =
      let (todo, begun) = begin_updates config base parse_float formats s in
      perform_all-Quiet todo begun (begin_updates-Quiet s up taken)

  -- Where the service is connected, two rounds of Run's loop reach its select, with no status,
  -- config or update left to publish.
  pub run_to_select-connected :
      (s : MqttService)
      → s.connected ≡ true
      → (s' : MqttService) × (run_to_select config base parse_float formats 2 s ≡ some s')
        × Quiet s'
  unfolding run_to_select
  run_to_select-connected s up = elim (Bool-cases (due s)) [
    | inr idle ↦ (s, rw (run_pending-idle s idle, run_to_select) refl, ground arith)
    | inl work ↦
        let s' =
          publish_updates config base parse_float formats (record s { updates_pending = false }) in
        let quiet : Quiet s' =
          publish_updates-Quiet (record s { updates_pending = false }) up refl in
        let idle : due s' ≡ false = ground (arith, quiet) in
        (
          s',
          rw (run_pending-due s work, run_to_select)
              (rw (run_pending-idle s' idle, run_to_select) refl),
          quiet,
        )
  ]

  run_pending-deferred :
      (s : MqttService)
      → s.connected ≡ false
      → (s.status_dirty || s.config_dirty) ≡ true
      → run_pending config base parse_float formats s ≡ (true, record s { updates_pending = true })
  unfolding publish_updates begin_updates perform_all
  run_pending-deferred s down dirty =
      run_pending-due s (ground arith)
      ∙ rw (down, publish_updates, begin_updates, perform_all) (rw dirty refl)

  -- Where the service is not connected and a status or config is dirty, no number of rounds of
  -- Run's loop reaches its select.
  pub run_to_select-disconnected :
      (rounds : ℕ) (s : MqttService)
      → s.connected ≡ false
      → (s.status_dirty || s.config_dirty) ≡ true
      → run_to_select config base parse_float formats rounds s ≡ none
  unfolding run_to_select
  run_to_select-disconnected zero s down dirty = refl
  run_to_select-disconnected (suc rounds) s down dirty =
      rw (run_pending-deferred s down dirty, run_to_select)
        (run_to_select-disconnected rounds (record s { updates_pending = true }) down dirty)
