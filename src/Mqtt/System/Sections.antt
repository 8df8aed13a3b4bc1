-- ===== src/Mqtt/System/Sections.antt =====
-- mqtt.go: what a section leaves as it was of the connection.
use spf5000es_server.Prelude.{
  ℕ, ◌≡◌, refl, Bool, true, false, List, [], Text, if◌then◌else◌, ◌==◌, arith, Bool-cases, eq_text,
  ◌||◌, ◌&&◌, Option-cases, inl, inr,
}
use spf5000es_server.Value.{ParseFloat}
use spf5000es_server.Config.{MqttConfig}
use spf5000es_server.Mqtt.Service.{
  MqttService, Payload, availability_changed, publish, update_battery_type, take_updates,
}
use spf5000es_server.Mqtt.Service.Publisher.{
  Formats, Action, send, learn_battery, remember, settle, discover, settle_initial, begin_updates,
  perform,
}

-- Polling is enabled while connected, and without a connection nothing counts as announced.
pub record Consistent (s : MqttService) : Type 0 where
  pub polling : s.polling_enabled ≡ s.connected
  pub unannounced :
      s.connected ≡ false
      → (s.initial_config_published ≡ false)
        × (s.initial_status_published ≡ false)
        × (s.online_published ≡ false)

-- A step that keeps what tells the connection.
abbrev pub Keeps : MqttService → MqttService → Type 0
Keeps s s' =
    (s'.connected ≡ s.connected)
    × (s'.connection_id ≡ s.connection_id)
    × (Consistent s → Consistent s')

pub publish-Keeps :
    (topic : Text) (payload : Payload) (s : MqttService) → Keeps s (publish topic payload s)
unfolding publish
publish-Keeps topic payload s = elim (Option-cases s.client) [
  | inl e ↦ rw e (refl, refl, λ c. c)
  | inr (client, e) ↦
      rw e (refl, refl, λ c. record { polling = c.polling; unannounced = c.unannounced })
]

update_battery_type-Keeps :
    (battery : Text) (s : MqttService) → Keeps s (update_battery_type battery s)
unfolding update_battery_type
update_battery_type-Keeps battery s =
    elim (Bool-cases (eq_text battery [] || eq_text battery s.battery_type)) [
      | inl e ↦ rw e (refl, refl, λ c. c)
      | inr e ↦ rw e (refl, refl, λ c. record { polling = c.polling; unannounced = c.unannounced })
    ]

pub take_updates-Keeps : (s : MqttService) → Keeps s (take_updates s).1
unfolding take_updates
take_updates-Keeps s = elim (Bool-cases (s.updates_pending || s.status_dirty || s.config_dirty)) [
  | inl e ↦ rw e (refl, refl, λ c. record { polling = c.polling; unannounced = c.unannounced })
  | inr e ↦ rw e (refl, refl, λ c. c)
]

pub availability_changed-Keeps :
    (available : Bool) (s : MqttService) → Keeps s (availability_changed available s).1
unfolding availability_changed
availability_changed-Keeps available s = (
  refl,
  refl,
  λ c. record { polling = c.polling; unannounced = λ down. ground (arith, c.unannounced down) },
)

Keeps-if :
    (s : MqttService) (c : Bool) (x y : List Action × MqttService)
    → (c ≡ true → Keeps s x.1)
    → (c ≡ false → Keeps s y.1)
    → Keeps s (if c then x else y).1
Keeps-if s true x y then_keeps else_keeps = then_keeps refl
Keeps-if s false x y then_keeps else_keeps = else_keeps refl

connected_and : (s : MqttService) (b : Bool) → (s.connected && b) ≡ true → s.connected ≡ false → ⊥
connected_and s b both down = ground arith

module _ (config : MqttConfig) (base : Text) (parse_float : ParseFloat) (formats : Formats) where
  pub begin_updates-Keeps :
      (s : MqttService) → Keeps s (begin_updates config base parse_float formats s).1
  unfolding begin_updates
  begin_updates-Keeps s =
      Keeps-if s s.connected _ _
        (λ _. (refl, refl, λ c. record { polling = c.polling; unannounced = c.unannounced }))
        (λ _. (refl, refl, λ c. record { polling = c.polling; unannounced = c.unannounced }))

  settle_initial-Keeps :
      (id : ℕ) (c st : Bool) (s : MqttService)
      → Keeps s (settle_initial config base parse_float formats id c st s).1
  unfolding settle_initial
  settle_initial-Keeps id c st s =
      Keeps-if s (s.connected && id == s.connection_id) _ _
        (λ up.
          let down = connected_and s (id == s.connection_id) up in
          Keeps-if s ((s.initial_config_published || c) && (s.initial_status_published || st)) _ _
            (λ _.
              (refl, refl, λ c. record { polling = c.polling; unannounced = λ h. absurd (down h) }))
            (λ _. (
              refl,
              refl,
              λ c. record { polling = c.polling; unannounced = λ h. absurd (down h) },
            )))
        (λ _. (refl, refl, λ c. c))

  pub perform-Keeps :
      (a : Action) (s : MqttService) → Keeps s (perform config base parse_float formats a s).1
  unfolding perform
  perform-Keeps (send topic payload) s = publish-Keeps topic payload s
  perform-Keeps (learn_battery battery) s = update_battery_type-Keeps battery s
  perform-Keeps (remember values) s =
      (refl, refl, λ c. record { polling = c.polling; unannounced = c.unannounced })
  perform-Keeps (settle id c st) s = settle_initial-Keeps id c st s
  perform-Keeps discover s = publish-Keeps _ _ s
