-- ===== src/Mqtt/Discovery/Announcing.antt =====
-- mqtt.go: the command topic of a register in the discovery document, against handleCommand's routing.
use spf5000es_server.Prelude.{
  ◌≡◌, refl, ap, ◌∙◌, Bool, true, false, ◌||◌, Option, none, some, List, [], ◌∷◌, Text, String,
  eq_string, lookup, lookup-insert, inl, inr, if◌then◌else◌, if_true, if_false, Bool-cases,
}
use spf5000es_server.Value.{Config, ParseFloat}
use spf5000es_server.Config.{MqttConfig}
use spf5000es_server.Register.{RegisterDef, WriteValue}
use spf5000es_server.Register.Holdings.{holding_registers}
use spf5000es_server.Register.Windows.{find_register}
use spf5000es_server.Register.Windows.Finding.{find_register-key}
use spf5000es_server.Register.Limits.{
  is_some, is_char, is_boolean_key, select_options, discovery_number_limits,
}
use spf5000es_server.Mqtt.Topics.{command_topic, route, config_key}
use spf5000es_server.Mqtt.Topics.Routing.{route-command_topic}
use spf5000es_server.Mqtt.Discovery.Metadata.{
  Field, text, texts, flag, number, field, Fields, merge, sensor_metadata,
}
use spf5000es_server.Mqtt.Discovery.{
  Component, remove, assign, config_base, number_component, writable_component, config_discovery,
  battery_unit_metadata, is_boolean_register, switch_fields, boolean_fields, state_fields,
}
use spf5000es_server.Mqtt.Discovery.Lacking.{
  announced, announced-insert, announced-merge, announced-remove, lacks-battery_unit_metadata,
  lacks-sensor_metadata,
}

announced-sensor :
    (fields : Fields) (key : String)
    → announced (merge fields (sensor_metadata key)) ≡ announced fields
announced-sensor fields key =
    announced-merge fields (sensor_metadata key) (lacks-sensor_metadata key)

-- The battery's unit in place of the sensor's.
announced-united :
    (limited : Fields) (battery : Text)
    → announced (
        merge
          (remove "state_class" (remove "unit_of_measurement" (remove "device_class" limited)))
          (battery_unit_metadata battery))
      ≡ announced limited
announced-united limited battery =
    announced-merge _ (battery_unit_metadata battery) (lacks-battery_unit_metadata battery)
    ∙ announced-remove "state_class" _ refl
    ∙ announced-remove "unit_of_measurement" _ refl
    ∙ announced-remove "device_class" limited refl

announced-if :
    (test : Bool) (xs ys : Fields) (o : Option Field)
    → announced xs ≡ o
    → announced ys ≡ o
    → announced (if test then xs else ys) ≡ o
announced-if true xs ys o h k = h
announced-if false xs ys o h k = k

module _ (config : MqttConfig) (base : Text) (last_config : Config) (battery_type : Text) where
  number_component-announced :
      (key : String) (fields : Fields)
      → announced (number_component config base last_config battery_type key fields).payload
        ≡ announced fields
  unfolding number_component merge
  number_component-announced key fields =
      let limits = discovery_number_limits key last_config battery_type in
      let limited =
        assign
          (("min", number limits.minimum)
            ∷ ("max", number limits.maximum)
            ∷ ("step", number limits.step)
            ∷ [])
          (merge fields (sensor_metadata key)) in
      let kept : announced limited ≡ announced fields =
        announced-merge _
          (("min", number limits.minimum)
            ∷ ("max", number limits.maximum)
            ∷ ("step", number limits.step)
            ∷ [])
          refl
        ∙ announced-sensor fields key in
      announced-merge _ (field "mode" "box" ∷ ("optimistic", flag true) ∷ []) refl
      ∙ announced-if (eq_string key "BatLowtoUti" || eq_string key "uwAC2BatVolt") _ limited
          (announced fields) (announced-united limited battery_type ∙ kept) kept

  writable_component-announced :
      (options : Option (List String)) (d : RegisterDef) (fields : Fields)
      → announced (writable_component config base last_config battery_type options d fields).payload
        ≡ announced fields
  unfolding writable_component
  writable_component-announced (some options) d fields =
      announced-merge (merge fields (sensor_metadata d.key))
        (("options", texts options) ∷ ("optimistic", flag true) ∷ []) refl
      ∙ announced-sensor fields d.key
  writable_component-announced none d fields =
      let sensor = merge fields (sensor_metadata d.key) in
      let switched = announced-merge sensor switch_fields refl ∙ announced-sensor fields d.key in
      let typed =
        announced-merge sensor (("optimistic", flag true) ∷ []) refl
        ∙ announced-sensor fields d.key in
      elim (Bool-cases (is_boolean_key d.key)) [
        | inl e ↦ ap (λ (c : Component). announced c.payload) (if_true _ _ e) ∙ switched
        | inr e ↦ elim (Bool-cases (is_char d.kind)) [
          | inl c ↦
              ap (λ (c : Component). announced c.payload) (if_false _ _ e ∙ if_true _ _ c) ∙ typed
          | inr c ↦
              ap (λ (c : Component). announced c.payload) (if_false _ _ e ∙ if_false _ _ c)
              ∙ number_component-announced d.key fields
        ]
      ]

  config_base-announced :
      (d : RegisterDef)
      → is_some d.write ≡ true
      → announced (config_base config base last_config battery_type d)
        ≡ some (text (command_topic base d.key))
  unfolding config_base merge
  config_base-announced d written =
      ap announced (if_true _ _ written)
      ∙ announced-insert "qos" _ _ refl
      ∙ announced-insert "retain" _ _ refl
      ∙ lookup-insert "command_topic" "command_topic" _ _

  config_discovery-announced :
      (d : RegisterDef)
      → is_some d.write ≡ true
      → announced (config_discovery config base last_config battery_type d).payload
        ≡ some (text (command_topic base d.key))
  unfolding config_discovery
  config_discovery-announced d written =
      let started = config_base config base last_config battery_type d in
      let boolean =
        announced-merge (assign boolean_fields started) state_fields refl
        ∙ announced-merge started boolean_fields refl
        ∙ config_base-announced d written in
      elim (Bool-cases (is_boolean_register d.key)) [
        | inl e ↦
            ap (λ (c : Component). announced c.payload) (if_true _ _ e ∙ if_true _ _ written)
            ∙ boolean
        | inr e ↦
            ap (λ (c : Component). announced c.payload) (if_false _ _ e ∙ if_true _ _ written)
            ∙ writable_component-announced (lookup d.key select_options) d started
            ∙ config_base-announced d written
      ]

-- The discovery document of a holding register that is found in the table and can be written
-- announces a command topic, and the routing of that topic is to the register's key, whatever the
-- configuration, the last config and the battery type.
pub config_discovery-Routed :
    (parse_float : ParseFloat) (config : MqttConfig) (base : Text) (last_config : Config)
    (battery_type : Text) (key : String) (d : RegisterDef) (w : WriteValue)
    → find_register key (holding_registers parse_float) ≡ some d
    → d.write ≡ some w
    → (topic : Text) × (lookup "command_topic"
          (config_discovery config base last_config battery_type d).payload
        ≡ some (text topic))
      × (route base (holding_registers parse_float) topic ≡ config_key key)
config_discovery-Routed parse_float config base last_config battery_type key d w found written =
    let same = find_register-key key (holding_registers parse_float) d found in
    let announces =
      config_discovery-announced config base last_config battery_type d (ap is_some written) in
    (
      command_topic base key,
      announces ∙ ap (λ k. some (text (command_topic base k))) same,
      route-command_topic parse_float base key d found,
    )
