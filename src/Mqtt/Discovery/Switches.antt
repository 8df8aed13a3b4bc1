-- ===== src/Mqtt/Discovery/Switches.antt =====
-- mqtt.go and registers.go: what is read of a register that is announced as a switch or binary sensor.
use spf5000es_server.Prelude.{
  ◌≡◌, refl, sym, ap, ◌∙◌, Bool, true, false, Option, some, String, Text, codes, eq_string, lookup,
  insert, lookup-insert, if◌then◌else◌, if_true, if_false, ◌⊎◌, inl, inr, pos, eqb_ℤ, ℤ, not,
  Bool-cases,
}
use mathlib.Core.Path.{subst}
use spf5000es_server.Error.{Result, ok, err, message, ◌>>=◌}
use spf5000es_server.Value.{Value, bool, Config, ParseFloat}
use spf5000es_server.Config.{MqttConfig}
use spf5000es_server.Register.{RegisterDef, RawRegisterValue, raw_as_int64}
use spf5000es_server.Register.Codecs.{as_bool, enum_read, enum_value, or_error}
use spf5000es_server.Register.Enums.{over_temp_restart}
use spf5000es_server.Register.Holdings.{holding_registers}
use spf5000es_server.Register.Holdings.WriteBack.{Each, done, ◌◂◌, Each→All}
use spf5000es_server.Register.Windows.{find_register}
use spf5000es_server.Register.Windows.Finding.{find_register-All, find_register-key}
use spf5000es_server.Register.Limits.{is_boolean_key, is_some}
use spf5000es_server.Mqtt.Discovery.Metadata.{Field, text, Fields, merge}
use spf5000es_server.Mqtt.Discovery.{
  Component, component, is_boolean_register, boolean_fields, state_fields, config_base,
  config_discovery,
}
use spf5000es_server.Mqtt.Service.Publisher.{Formats, mqtt_value}

abbrev IsBool : Value → Type 0
IsBool v = (b : Bool) × (v ≡ bool b)

-- What is read without an error is a bool.
abbrev GivesBool : Result Value → Type 0
GivesBool (ok v) = IsBool v
GivesBool (err e) = Unit {0}

abbrev Switched : RegisterDef → Type 0
Switched d = is_boolean_register d.key ≡ true → (raw : RawRegisterValue) → GivesBool (d.read raw)

other : {A : Type 0} → false ≡ true → A
other h = cc

module _ (parse_float : ParseFloat) where
  as_bool-GivesBool :
      (number : Result ℤ) → GivesBool (number >>= λ n. ok (bool (not (eqb_ℤ n (pos 0)))))
  as_bool-GivesBool (ok n) = (_, refl)
  as_bool-GivesBool (err e) = tt

  over_temp-GivesBool :
      (number : Result ℤ)
      → GivesBool
          (number >>= λ n. or_error (enum_value n over_temp_restart) (message "unknown enum value"))
  unfolding or_error enum_value
  over_temp-GivesBool (ok n) = elim (Bool-cases (eqb_ℤ (pos 0) n)) [
    | inl zero ↦ rw zero (true, refl)
    | inr nonzero ↦ elim (Bool-cases (eqb_ℤ (pos 1) n)) [
      | inl one ↦ rw (nonzero, one) (false, refl)
      | inr more ↦ rw (nonzero, more) tt
    ]
  ]
  over_temp-GivesBool (err e) = tt

  registers-Switched : Each Switched (holding_registers parse_float)
  unfolding holding_registers is_boolean_key as_bool enum_read
  registers-Switched =
      let switch = λ (h : true ≡ true) (raw : RawRegisterValue).
        as_bool-GivesBool (raw_as_int64 parse_float raw) in
      let restart = λ (h : true ≡ true) (raw : RawRegisterValue).
        over_temp-GivesBool (raw_as_int64 parse_float raw) in
      other ◂ other ◂ other ◂ other ◂ other ◂ other ◂ other ◂ other ◂ other ◂ other ◂ other ◂ other
      ◂ other ◂ other ◂ other ◂ other ◂ other ◂ restart ◂ switch ◂ other ◂ other ◂ other ◂ other
      ◂ other ◂ other ◂ other ◂ other ◂ other ◂ other ◂ other ◂ other ◂ other ◂ other ◂ other
      ◂ other ◂ other ◂ other ◂ other ◂ other ◂ other ◂ other ◂ other ◂ switch ◂ other ◂ other
      ◂ other ◂ other ◂ other ◂ other ◂ other ◂ other ◂ other ◂ other ◂ other ◂ other ◂ other
      ◂ other ◂ other ◂ other ◂ other ◂ other ◂ other ◂ other ◂ other ◂ switch ◂ switch ◂ switch
      ◂ switch ◂ switch ◂ switch ◂ switch ◂ switch ◂ switch ◂ other ◂ other ◂ switch ◂ done

module _ (config : MqttConfig) (base : Text) (last_config : Config) (battery_type : Text) where
  -- What the component announces for a key.
  abbrev announces : RegisterDef → String → Option Field
  announces d key = lookup key (config_discovery config base last_config battery_type d).payload

  lookup-other :
      (wanted key : String) (value : Field) (fields : Fields)
      → eq_string key wanted ≡ false
      → lookup wanted (insert key value fields) ≡ lookup wanted fields
  lookup-other wanted key value fields h = lookup-insert key wanted value fields ∙ if_false _ _ h

  lookup-boolean :
      (wanted : String) (b : Bool) (fields : Fields) (o : Option Field)
      → lookup wanted (merge (merge fields boolean_fields) state_fields) ≡ o
      → lookup wanted (merge fields boolean_fields) ≡ o
      → lookup wanted
          (if b
            then component "switch" (merge (merge fields boolean_fields) state_fields)
            else component "binary_sensor" (merge fields boolean_fields)).payload
        ≡ o
  lookup-boolean wanted true fields o h k = h
  lookup-boolean wanted false fields o h k = k

  payload_on-announced :
      (d : RegisterDef)
      → is_boolean_register d.key ≡ true
      → announces d "payload_on" ≡ some (text (codes "true"))
  unfolding config_discovery merge
  payload_on-announced d switched =
      let started = config_base config base last_config battery_type d in
      let on : lookup "payload_on" (merge started boolean_fields) ≡ some (text (codes "true")) =
        lookup-other "payload_on" "icon" _ _ refl
        ∙ lookup-other "payload_on" "payload_off" _ _ refl
        ∙ lookup-insert "payload_on" "payload_on" _ started in
      ap (λ (c : Component). lookup "payload_on" c.payload) (if_true _ _ switched)
      ∙ lookup-boolean "payload_on" (is_some d.write) started _
          (lookup-other "payload_on" "optimistic" _ _ refl
            ∙ lookup-other "payload_on" "state_off" _ _ refl
            ∙ lookup-other "payload_on" "state_on" _ _ refl
            ∙ on)
          on

  payload_off-announced :
      (d : RegisterDef)
      → is_boolean_register d.key ≡ true
      → announces d "payload_off" ≡ some (text (codes "false"))
  unfolding config_discovery merge
  payload_off-announced d switched =
      let started = config_base config base last_config battery_type d in
      let off : lookup "payload_off" (merge started boolean_fields) ≡ some (text (codes "false")) =
        lookup-other "payload_off" "icon" _ _ refl
        ∙ lookup-insert "payload_off" "payload_off" _ _ in
      ap (λ (c : Component). lookup "payload_off" c.payload) (if_true _ _ switched)
      ∙ lookup-boolean "payload_off" (is_some d.write) started _
          (lookup-other "payload_off" "optimistic" _ _ refl
            ∙ lookup-other "payload_off" "state_off" _ _ refl
            ∙ lookup-other "payload_off" "state_on" _ _ refl
            ∙ off)
          off

  -- A Boolean is published as one of the two payloads.
  published :
      (formats : Formats) (d : RegisterDef) (b : Bool)
      → is_boolean_register d.key ≡ true
      → (announces d "payload_on" ≡ some (text (mqtt_value formats (bool b))))
        ⊎ (announces d "payload_off" ≡ some (text (mqtt_value formats (bool b))))
  unfolding mqtt_value
  published formats d true switched = inl (payload_on-announced d switched)
  published formats d false switched = inr (payload_off-announced d switched)

-- What a holding register that is found in the table and counts as Boolean shows for any raw
-- value, where it shows one without an error, is published as the payload that its discovery
-- document announces for on or as the one for off.
pub config_discovery-Switched :
    (parse_float : ParseFloat) (formats : Formats) (config : MqttConfig) (base : Text)
    (last_config : Config) (battery_type : Text) (key : String) (d : RegisterDef)
    (raw : RawRegisterValue) (v : Value)
    → find_register key (holding_registers parse_float) ≡ some d
    → is_boolean_register key ≡ true
    → d.read raw ≡ ok v
    → let announced = (config_discovery config base last_config battery_type d).payload in
      (lookup "payload_on" announced ≡ some (text (mqtt_value formats v)))
      ⊎ (lookup "payload_off" announced ≡ some (text (mqtt_value formats v)))
config_discovery-Switched parse_float formats config base last_config battery_type key d raw v found
      boolean read =
    let table = holding_registers parse_float in
    let switched = ap is_boolean_register (find_register-key key table d found) ∙ boolean in
    let all_switched = Each→All Switched table (registers-Switched parse_float) in
    let (b, is) =
      subst GivesBool read
        (find_register-All Switched key table d all_switched found switched raw) in
    subst
      (λ x.
        (announces config base last_config battery_type d "payload_on"
          ≡ some (text (mqtt_value formats x)))
        ⊎ (announces config base last_config battery_type d "payload_off"
            ≡ some (text (mqtt_value formats x))))
      (sym is) (published config base last_config battery_type formats d b switched)
