-- ===== src/Mqtt/Discovery/Lacking.antt =====
-- mqtt.go: no field of a sensor or of a battery's unit sets the command topic of a discovery document.
use spf5000es_server.Prelude.{
  ◌≡◌, refl, ap, ◌∙◌, Bool, true, false, not, ◌&&◌, Option, some, List, [], ◌∷◌, all, Text, String,
  codes, map, eq_string, eq_text, eq_string_iff, lookup, insert, lookup-insert, inl, inr,
  if◌then◌else◌, if_false, Bool-cases, arith,
}
use spf5000es_server.Strings.{lower}
use spf5000es_server.Mqtt.Discovery.Metadata.{
  Field, text, Fields, merge, first_case, fields_of, entity_metadata, unit_cases, unit_metadata,
  icon_cases, icon_metadata, has_field, is_text, with_icon, with_state_class, sensor_metadata,
}
use spf5000es_server.Mqtt.Discovery.{remove, battery_unit_metadata}

-- No field sets the command topic.
abbrev pub lacks : Fields → Bool
lacks fields = all (λ (e : String × Field). not (eq_string e.0 "command_topic")) fields

abbrev pub announced : Fields → Option Field
announced fields = lookup "command_topic" fields

pub announced-insert :
    (key : String) (value : Field) (fields : Fields)
    → eq_string key "command_topic" ≡ false
    → announced (insert key value fields) ≡ announced fields
announced-insert key value fields other =
    lookup-insert key "command_topic" value fields ∙ if_false _ _ other

pub announced-merge :
    (fields more : Fields) → lacks more ≡ true → announced (merge fields more) ≡ announced fields
unfolding merge
announced-merge fields [] h = refl
announced-merge fields ((key, value) ∷ more) h =
    announced-merge (insert key value fields) more (ground arith)
    ∙ announced-insert key value fields (ground arith)

pub announced-remove :
    (key : String) (fields : Fields)
    → eq_string key "command_topic" ≡ false
    → announced (remove key fields) ≡ announced fields
unfolding remove lookup
announced-remove key [] other = refl
announced-remove key ((held, value) ∷ fields) other =
    let later = announced-remove key fields other in
    elim (Bool-cases (eq_string held key)) [
      | inr kept ↦
          rw kept (ap (λ o. if eq_string held "command_topic" then some value else o) later)
      | inl same ↦
          let held_other : eq_string held "command_topic" ≡ false =
            ap (λ k. eq_string k "command_topic") ((eq_string_iff held key).0 same) ∙ other in
          rw (same, held_other) later
    ]

lacks-if :
    (test : Bool) (xs ys : Fields)
    → lacks xs ≡ true
    → lacks ys ≡ true
    → lacks (if test then xs else ys) ≡ true
lacks-if true xs ys h k = h
lacks-if false xs ys h k = k

lacks-insert :
    (key : String) (value : Field) (fields : Fields)
    → eq_string key "command_topic" ≡ false
    → lacks fields ≡ true
    → lacks (insert key value fields) ≡ true
unfolding insert
lacks-insert key value [] other h = ground arith
lacks-insert key value ((held, old) ∷ fields) other h =
    let later = lacks-insert key value fields other (ground arith) in ground arith

lacks-merge :
    (fields more : Fields)
    → lacks fields ≡ true
    → lacks more ≡ true
    → lacks (merge fields more) ≡ true
unfolding merge
lacks-merge fields [] h k = h
lacks-merge fields ((key, value) ∷ more) h k =
    lacks-merge (insert key value fields) more (lacks-insert key value fields (ground arith) h)
      (ground arith)

lacks-first_case :
    (cases : List (Bool × Fields))
    → all (λ (c : Bool × Fields). lacks c.1) cases ≡ true
    → lacks (first_case cases) ≡ true
lacks-first_case [] h = refl
lacks-first_case ((test, fields) ∷ cases) h =
    lacks-if test fields (first_case cases) (ground arith) (lacks-first_case cases (ground arith))

lacks-fields_of :
    (key : String) (entries : List (String × Fields))
    → all (λ (e : String × Fields). lacks e.1) entries ≡ true
    → lacks (fields_of (lookup key entries)) ≡ true
unfolding lookup
lacks-fields_of key [] h = refl
lacks-fields_of key ((held, fields) ∷ entries) h =
    let later = lacks-fields_of key entries (ground arith) in
    elim (Bool-cases (eq_string held key)) [
      | inl same ↦ rw same (ground arith)
      | inr other ↦ rw other later
    ]

pub lacks-battery_unit_metadata : (battery : Text) → lacks (battery_unit_metadata battery) ≡ true
unfolding battery_unit_metadata
lacks-battery_unit_metadata battery =
    lacks-if (eq_text battery []) [] _ refl
      (lacks-if (eq_text battery (codes "Lithium")) _ _ refl refl)

lacks-icon_metadata : (key : Text) → lacks (icon_metadata key) ≡ true
unfolding icon_metadata icon_cases
lacks-icon_metadata key = lacks-first_case (icon_cases key) refl

lacks-unit_metadata : (key : Text) → lacks (unit_metadata key) ≡ true
unfolding unit_metadata unit_cases
lacks-unit_metadata key = lacks-first_case (unit_cases key) refl

lacks-with_icon :
    (key : Text) (fields : Fields) → lacks fields ≡ true → lacks (with_icon key fields) ≡ true
unfolding with_icon
lacks-with_icon key fields h =
    lacks-if (has_field "icon" fields) fields (merge fields (icon_metadata key)) h
      (lacks-merge fields (icon_metadata key) h (lacks-icon_metadata key))

lacks-with_state_class :
    (fields : Fields) → lacks fields ≡ true → lacks (with_state_class fields) ≡ true
unfolding with_state_class
lacks-with_state_class fields h =
    let classed = insert "state_class" (text (codes "measurement")) fields in
    let set : lacks classed ≡ true =
      lacks-insert "state_class" (text (codes "measurement")) fields refl h in
    lacks-if
      (has_field "unit_of_measurement" fields
        && not (has_field "state_class" fields)
        && not (is_text (lookup "device_class" fields) (codes "duration")))
      classed fields set h

-- The metadata of a sensor sets no command topic, whatever its name.
pub lacks-sensor_metadata : (key : String) → lacks (sensor_metadata key) ≡ true
unfolding sensor_metadata entity_metadata
lacks-sensor_metadata key =
    let lowered = map lower (codes key) in
    let given = fields_of (lookup key entity_metadata) in
    let named = lacks-merge [] given refl (lacks-fields_of key entity_metadata refl) in
    let united =
      lacks-merge (merge [] given) (unit_metadata lowered) named (lacks-unit_metadata lowered) in
    let metadata = merge (merge [] given) (unit_metadata lowered) in
    lacks-with_state_class (with_icon lowered metadata) (lacks-with_icon lowered metadata united)
