-- ===== src/Mqtt/Commands/InLimits.antt =====
-- mqtt.go: the numbers that commands carry, against the limits of their registers.
use spf5000es_server.Prelude.{
  ◌≡◌, refl, Bool, true, false, ◌||◌, Option, none, some, Text, String, ℤ, sym, inl, inr, arith,
  Bool-cases,
}
use mathlib.Core.Path.{subst}
use spf5000es_server.Error.{ok}
use spf5000es_server.Float.{Float64, le, is_nan}
use spf5000es_server.Strings.{equal_fold}
use spf5000es_server.Value.{
  Value, string, int64, float64, bool, Config, ParseFloat, scalar_as_float64,
}
use spf5000es_server.Inverter.{finite_scalar}
use spf5000es_server.Inverter.Scalars.Cases.{finite_scalar-IsScalarOf}
use spf5000es_server.Register.Limits.{
  discovery_number_limits, is_writable_number_register, validate_writable_number_value,
}
use spf5000es_server.Register.Limits.Proper.{
  not_nan-of_int, discovery_number_limits-IsProper, check_limits-le,
}
use spf5000es_server.Mqtt.Commands.{
  Json, text, number, boolean, compound, DecodeJson, json_value, parse_mqtt_command_value,
}

-- A number that is one.
abbrev Real : Value → Type 0
Real v = (x : Float64) → scalar_as_float64 v ≡ some x → is_nan x ≡ false

Real-string : (s : Text) → Real (string s)
unfolding scalar_as_float64
Real-string s x h = cc

Real-bool : (b : Bool) → Real (bool b)
unfolding scalar_as_float64
Real-bool b x h = cc

Real-int : (n : ℤ) → Real (int64 n)
unfolding scalar_as_float64
Real-int n x h = ground (arith, not_nan-of_int n)

ok_eq : (u v : Value) → ok u ≡ ok v → u ≡ v
ok_eq u v h = cc

Real-finite : (y : Float64) → is_nan y ≡ false → Real (float64 y)
unfolding scalar_as_float64
Real-finite y real x h = ground (arith, h)

module _ (parse_float : ParseFloat) (decode_json : DecodeJson) where
  finite_scalar-Real : (s : Text) (v : Value) → finite_scalar parse_float s ≡ ok v → Real v
  unfolding scalar_as_float64
  finite_scalar-Real s v h = elim (finite_scalar-IsScalarOf parse_float s v h) [
    | inl (e, failed, kept) ↦ subst Real (sym kept) (Real-string s)
    | inr (y, parsed, finite, inl (near, whole)) ↦ subst Real (sym whole) (Real-int _)
    | inr (y, parsed, finite, inr (far, same)) ↦
        subst Real (sym same) (Real-finite y (ground arith))
  ]

  -- The numbers of JSON are finite.
  abbrev pub JsonNumbers : Type 0
  JsonNumbers = (s : Text) (x : Float64) → decode_json s ≡ some (number x) → is_nan x ≡ false

  json_value-Real :
      (s : Text) (o : Option Json) (v : Value)
      → ((x : Float64) → o ≡ some (number x) → is_nan x ≡ false)
      → json_value parse_float decode_json s o ≡ ok v
      → Real v
  json_value-Real s none v real h = finite_scalar-Real s v h
  json_value-Real s (some compound) v real h = finite_scalar-Real s v h
  json_value-Real s (some (text t)) v real h = subst Real (ok_eq (string t) v h) (Real-string t)
  json_value-Real s (some (number x)) v real h =
      subst Real (ok_eq (float64 x) v h) (Real-finite x (real x refl))
  json_value-Real s (some (boolean b)) v real h = subst Real (ok_eq (bool b) v h) (Real-bool b)

  parse_mqtt_command_value-Real :
      (payload : Text) (v : Value)
      → JsonNumbers
      → parse_mqtt_command_value parse_float decode_json payload ≡ ok v
      → Real v
  unfolding parse_mqtt_command_value
  parse_mqtt_command_value-Real payload v json h =
      elim (Bool-cases (equal_fold payload "true" || equal_fold payload "on")) [
        | inl on ↦
            subst Real (ok_eq (bool true) v (rw (on, parse_mqtt_command_value) at h))
              (Real-bool true)
        | inr more ↦ elim (Bool-cases (equal_fold payload "false" || equal_fold payload "off")) [
          | inl off ↦
              subst Real (ok_eq (bool false) v (rw (more, off, parse_mqtt_command_value) at h))
                (Real-bool false)
          | inr other ↦
              json_value-Real payload (decode_json payload) v (json payload)
                (rw (more, other, parse_mqtt_command_value) at h)
        ]
      ]

  -- Where JSON gives no NaN, a payload that parses to a value which passes the validation of a
  -- writable number register is a number within the limits that are announced for that register
  -- with the same config and battery type.
  pub validated-le :
      (key : String) (payload : Text) (value : Value) (config : Config) (battery_type : Text)
      → JsonNumbers
      → is_writable_number_register parse_float key ≡ true
      → parse_mqtt_command_value parse_float decode_json payload ≡ ok value
      → validate_writable_number_value parse_float key value config battery_type ≡ ok tt
      → let limits = discovery_number_limits key config battery_type in
        (x : Float64) × (scalar_as_float64 value ≡ some x)
        × (le limits.minimum x ≡ true)
        × (le x limits.maximum ≡ true)
  unfolding validate_writable_number_value
  validated-le key payload value config battery_type json writable parsed valid =
      check_limits-le (discovery_number_limits key config battery_type) (scalar_as_float64 value)
        (discovery_number_limits-IsProper key config battery_type)
        (parse_mqtt_command_value-Real payload value json parsed)
        (rw (writable, validate_writable_number_value) at valid)
