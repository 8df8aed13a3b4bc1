-- ===== src/Register/Limits/Widening.antt =====
-- registers.go: discoveryNumberLimits against baseNumberLimits.
use spf5000es_server.Prelude.{
  ◌≡◌, refl, true, false, Option, none, some, String, Text, lookup, eq_string, if◌then◌else◌, arith,
  Bool-cases, inl, inr,
}
use spf5000es_server.Float.{Float64, nan, inf, finite, lt, le}
use spf5000es_server.Value.{Config}
use spf5000es_server.Register.Limits.{
  NumberLimits, base_number_limits, discovery_number_limits, stretch, stretch_maximum,
  config_number, discovery_nominal_max_registers,
}

-- A number that is allowed by one bound is allowed by a wider one.
lt-above : (m s x : Float64) → lt m s ≡ true → lt m x ≡ false → lt s x ≡ false
unfolding lt
lt-above nan s x h k = cc
lt-above (finite a) nan x h k = cc
lt-above (inf a) nan x h k = cc
lt-above (finite a) (finite b) nan h k = refl
lt-above (finite a) (finite b) (finite c) h k = ground arith
lt-above (finite a) (finite b) (inf t) h k = ground arith
lt-above (finite a) (inf u) nan h k = refl
lt-above (finite a) (inf u) (finite c) h k = ground arith
lt-above (finite a) (inf u) (inf t) h k = ground arith
lt-above (inf a) (finite b) nan h k = refl
lt-above (inf a) (finite b) (finite c) h k = ground arith
lt-above (inf a) (finite b) (inf t) h k = ground arith
lt-above (inf a) (inf u) nan h k = refl
lt-above (inf a) (inf u) (finite c) h k = ground arith
lt-above (inf a) (inf u) (inf t) h k = ground arith

lt-below : (m s x : Float64) → lt s m ≡ true → lt x m ≡ false → lt x s ≡ false
unfolding lt
lt-below m s nan h k = refl
lt-below m nan x h k = cc
lt-below nan (finite b) x h k = cc
lt-below nan (inf b) x h k = cc
lt-below (finite a) (finite b) (finite c) h k = ground arith
lt-below (finite a) (finite b) (inf c) h k = ground arith
lt-below (finite a) (inf b) (finite c) h k = ground arith
lt-below (finite a) (inf b) (inf c) h k = ground arith
lt-below (inf a) (finite b) (finite c) h k = ground arith
lt-below (inf a) (finite b) (inf c) h k = ground arith
lt-below (inf a) (inf b) (finite c) h k = ground arith
lt-below (inf a) (inf b) (inf c) h k = ground arith

-- A number lies in limits, or is no number.
abbrev pub Allows : NumberLimits → Float64 → Type 0
Allows l x = (lt x l.minimum ≡ false) × (lt l.maximum x ≡ false)

stretch_maximum-Allows :
    (b x : Float64) (l : NumberLimits) → Allows l x → Allows (stretch_maximum b l) x
unfolding stretch_maximum
stretch_maximum-Allows b x l (lo, hi) = elim (Bool-cases (lt l.maximum b)) [
  | inl wider ↦ rw wider (lo, lt-above l.maximum b x wider hi)
  | inr same ↦ rw same (lo, hi)
]

widened-Allows :
    (state x : Float64) (l : NumberLimits)
    → Allows l x
    → (lt x (if lt state l.minimum then state else l.minimum) ≡ false)
      × (lt (if lt l.maximum state then state else l.maximum) x ≡ false)
widened-Allows state x l (lo, hi) = (
  elim (Bool-cases (lt state l.minimum)) [
    | inl wider ↦ rw wider (lt-below l.minimum state x wider lo)
    | inr same ↦ rw same lo
  ],
  elim (Bool-cases (lt l.maximum state)) [
    | inl wider ↦ rw wider (lt-above l.maximum state x wider hi)
    | inr same ↦ rw same hi
  ],
)

stretch-Allows :
    (s n : Option Float64) (x : Float64) (l : NumberLimits) → Allows l x → Allows (stretch s n l) x
unfolding stretch
stretch-Allows (some state) (some nominal) x l h = elim (Bool-cases (le state nominal)) [
  | inl stated ↦ rw stated (widened-Allows state x l h)
  | inr above ↦ rw above h
]
stretch-Allows none n x l h = h
stretch-Allows (some state) none x l h = h

stated-Allows :
    (o : Option String) (key : String) (config : Config) (x : Float64) (l : NumberLimits)
    → Allows l x
    → Allows
        (elim o [
          | none ↦ l
          | some nominal_key ↦
              stretch (config_number config key) (config_number config nominal_key) l
        ])
        x
stated-Allows none key config x l h = h
stated-Allows (some nominal_key) key config x l h = stretch-Allows _ _ x l h

-- The announced limits of a register allow every number that its base limits allow, whatever the
-- config says.
pub discovery_number_limits-Allows :
    (key : String) (config : Config) (battery_type : Text) (x : Float64)
    → Allows (base_number_limits key battery_type) x
    → Allows (discovery_number_limits key config battery_type) x
unfolding discovery_number_limits
discovery_number_limits-Allows key config battery_type x h =
    let base = base_number_limits key battery_type in
    let stated = stated-Allows (lookup key discovery_nominal_max_registers) key config x base h in
    elim (Bool-cases (eq_string key "FloatChargeVolt")) [
      | inl float ↦ rw float (stretch_maximum-Allows _ x _ stated)
      | inr other ↦ rw other stated
    ]
