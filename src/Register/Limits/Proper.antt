-- ===== src/Register/Limits/Proper.antt =====
-- registers.go: limits are numbers, and so is what they admit.
use spf5000es_server.Prelude.{
  ℕ, ◌≡◌, refl, Bool, true, false, ◌||◌, Option, none, some, [], String, Text, codes, lookup,
  lookup-All, All, eq_string, eq_text, if◌then◌else◌, arith, Bool-cases, Option-cases, inl, inr,
  pos, ℤ,
}
use spf5000es_server.Error.{ok}
use spf5000es_server.Float.{Float64, nan, inf, finite, lt, le, is_nan, of_int, rounded}
use spf5000es_server.Value.{Config}
use spf5000es_server.Register.Limits.{
  NumberLimits, base_number_limits, discovery_number_limits, stretch, stretch_maximum,
  config_number, discovery_nominal_max_registers, config_number_limits, check_limits,
}

le-of_not_lt :
    (m x : Float64) → is_nan m ≡ false → is_nan x ≡ false → lt x m ≡ false → le m x ≡ true
unfolding lt le is_nan
le-of_not_lt nan x hm hx h = cc
le-of_not_lt m nan hm hx h = cc
le-of_not_lt (finite a) (finite b) hm hx h = ground arith
le-of_not_lt (finite a) (inf b) hm hx h = ground arith
le-of_not_lt (inf a) (finite b) hm hx h = ground arith
le-of_not_lt (inf true) (inf b) hm hx h = refl
le-of_not_lt (inf false) (inf b) hm hx h = ground arith

not_nan-of_le : (s n : Float64) → le s n ≡ true → is_nan s ≡ false
unfolding le is_nan
not_nan-of_le nan n h = cc
not_nan-of_le (inf a) n h = refl
not_nan-of_le (finite a) n h = refl

pub not_nan-of_int : (n : ℤ) → is_nan (of_int n) ≡ false
unfolding of_int rounded is_nan
not_nan-of_int n = ground arith

abbrev pub IsProper : NumberLimits → Type 0
IsProper l = (is_nan l.minimum ≡ false) × (is_nan l.maximum ≡ false)

abbrev between : (a b : ℕ) → (is_nan (of_int (pos a)) ≡ false) × (is_nan (of_int (pos b)) ≡ false)
between a b = (not_nan-of_int (pos a), not_nan-of_int (pos b))

table-IsProper : All (λ (e : String × NumberLimits). IsProper e.1) config_number_limits
unfolding config_number_limits
table-IsProper = (
  between 0 23,
  (
    between 0 23,
    (
      between 0 23,
      (
        between 0 23,
        (
          between 0 1,
          (
            between 0 1,
            (
              between 1 254,
              (
                between 0 1,
                (
                  between 0 1,
                  (
                    between 0 180,
                    (between 50 64, (between 50 56, (between 0 80, (between 0 99, tt)))),
                  ),
                ),
              ),
            ),
          ),
        ),
      ),
    ),
  ),
)

base_number_limits-IsProper :
    (key : String) (battery_type : Text) → IsProper (base_number_limits key battery_type)
unfolding base_number_limits
base_number_limits-IsProper key battery_type =
    elim (Bool-cases (eq_string key "BatLowtoUti" || eq_string key "uwAC2BatVolt")) [
      | inl battery ↦ rw battery (elim (Bool-cases (eq_text battery_type (codes "Lithium"))) [
        | inl lithium ↦ rw lithium (between 5 100)
        | inr other ↦ rw other (elim (Bool-cases (eq_text battery_type [])) [
          | inl unset ↦ rw unset (between 5 100)
          | inr set ↦ rw set (between 20 64)
        ])
      ])
      | inr plain ↦ rw plain (elim (Option-cases (lookup key config_number_limits)) [
        | inl missing ↦ rw missing (between 0 65535)
        | inr (l, found) ↦
            rw found (lookup-All IsProper key config_number_limits l table-IsProper found)
      ])
    ]

proper_if :
    (b : Bool) (x y : Float64)
    → (b ≡ true → is_nan x ≡ false)
    → is_nan y ≡ false
    → is_nan (if b then x else y) ≡ false
proper_if true x y hx hy = hx refl
proper_if false x y hx hy = hy

stretch-IsProper : (s n : Option Float64) (l : NumberLimits) → IsProper l → IsProper (stretch s n l)
unfolding stretch
stretch-IsProper (some state) (some nominal) l (lo, hi) = elim (Bool-cases (le state nominal)) [
  | inl stated ↦
      let real = not_nan-of_le state nominal stated in
      rw stated (
        proper_if (lt state l.minimum) state l.minimum (λ h. real) lo,
        proper_if (lt l.maximum state) state l.maximum (λ h. real) hi,
      )
  | inr above ↦ rw above (lo, hi)
]
stretch-IsProper none n l h = h
stretch-IsProper (some state) none l h = h

stated-IsProper :
    (o : Option String) (key : String) (config : Config) (l : NumberLimits)
    → IsProper l
    → IsProper (elim o [
      | none ↦ l
      | some nominal_key ↦ stretch (config_number config key) (config_number config nominal_key) l
    ])
stated-IsProper none key config l h = h
stated-IsProper (some nominal_key) key config l h = stretch-IsProper _ _ l h

stretch_maximum-IsProper :
    (b : Float64) (l : NumberLimits)
    → is_nan b ≡ false
    → IsProper l
    → IsProper (stretch_maximum b l)
unfolding stretch_maximum
stretch_maximum-IsProper b l hb (lo, hi) = elim (Bool-cases (lt l.maximum b)) [
  | inl wider ↦ rw wider (lo, hb)
  | inr same ↦ rw same (lo, hi)
]

pub discovery_number_limits-IsProper :
    (key : String) (config : Config) (battery_type : Text)
    → IsProper (discovery_number_limits key config battery_type)
unfolding discovery_number_limits
discovery_number_limits-IsProper key config battery_type =
    let stated =
      stated-IsProper (lookup key discovery_nominal_max_registers) key config _
        (base_number_limits-IsProper key battery_type) in
    elim (Bool-cases (eq_string key "FloatChargeVolt")) [
      | inl float ↦ rw float (
          stretch_maximum-IsProper _ _ (base_number_limits-IsProper "BulkChargeVolt" battery_type).1
            stated)
      | inr other ↦ rw other stated
    ]

-- A number that passes the tests lies in the limits.
pub check_limits-le :
    (l : NumberLimits) (number : Option Float64)
    → IsProper l
    → ((x : Float64) → number ≡ some x → is_nan x ≡ false)
    → check_limits l number ≡ ok tt
    → (x : Float64) × (number ≡ some x) × (le l.minimum x ≡ true) × (le x l.maximum ≡ true)
unfolding check_limits
check_limits-le l none proper real h = cc
check_limits-le l (some x) (lo, hi) real h =
    let rx = real x refl in
    (
      x,
      refl,
      le-of_not_lt l.minimum x lo rx (ground arith),
      le-of_not_lt x l.maximum rx hi (ground arith),
    )
