-- ===== src/Inverter/Scalars/Cases.antt =====
-- inverter.go: the branches of finiteScalar.
use spf5000es_server.Prelude.{◌≡◌, true, false, Text, ◌⊎◌, inl, inr, Bool-cases, arith}
use spf5000es_server.Error.{Error, ok, err, Result-cases}
use spf5000es_server.Float.{Float64, round, to_int64}
use spf5000es_server.Value.{Value, string, int64, float64, ParseFloat, not_finite, near_whole}
use spf5000es_server.Inverter.{finite_scalar, finite_value}

-- The branch that a value comes from.
abbrev pub IsScalarOf : ParseFloat → Text → Value → Type 0
IsScalarOf parse_float raw v =
    ((e : Error) × (parse_float raw ≡ err e) × (v ≡ string raw))
    ⊎ ((x : Float64) × (parse_float raw ≡ ok x)
        × (not_finite x ≡ false)
        × (((near_whole x ≡ true) × (v ≡ int64 (to_int64 (round x))))
            ⊎ ((near_whole x ≡ false) × (v ≡ float64 x))))

finite_value-cases :
    (x : Float64) (v : Value)
    → finite_value x ≡ ok v
    → (not_finite x ≡ false)
      × (((near_whole x ≡ true) × (v ≡ int64 (to_int64 (round x))))
          ⊎ ((near_whole x ≡ false) × (v ≡ float64 x)))
unfolding finite_value
finite_value-cases x v h = elim (Bool-cases (not_finite x)) [
  | inl bad ↦ absurd (ground (arith, rw (bad, finite_value) at h))
  | inr good ↦ elim (Bool-cases (near_whole x)) [
    | inl near ↦ (good, inl (near, ground (arith, good, near)))
    | inr far ↦ (good, inr (far, ground (arith, good, far)))
  ]
]

pub finite_scalar-IsScalarOf :
    (parse_float : ParseFloat) (raw : Text) (v : Value)
    → finite_scalar parse_float raw ≡ ok v
    → IsScalarOf parse_float raw v
unfolding finite_scalar
finite_scalar-IsScalarOf parse_float raw v h = elim (Result-cases (parse_float raw)) [
  | inl (x, e) ↦
      let (good, shape) = finite_value-cases x v (rw (e, finite_scalar) at h) in
      inr (x, e, good, shape)
  | inr (x, e) ↦ inl (x, e, ground (arith, rw (e, finite_scalar) at h))
]
