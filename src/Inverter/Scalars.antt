-- ===== src/Inverter/Scalars.antt =====
-- inverter.go: the values of finiteScalar, against the whole numbers that lie near the parsed number.
pub mod Cases
use spf5000es_server.Prelude.{
  ℕ, ◌+◌, ◌*◌, ◌^◌, ◌<◌, ◌≡◌, refl, sym, ap, ◌∙◌, true, false, ltb, if_true, if_false, ℤ, abs, Text,
  ◌⊎◌, inl, inr, Bool-cases, arith,
}
use spf5000es_server.Error.{ok}
use spf5000es_server.Float.{
  finite, ulp_of_one, nearest, signed, is_negative, to_int64, lt, is_nan, is_inf,
}
use spf5000es_server.Float.Wholes.{
  distance, nearest_whole, nearest_whole_least, abs_diff_small, round_small, to_int64-whole,
  thousandth, milli_known, near_thousandth, far_thousandth,
}
use spf5000es_server.Value.{int64, float64, ParseFloat, near_whole}
use spf5000es_server.Inverter.{finite_scalar, finite_value}

module _ (m : ℤ) (small : abs m < 2 ^ 52 * ulp_of_one) where
  abbrev nearby : ℕ
  nearby = nearest_whole (abs m)

  abbrev off : ℕ
  off = distance (abs m) (nearby * ulp_of_one)

  near_whole-small : near_whole (finite m) ≡ ltb (nearest off 1 + 0) (thousandth + 0)
  unfolding near_whole lt
  near_whole-small = rw (round_small m small, abs_diff_small m, milli_known) refl

  finite_value-whole :
      near_whole (finite m) ≡ true
      → finite_value (finite m) ≡ ok (int64 (signed (is_negative m) nearby))
  unfolding finite_value is_nan is_inf
  finite_value-whole near =
      ap ok
        (if_true _ _ near ∙ ap int64 (ap to_int64 (round_small m small) ∙ to_int64-whole m small))

  finite_value-other :
      near_whole (finite m) ≡ false → finite_value (finite m) ≡ ok (float64 (finite m))
  unfolding finite_value is_nan is_inf
  finite_value-other far = ap ok (if_false _ _ far)

  near : near_whole (finite m) ≡ true → 999 * off < ulp_of_one
  near h = near_thousandth off (ground (arith, sym near_whole-small ∙ h))

  far :
      near_whole (finite m) ≡ false
      → (k : ℕ) → ulp_of_one < 1001 * distance (abs m) (k * ulp_of_one)
  far h k =
      let apart = far_thousandth off (ground (arith, sym near_whole-small ∙ h)) in
      omega (arith, apart, nearest_whole_least (abs m) k)

-- A text that parses to a finite number below 2 ^ 52 in magnitude becomes a whole number of the
-- same sign, or zero, that is less than a 999th away from it, or stays that number, and then every
-- whole number of its sign is more than a 1001st away.
pub finite_scalar-Nearest :
    (parse_float : ParseFloat) (raw : Text) (m : ℤ)
    → parse_float raw ≡ ok (finite m)
    → abs m < 2 ^ 52 * ulp_of_one
    → ((n : ℕ) × (finite_scalar parse_float raw ≡ ok (int64 (signed (is_negative m) n)))
        × (999 * distance (abs m) (n * ulp_of_one) < ulp_of_one))
      ⊎ ((finite_scalar parse_float raw ≡ ok (float64 (finite m)))
          × ((n : ℕ) → ulp_of_one < 1001 * distance (abs m) (n * ulp_of_one)))
unfolding finite_scalar
finite_scalar-Nearest parse_float raw m parsed small = elim (Bool-cases (near_whole (finite m))) [
  | inl e ↦
      inl
        (nearby m small, rw (parsed, finite_scalar) (finite_value-whole m small e), near m small e)
  | inr e ↦ inr (rw (parsed, finite_scalar) (finite_value-other m small e), far m small e)
]
