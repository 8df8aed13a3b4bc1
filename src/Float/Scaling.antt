-- ===== src/Float/Scaling.antt =====
-- Readings scaled by a divisor, and scaling them back with math.Round.
use Prim.Native.Nat.{◌+◌, ◌*◌}
use spf5000es_server.Prelude.{ℕ, ◌/◌, ◌^◌, ◌≤◌, ◌<◌, ◌≡◌, false, arith, lt→ltb, ℤ, pos, ap, ◌∙◌}
use spf5000es_server.Float.{
  ulp_of_one, nearest, finite, rounded, of_int, div, mul, round, round_half_away, to_int64,
}
use spf5000es_server.Float.Ulp.{nearest_error, nearest_exact}
use native.Mathlib.Nat.{mul-div_cancel, mul-le-mul_left}

abbrev limit : ℕ
limit = 2 ^ 1024 * ulp_of_one

rounded_small : (p q : ℕ) → nearest p q < limit → rounded false p q ≡ finite (pos (nearest p q))
unfolding rounded
rounded_small p q h = rw (lt→ltb _ _ h)

-- float64(n) is exact up to 2 ^ 53.
pub of_int_exact : (n : ℕ) → n < 2 ^ 53 → of_int (pos n) ≡ finite (pos (n * ulp_of_one))
unfolding of_int
of_int_exact n h =
    rounded_small (n * ulp_of_one) 1 (rw (nearest_exact n h) (omega arith))
    ∙ ap (λ (t : ℕ). finite (pos t)) (nearest_exact n h)

to_int64_whole : (n : ℕ) → n < 2 ^ 53 → to_int64 (finite (pos (n * ulp_of_one))) ≡ pos n
unfolding to_int64
to_int64_whole n h = ground (arith, mul-div_cancel n {n = ulp_of_one} (omega arith))

-- int64(float64(n)) is n up to 2 ^ 53.
pub to_int64-of_int : (n : ℕ) → n < 2 ^ 53 → to_int64 (of_int (pos n)) ≡ pos n
to_int64-of_int n h = rw (of_int_exact n h) (to_int64_whole n h)

-- The error of a division and of a multiplication stays below a half.
within_half :
    (n d m b : ℕ)
    → n < 2 ^ 48
    → 0 < d
    → d < 2 ^ 48
    → (2 ^ 53 * (m * d) ≤ 2 ^ 53 * (n * ulp_of_one) + n * ulp_of_one + d * 2 ^ 52)
      × (2 ^ 53 * (n * ulp_of_one) ≤ 2 ^ 53 * (m * d) + n * ulp_of_one + d * 2 ^ 52)
    → (2 ^ 53 * (b * 1) ≤ 2 ^ 53 * (m * d) + m * d + 1 * 2 ^ 52)
      × (2 ^ 53 * (m * d) ≤ 2 ^ 53 * (b * 1) + m * d + 1 * 2 ^ 52)
    → (b + ulp_of_one / 2) / ulp_of_one ≡ n
within_half n d m b hn h0 hd hm hb = omega arith

quotient_small :
    (n d m : ℕ)
    → n < 2 ^ 48
    → 0 < d
    → d < 2 ^ 48
    → (2 ^ 53 * (m * d) ≤ 2 ^ 53 * (n * ulp_of_one) + n * ulp_of_one + d * 2 ^ 52)
      × (2 ^ 53 * (n * ulp_of_one) ≤ 2 ^ 53 * (m * d) + n * ulp_of_one + d * 2 ^ 52)
    → m * d < 2 ^ 50 * ulp_of_one
quotient_small n d m hn h0 hd hm = omega arith

div_small :
    (n d : ℕ)
    → n < 2 ^ 48
    → 0 < d
    → d < 2 ^ 48
    → div (of_int (pos n)) d ≡ finite (pos (nearest (n * ulp_of_one) d))
unfolding div
div_small n d hn h0 hd =
    let small = quotient_small n d _ hn h0 hd (nearest_error (n * ulp_of_one) d h0) in
    rw (of_int_exact n (omega arith)) (
      rounded_small (n * ulp_of_one) d
        (omega (arith, mul-le-mul_left (nearest (n * ulp_of_one) d) h0)))

mul_small :
    (m d : ℕ)
    → m * d < 2 ^ 50 * ulp_of_one
    → mul (finite (pos m)) d ≡ finite (pos (nearest (m * d) 1))
unfolding mul
mul_small m d h = rounded_small (m * d) 1 (omega (arith, nearest_error (m * d) 1 (omega arith)))

-- math.Round(x / d * d) is x again, for a whole x below 2 ^ 48.
pub round-mul-div :
    (n d : ℕ)
    → n < 2 ^ 48
    → 0 < d
    → d < 2 ^ 48
    → round (mul (div (of_int (pos n)) d) d) ≡ of_int (pos n)
unfolding round round_half_away
round-mul-div n d hn h0 hd =
    let m : ℕ = nearest (n * ulp_of_one) d in
    let near = nearest_error (n * ulp_of_one) d h0 in
    rw (div_small n d hn h0 hd, mul_small m d (quotient_small n d m hn h0 hd near))
      (ap (λ (k : ℕ). of_int (pos k))
        (within_half n d m (nearest (m * d) 1) hn h0 hd near
          (nearest_error (m * d) 1 (omega arith))))

pub div_finite :
    (n d : ℕ) → n < 2 ^ 48 → 0 < d → d < 2 ^ 48 → (m : ℤ) × (div (of_int (pos n)) d ≡ finite m)
div_finite n d hn h0 hd = (pos (nearest (n * ulp_of_one) d), div_small n d hn h0 hd)
