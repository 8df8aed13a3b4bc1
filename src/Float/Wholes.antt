-- ===== src/Float/Wholes.antt =====
-- The nearest whole number of a float64, and how near it is, for numbers below 2 ^ 52.
use spf5000es_server.Prelude.{
  ℕ, zero, suc, ◌+◌, ◌-◌, ◌*◌, ◌/◌, ◌^◌, ◌≤◌, ◌<◌, ◌≡◌, refl, ap, sym, ◌∙◌, Bool, true, false,
  lt→ltb, ◌&&◌, if_true, ℤ, pos, negsuc, neg, ◌-ℤ◌, abs, arith, leb_ℤ,
}
use spf5000es_server.Float.{
  finite, ulp_of_one, nearest, rounded, of_int, signed, is_negative, round_half_away, round,
  abs_diff, trunc, to_int64, min_int64, max_int64, of_ratio,
}
use spf5000es_server.Float.Ulp.{nearest_exact, nearest_error}
use native.Mathlib.Nat.{mul-div_cancel}

-- How far two numbers are from each other.
abbrev pub distance : ℕ → ℕ → ℕ
distance a b = (a - b) + (b - a)

-- The whole number nearest to a magnitude.
abbrev pub nearest_whole : ℕ → ℕ
nearest_whole a = (a + ulp_of_one / 2) / ulp_of_one

abbrev pub whole : ℤ → ℤ
whole m = signed (is_negative m) (nearest_whole (abs m) * ulp_of_one)

nearest_whole_near : (a : ℕ) → 2 * distance a (nearest_whole a * ulp_of_one) ≤ ulp_of_one
nearest_whole_near a = omega arith

nearest_whole_small : (a : ℕ) → a < 2 ^ 52 * ulp_of_one → nearest_whole a ≤ 2 ^ 52
nearest_whole_small a h = omega arith

neg-suc : (n : ℕ) → neg (suc n) ≡ negsuc n
neg-suc n = ground arith

rounded_exact :
    (s : Bool) (n : ℕ)
    → n < 2 ^ 53
    → rounded s (n * ulp_of_one) 1 ≡ finite (signed s (n * ulp_of_one))
unfolding rounded
rounded_exact s n h =
    rw (nearest_exact n h)
      (if_true _ _ (lt→ltb (n * ulp_of_one) (2 ^ 1024 * ulp_of_one) (omega arith)))

of_int-signed :
    (s : Bool) (n : ℕ) → n < 2 ^ 53 → of_int (signed s n) ≡ finite (signed s (n * ulp_of_one))
unfolding of_int
of_int-signed false n h = rounded_exact false n h
of_int-signed true zero h = rounded_exact false 0 h
of_int-signed true (suc n) h = ap of_int (neg-suc n) ∙ rounded_exact true (suc n) h

trunc_pos : (a q : ℕ) → a ≡ q * ulp_of_one → trunc (pos a) ≡ pos q
trunc_pos a q h =
    ap pos (ap (λ t. t / ulp_of_one) h ∙ mul-div_cancel q {n = ulp_of_one} (omega arith))

trunc-signed : (s : Bool) (q : ℕ) → trunc (signed s (q * ulp_of_one)) ≡ signed s q
trunc-signed false q = trunc_pos (q * ulp_of_one) q refl
trunc-signed true zero = refl
trunc-signed true (suc n) =
    let below : ℕ = suc n * ulp_of_one - 1 in
    let e : suc n * ulp_of_one ≡ suc below = omega arith in
    ap trunc (ap neg e ∙ neg-suc below)
    ∙ ap (λ t. neg (t / ulp_of_one)) (sym e)
    ∙ ap neg (mul-div_cancel (suc n) {n = ulp_of_one} (omega arith))

in_range :
    (s : Bool) (q : ℕ)
    → q ≤ 2 ^ 52
    → (leb_ℤ min_int64 (signed s q) && leb_ℤ (signed s q) max_int64) ≡ true
in_range s q h = ground arith

abs-signed : (m : ℤ) (n : ℕ) → abs (m -ℤ signed (is_negative m) n) ≡ distance (abs m) n
abs-signed (pos a) n = ground arith
abs-signed (negsuc a) n = ground arith

pub round_small : (m : ℤ) → abs m < 2 ^ 52 * ulp_of_one → round (finite m) ≡ finite (whole m)
unfolding round round_half_away
round_small m h =
    of_int-signed (is_negative m) (nearest_whole (abs m))
      (omega (arith, nearest_whole_small (abs m) h))

pub to_int64-whole :
    (m : ℤ)
    → abs m < 2 ^ 52 * ulp_of_one
    → to_int64 (finite (whole m)) ≡ signed (is_negative m) (nearest_whole (abs m))
unfolding to_int64
to_int64-whole m h =
    let q = nearest_whole (abs m) in
    rw (trunc-signed (is_negative m) q)
      (if_true _ _ (in_range (is_negative m) q (nearest_whole_small (abs m) h)))

-- The constant 1e-3, and the gap that it leaves.
abbrev pub thousandth : ℕ
thousandth = nearest (1 * ulp_of_one) 1000

pub milli_known : of_ratio 1 1000 ≡ finite (pos thousandth)
unfolding of_ratio rounded
milli_known = if_true _ _ (
    lt→ltb thousandth (2 ^ 1024 * ulp_of_one)
      (omega (arith, nearest_error (1 * ulp_of_one) 1000 (omega arith))))

pub near_thousandth : (p : ℕ) → nearest p 1 < thousandth → 999 * p < ulp_of_one
near_thousandth p h =
    omega
      (arith, nearest_error p 1 (omega arith), nearest_error (1 * ulp_of_one) 1000 (omega arith))

pub far_thousandth : (p : ℕ) → thousandth ≤ nearest p 1 → ulp_of_one < 1001 * p
far_thousandth p h =
    omega
      (arith, nearest_error p 1 (omega arith), nearest_error (1 * ulp_of_one) 1000 (omega arith))

-- No other whole number is nearer.
pub nearest_whole_least :
    (a k : ℕ) → distance a (nearest_whole a * ulp_of_one) ≤ distance a (k * ulp_of_one)
nearest_whole_least a k = omega arith

pub abs_diff_small :
    (m : ℤ)
    → abs_diff m (whole m)
      ≡ finite (pos (nearest (distance (abs m) (nearest_whole (abs m) * ulp_of_one)) 1))
unfolding rounded
abs_diff_small m =
    let p = distance (abs m) (nearest_whole (abs m) * ulp_of_one) in
    ap (λ d. rounded false d 1) (abs-signed m (nearest_whole (abs m) * ulp_of_one))
    ∙ if_true _ _ (
        lt→ltb (nearest p 1) (2 ^ 1024 * ulp_of_one)
          (omega (arith, nearest_error p 1 (omega arith), nearest_whole_near (abs m))))
