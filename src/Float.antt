-- ===== src/Float.antt =====
-- Go's float64, as far as the program uses it: a finite value is a whole multiple of 2 ^ -1074, and
-- each operation is the exact result rounded to the nearest 53-bit value, ties to even.
-- Negative zero is not told apart from zero: the program prints no result of an operation that
-- gives it.
mod Ulp
pub mod Scaling
pub mod Wholes
unfoldable pub use Ulp.{ulp_of_one, ulp, nearest}
use spf5000es_server.Prelude.{
  ℕ, zero, suc, ◌+◌, ◌-◌, ◌*◌, ◌/◌, ◌%◌, ◌^◌, Bool, true, false, not, ◌&&◌, ltb, leb, ◌==◌,
  if◌then◌else◌, ℤ, pos, negsuc, pos_part, neg_part, sub_ℕ, ◌-ℤ◌, ltb_ℤ, leb_ℤ, eqb_ℤ, abs, neg,
}

-- `finite m` is m * 2 ^ -1074.
pub data Float64 : Type 0 where
  nan : Float64
  inf : (negative : Bool) → Float64
  finite : ℤ → Float64

abbrev pub signed : Bool → ℕ → ℤ
signed negative n = if negative then neg n else pos n

abbrev pub is_negative : ℤ → Bool
is_negative (pos n) = false
is_negative (negsuc n) = true

-- The exact value ± p / q in units of 2 ^ -1074, rounded; from 2 ^ 1024 on it is an infinity.
unfoldable pub rounded : Bool → ℕ → ℕ → Float64
rounded negative p q =
    if ltb (nearest p q) (2 ^ 1024 * ulp_of_one)
    then finite (signed negative (nearest p q))
    else inf negative

-- float64(n), and the constant p / q.
unfoldable pub of_int : ℤ → Float64
of_int n = rounded (is_negative n) (abs n * ulp_of_one) 1

unfoldable pub of_ratio : ℕ → ℕ → Float64
of_ratio p q = rounded false (p * ulp_of_one) q

-- a / b for a divisor that is finite and positive: the program divides by constants only.
unfoldable pub div : Float64 → ℕ → Float64
div nan d = nan
div (inf s) d = inf s
div (finite m) d = rounded (is_negative m) (abs m) d

-- a * d for a positive whole constant d.
unfoldable pub mul : Float64 → ℕ → Float64
mul nan d = nan
mul (inf s) d = inf s
mul (finite m) d = rounded (is_negative m) (abs m * d) 1

unfoldable pub is_nan : Float64 → Bool
is_nan nan = true
is_nan _ = false

-- math.IsInf(x, 0)
unfoldable pub is_inf : Float64 → Bool
is_inf (inf s) = true
is_inf _ = false

-- The whole number nearest to m units, halves away from zero.
unfoldable pub round_half_away : ℤ → ℤ
round_half_away m = signed (is_negative m) ((abs m + ulp_of_one / 2) / ulp_of_one)

-- math.Round
unfoldable pub round : Float64 → Float64
round nan = nan
round (inf s) = inf s
round (finite m) = of_int (round_half_away m)

-- math.Abs(a - b), for operands that are finite.
abbrev pub abs_diff : ℤ → ℤ → Float64
abs_diff a b = rounded false (abs (a -ℤ b)) 1

-- The whole part, towards zero.
abbrev pub trunc : ℤ → ℤ
trunc m = signed (is_negative m) (abs m / ulp_of_one)

abbrev pub min_int64 : ℤ
min_int64 = negsuc (2 ^ 63 - 1)

abbrev pub max_int64 : ℤ
max_int64 = pos (2 ^ 63 - 1)

-- int64(x). Go leaves a value out of range to the machine: this is amd64's answer.
unfoldable pub to_int64 : Float64 → ℤ
to_int64 (finite m) =
    if leb_ℤ min_int64 (trunc m) && leb_ℤ (trunc m) max_int64 then trunc m else min_int64
to_int64 _ = min_int64

-- a < b and a <= b; each is false on a NaN.
unfoldable pub lt : Float64 → Float64 → Bool
lt (finite a) (finite b) = ltb_ℤ a b
lt (inf s) (finite b) = s
lt (finite a) (inf s) = not s
lt (inf s) (inf t) = s && not t
lt _ _ = false

unfoldable pub le : Float64 → Float64 → Bool
le (finite a) (finite b) = leb_ℤ a b
le (inf s) (finite b) = s
le (finite a) (inf s) = not s
le (inf true) (inf t) = true
le (inf false) (inf t) = not t
le _ _ = false

-- x != 0
unfoldable pub nonzero : Float64 → Bool
nonzero (finite m) = not (eqb_ℤ m (pos 0))
nonzero _ = true
