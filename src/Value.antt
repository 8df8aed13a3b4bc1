-- ===== src/Value.antt =====
-- registers.go: the dynamic values (`any`) that registers decode to and commands carry, and the
-- conversions of numbers and Booleans. ParseFloat of strconv is an argument of what calls it.
use spf5000es_server.Prelude.{
  ℕ, Bool, true, false, not, ◌||◌, Option, none, some, Text, codes, ℤ, pos, eqb_ℤ, List, String,
  if◌then◌else◌, eq_text,
}
use spf5000es_server.Error.{Error, Result, ok, err, message, ◌>>=◌}
use spf5000es_server.Float.{
  Float64, nan, finite, is_nan, is_inf, round, to_int64, of_int, of_ratio, lt, le, nonzero,
  abs_diff,
}
use spf5000es_server.Strings.{trim_space, equal_fold}

-- A value of type `any`. A float32 is held as the float64 that it converts to.
pub data Value : Type 0 where
  nil : Value
  int int64 : ℤ → Value
  uint16 : ℕ → Value
  float32 float64 : Float64 → Value
  bool : Bool → Value
  string : Text → Value

-- map[string]any
abbrev pub Config : Type 0
Config = List (String × Value)

-- strconv.ParseFloat(s, 64)
abbrev pub ParseFloat : Type 0
ParseFloat = Text → Result Float64

-- math.Abs(a - b); only finite operands reach it.
abs_sub : Float64 → Float64 → Float64
abs_sub (finite a) (finite b) = abs_diff a b
abs_sub _ _ = nan

-- The constant 1e-3.
abbrev milli : Float64
milli = of_ratio 1 1000

-- math.IsNaN(x) || math.IsInf(x, 0)
abbrev pub not_finite : Float64 → Bool
not_finite x = is_nan x || is_inf x

unfoldable pub float_as_int64 : Float64 → Result ℤ
unfolding abs_sub
float_as_int64 value =
    if not_finite value || le milli (abs_sub value (round value))
    then err (message "value is not an integer")
    else ok (to_int64 (round value))

-- finiteScalar's own test and conversion: `math.Abs(parsed-rounded) < 1e-3`.
unfoldable pub near_whole : Float64 → Bool
unfolding abs_sub
near_whole x = lt (abs_sub x (round x)) milli

module _ (parse_float : ParseFloat) where
  unfoldable pub as_int64 : Value → Result ℤ
  as_int64 (int n) = ok n
  as_int64 (int64 n) = ok n
  as_int64 (uint16 n) = ok (pos n)
  as_int64 (float64 x) = float_as_int64 x
  as_int64 (string s) = parse_float (trim_space s) >>= float_as_int64
  as_int64 _ = err (message "unsupported numeric value")

  unfoldable pub as_float64 : Value → Result Float64
  as_float64 (int n) = ok (of_int n)
  as_float64 (int64 n) = ok (of_int n)
  as_float64 (uint16 n) = ok (of_int (pos n))
  as_float64 (float64 x) = ok x
  as_float64 (string s) = parse_float (trim_space s)
  as_float64 _ = err (message "unsupported numeric value")

abbrev is_true_word : Text → Bool
is_true_word t =
    equal_fold t "yes"
    || equal_fold t "true"
    || equal_fold t "t"
    || eq_text t (codes "1")
    || equal_fold t "on"

abbrev is_false_word : Text → Bool
is_false_word t =
    equal_fold t "no"
    || equal_fold t "false"
    || equal_fold t "f"
    || eq_text t (codes "0")
    || equal_fold t "off"

abbrev expected : Error
expected = message "boolean value expected"

unfoldable pub parse_bool : Value → Result Bool
parse_bool (bool b) = ok b
parse_bool (int n) = ok (not (eqb_ℤ n (pos 0)))
parse_bool (int64 n) = ok (not (eqb_ℤ n (pos 0)))
parse_bool (float64 x) = ok (nonzero x)
parse_bool (string s) =
    if is_true_word (trim_space s)
    then ok true
    else if is_false_word (trim_space s)
    then ok false
    else err expected
parse_bool _ = err expected

unfoldable pub scalar_as_float64 : Value → Option Float64
scalar_as_float64 (int64 n) = some (of_int n)
scalar_as_float64 (int n) = some (of_int n)
scalar_as_float64 (float64 x) = some x
scalar_as_float64 (float32 x) = some x
scalar_as_float64 _ = none
