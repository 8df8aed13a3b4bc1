-- ===== src/Register/Codecs.antt =====
-- registers.go: the functions that read a raw register value and that prepare a value for writing.
pub mod WriteBack
use spf5000es_server.Prelude.{
  ℕ, Bool, true, false, not, ◌||◌, Option, none, some, List, [], ◌∷◌, Text, eq_text, ℤ, pos, eqb_ℤ,
  if◌then◌else◌,
}
use spf5000es_server.Error.{Error, Result, ok, err, message, ◌>>=◌}
use spf5000es_server.Float.{Float64, div, mul, round, to_int64}
use spf5000es_server.Value.{
  Value, int64, float64, bool, string, ParseFloat, as_int64, as_float64, not_finite, parse_bool,
}
use spf5000es_server.Register.{
  RawRegisterValue, raw_value, raw_as_int64, raw_as_float64, ReadValue, WriteValue,
}

unfoldable pub identity : ReadValue
unfolding raw_value
identity v = ok (raw_value v)

-- map[int64]any and map[string]int64
abbrev pub EnumValues : Type 0
EnumValues = List (ℤ × Value)

abbrev pub EnumCodes : Type 0
EnumCodes = List (Text × ℤ)

unfoldable pub enum_value : ℤ → EnumValues → Option Value
enum_value n [] = none
enum_value n ((m, v) ∷ values) = if eqb_ℤ m n then some v else enum_value n values

unfoldable pub enum_code : Text → EnumCodes → Option ℤ
enum_code s [] = none
enum_code s ((t, n) ∷ codes) = if eq_text t s then some n else enum_code s codes

-- reverseEnum: the values that are texts, with their keys.
unfoldable pub reverse_enum : EnumValues → EnumCodes
reverse_enum [] = []
reverse_enum ((n, string s) ∷ values) = (s, n) ∷ reverse_enum values
reverse_enum ((n, v) ∷ values) = reverse_enum values

unfoldable pub or_error {ℓ} : {A : Type ℓ} → Option A → Error → Result A
or_error none e = err e
or_error (some a) e = ok a

unfoldable pub enum_write : EnumCodes → WriteValue
unfolding or_error enum_code
enum_write codes (string s) = do
  n ← or_error (enum_code s codes) (message "unknown enum value")
  ok (int64 n)
enum_write codes _ = err (message "value must be a string")

unfoldable pub string_write : WriteValue
string_write (string s) = ok (string s)
string_write _ = err (message "value must be a string")

unfoldable pub bool_write : WriteValue
bool_write value = do parsed ← parse_bool value; ok (int64 (if parsed then pos 1 else pos 0))

unfoldable pub over_temp_write : WriteValue
over_temp_write value = do parsed ← parse_bool value; ok (int64 (if parsed then pos 0 else pos 1))

-- The body of scaleWrite, on the number that asFloat64 gives.
abbrev scale_number : ℕ → Float64 → Result Value
scale_number multiplier number =
    if not_finite number
    then err (message "invalid numeric value")
    else ok (int64 (to_int64 (round (mul number multiplier))))

abbrev with_number : ℕ → Result Float64 → Result Value
with_number multiplier (ok number) = scale_number multiplier number
with_number multiplier (err e) = err (message "invalid numeric value")

module _ (parse_float : ParseFloat) where
  unfoldable pub as_bool : ReadValue
  unfolding raw_as_int64
  as_bool v = do number ← raw_as_int64 parse_float v; ok (bool (not (eqb_ℤ number (pos 0))))

  unfoldable pub scaled : ℕ → ReadValue
  unfolding raw_as_float64
  scaled divisor v = do number ← raw_as_float64 parse_float v; ok (float64 (div number divisor))

  unfoldable pub scale_write : ℕ → WriteValue
  scale_write multiplier value = with_number multiplier (as_float64 parse_float value)

  unfoldable pub int_write : WriteValue
  int_write value = do n ← as_int64 parse_float value; ok (int64 n)

  unfoldable pub enum_read : EnumValues → ReadValue
  unfolding raw_as_int64 or_error enum_value
  enum_read values v = do
    number ← raw_as_int64 parse_float v
    or_error (enum_value number values) (message "unknown enum value")
