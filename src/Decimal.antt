-- ===== src/Decimal.antt =====
-- Decimal texts of whole numbers: strconv.AppendInt and the verb %d, in base ten.
use spf5000es_server.Prelude.{
  ℕ, zero, suc, ◌+◌, ◌/◌, ◌%◌, ◌∷◌, [], ◌++◌, Text, ℤ, pos, negsuc, ltb, if◌then◌else◌,
}

-- An int64 has 19 digits at most, so 20 rounds are enough.
unfoldable pub show_digits : ℕ → ℕ → Text
show_digits zero n = []
show_digits (suc fuel) n =
    let front = show_digits fuel (n / 10) in
    if ltb n 10 then (n + b'0') ∷ [] else front ++ (n % 10 + b'0') ∷ []

unfoldable pub show_int : ℤ → Text
unfolding show_digits
show_int (pos n) = show_digits 20 n
show_int (negsuc n) = b'-' ∷ show_digits 20 (suc n)
