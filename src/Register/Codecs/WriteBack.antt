-- ===== src/Register/Codecs/WriteBack.antt =====
-- registers.go: each Write function against the Read function of the same registers.
use spf5000es_server.Prelude.{
  ℕ, ◌<◌, ◌^◌, ◌==◌, ◌≡◌, Bool, true, false, ◌&&◌, [], ◌∷◌, Option, none, some, arith, all,
  Bool-cases, inl, inr, ℤ, pos, eqb_ℤ, Option-cases,
}
use mathlib.Core.Path.{subst₂}
use spf5000es_server.Error.{Error, ok}
use spf5000es_server.Float.{is_nan, is_inf, div, of_int}
use spf5000es_server.Float.Scaling.{round-mul-div, div_finite, to_int64-of_int}
use spf5000es_server.Value.{
  Value, int64, float64, string, ParseFloat, as_int64, as_float64, parse_bool,
}
use spf5000es_server.Register.{ReadValue, WriteValue, raw_integer}
use spf5000es_server.Register.Enums.{over_temp_restart}
use spf5000es_server.Register.Codecs.{
  identity, int_write, scaled, scale_write, EnumValues, enum_value, enum_code, reverse_enum,
  enum_read, enum_write, as_bool, bool_write, over_temp_write, or_error,
}

abbrev pub IsWord : ℕ → Type 0
IsWord n = n < 2 ^ 16

-- For every word that reads as a value, writing the value gives a word that reads as it again.
abbrev pub WritesBack : ReadValue → Option WriteValue → Type 0
WritesBack read none = Unit
WritesBack read (some write) =
    (n : ℕ) (v : Value)
    → IsWord n
    → read (raw_integer (pos n)) ≡ ok v
    → (m : ℕ) × IsWord m × (write v ≡ ok (int64 (pos m))) × (read (raw_integer (pos m)) ≡ ok v)

module _ (parse_float : ParseFloat) where
  pub int-WritesBack : WritesBack identity (some (int_write parse_float))
  unfolding identity int_write as_int64
  int-WritesBack n v h e = (n, h, ground arith, e)

  scale_back :
      (n d : ℕ)
      → n < 2 ^ 16
      → 0 < d
      → d < 2 ^ 48
      → scale_write parse_float d (float64 (div (of_int (pos n)) d)) ≡ ok (int64 (pos n))
  unfolding scale_write as_float64 is_nan is_inf
  scale_back n d hn h0 hd =
      let (m, whole) = div_finite n d (omega arith) h0 hd in
      let back = round-mul-div n d (omega arith) h0 hd in
      ground (arith, whole, back, to_int64-of_int n (omega arith))

  scaled_value :
      (d n : ℕ) (v : Value)
      → IsWord n
      → 0 < d
      → d < 2 ^ 48
      → scaled parse_float d (raw_integer (pos n)) ≡ ok v
      → scale_write parse_float d v ≡ ok (int64 (pos n))
  unfolding scaled
  scaled_value d n v h h0 hd e = ground (arith, scale_back n d h h0 hd)

  pub scaled-WritesBack :
      (d : ℕ)
      → 0 < d
      → d < 2 ^ 48
      → WritesBack (scaled parse_float d) (some (scale_write parse_float d))
  unfolding scaled
  scaled-WritesBack d h0 hd n v h e = (n, h, scaled_value d n v h h0 hd e, e)

  pub bool-WritesBack : WritesBack (as_bool parse_float) (some bool_write)
  unfolding as_bool bool_write parse_bool
  bool-WritesBack n v h e = elim (Bool-cases (n == 0)) [
    | inl z ↦ (0, omega arith, ground arith, ground arith)
    | inr nz ↦ (1, omega arith, ground arith, ground arith)
  ]

  pub over_temp-WritesBack :
      WritesBack (enum_read parse_float over_temp_restart) (some over_temp_write)
  unfolding enum_read over_temp_write parse_bool
  over_temp-WritesBack n v h e = elim (Bool-cases (n == 0)) [
    | inl z ↦ (0, omega arith, ground arith, ground arith)
    | inr nz ↦ (1, omega arith, ground arith, ground arith)
  ]

-- An entry of an enumeration is a text whose code is the entry's key.
abbrev pub is_entry_of : EnumValues → ℤ × Value → Bool
is_entry_of whole (n, string s) = elim (enum_code s (reverse_enum whole)) [
  | none ↦ false
  | some m ↦ eqb_ℤ m n
]
is_entry_of whole (n, v) = false

eqb_ℤ→eq : (a b : ℤ) → eqb_ℤ a b ≡ true → a ≡ b
eqb_ℤ→eq a b h = ground arith

&&-left : (a b : Bool) → (a && b) ≡ true → a ≡ true
&&-left a b h = ground arith

&&-right : (a b : Bool) → (a && b) ≡ true → b ≡ true
&&-right a b h = ground arith

or_error-ok : (o : Option Value) (x : Error) (v : Value) → or_error o x ≡ ok v → o ≡ some v
unfolding or_error
or_error-ok none x v h = cc
or_error-ok (some u) x v h = cc

some_eq : (u v : Value) → some u ≡ some v → u ≡ v
some_eq u v h = cc

find-entry :
    (whole values : EnumValues) (n : ℤ) (v : Value)
    → all (is_entry_of whole) values ≡ true
    → enum_value n values ≡ some v
    → is_entry_of whole (n, v) ≡ true
unfolding enum_value
find-entry whole [] n v h e = cc
find-entry whole ((m, u) ∷ values) n v h e = elim (Bool-cases (eqb_ℤ m n)) [
  | inl same ↦
      subst₂ (λ a b. is_entry_of whole (a, b) ≡ true) (eqb_ℤ→eq m n same)
        (some_eq u v (rw (same, enum_value) at e)) (&&-left (is_entry_of whole (m, u)) _ h)
  | inr other ↦
      find-entry whole values n v (&&-right (is_entry_of whole (m, u)) _ h)
        (rw (other, enum_value) at e)
]

write-entry :
    (whole : EnumValues) (n : ℤ) (v : Value)
    → is_entry_of whole (n, v) ≡ true
    → enum_write (reverse_enum whole) v ≡ ok (int64 n)
unfolding enum_write
write-entry whole n (string s) h = ground (arith, Option-cases (enum_code s (reverse_enum whole)))
write-entry whole n _ h = cc

pub enum-WritesBack :
    (parse_float : ParseFloat) (values : EnumValues)
    → all (is_entry_of values) values ≡ true
    → WritesBack (enum_read parse_float values) (some (enum_write (reverse_enum values)))
unfolding enum_read
enum-WritesBack parse_float values h n v hn e = (
  n,
  hn,
  write-entry values (pos n) v (find-entry values values (pos n) v h (or_error-ok _ _ v e)),
  e,
)
