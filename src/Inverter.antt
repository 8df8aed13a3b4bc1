-- ===== src/Inverter.antt =====
-- inverter.go: decoding and encoding of registers. A uint16 is a number below 2 ^ 16, a slice of
-- registers a list. No numeric register is wider than four words, so no shift of the source is by
-- more than 64 bits. An uint64 or with a word, whose place is clear after the shift, is a sum.
pub mod Words
pub mod Texts
pub mod RoundTrip
pub mod Device
pub mod Scalars
use spf5000es_server.Prelude.{
  ℕ, zero, suc, ◌+◌, ◌-◌, ◌*◌, ◌/◌, ◌%◌, ◌^◌, Bool, true, false, ◌&&◌, ◌||◌, List, [], ◌∷◌, ◌++◌,
  Text, ℤ, pos, negsuc, neg, ltb_ℤ, leb_ℤ, ltb, leb, ◌==◌, if◌then◌else◌, length, get_or, take,
  drop,
}
use spf5000es_server.Error.{Error, Result, ok, err, message, ◌>>=◌}
use spf5000es_server.Float.{Float64, round, to_int64}
use spf5000es_server.Utf8.{valid_string, to_valid_utf8}
use spf5000es_server.Value.{
  Value, string, int64, float64, ParseFloat, as_int64, not_finite, near_whole,
}
use spf5000es_server.Register.{
  RegisterType, register_uint, register_int, register_char, RawRegisterValue, raw_integer, raw_text,
  raw_value, RegisterDef,
}

-- The byte at an index of the words: byte(word >> 8) where it is even, byte(word) where odd.
unfoldable pub byte_at : List ℕ → ℕ → ℕ
byte_at words index =
    let word = get_or words (index / 2) 0 in if index % 2 == 0 then word / 256 % 256 else word % 256

-- The loop that drops zero bytes at the end: the length that is left.
unfoldable pub string_length : List ℕ → ℕ → ℕ
string_length words zero = 0
string_length words (suc n) =
    let shorter = string_length words n in if byte_at words n == 0 then shorter else suc n

-- The loop that writes the bytes below a length.
unfoldable pub string_bytes : List ℕ → ℕ → Text
string_bytes words zero = []
string_bytes words (suc n) = string_bytes words n ++ byte_at words n ∷ []

unfoldable pub decode_register_string : List ℕ → Text
unfolding byte_at string_length string_bytes
decode_register_string words = string_bytes words (string_length words (length words * 2))

-- unsigned = unsigned<<16 | uint64(word), for each word
unfoldable pub join_words : ℕ → List ℕ → ℕ
join_words unsigned [] = unsigned
join_words unsigned (w ∷ words) = join_words (unsigned * 2 ^ 16 % 2 ^ 64 + w) words

-- int64(x) of a uint64
abbrev pub int64_of_uint64 : ℕ → ℤ
int64_of_uint64 x = if ltb x (2 ^ 63) then pos x else negsuc (2 ^ 64 - x - 1)

-- uint64(n) of an int64
abbrev pub uint64_of_int64 : ℤ → ℕ
uint64_of_int64 (pos n) = n
uint64_of_int64 (negsuc n) = 2 ^ 64 - 1 - n

-- The sign bit of a register of that many bits is set.
abbrev pub sign_bit : ℕ → ℕ → Bool
sign_bit unsigned bits = unsigned / 2 ^ (bits - 1) % 2 == 1

abbrev pub decode_int : ℕ → ℕ → ℤ
decode_int unsigned bits =
    if sign_bit unsigned bits
    then int64_of_uint64 ((unsigned + 2 ^ 64 - 2 ^ bits % 2 ^ 64) % 2 ^ 64)
    else int64_of_uint64 unsigned

-- The words of a definition, decoded by its type.
unfoldable pub decode_words : RegisterType → List ℕ → Result RawRegisterValue
unfolding decode_register_string join_words
decode_words register_char words =
    let text = decode_register_string words in
    ok (raw_text (if valid_string text then text else to_valid_utf8 text))
decode_words register_uint words =
    if ltb 4 (length words)
    then err (message "numeric register is too wide")
    else ok (raw_integer (int64_of_uint64 (join_words 0 words)))
decode_words register_int words =
    if ltb 4 (length words)
    then err (message "numeric register is too wide")
    else ok (raw_integer (decode_int (join_words 0 words) (length words * 16)))

-- decodeRegisterValue; the slice has as many words as the definition, by the guard.
unfoldable pub decode_register_value : List ℕ → RegisterDef → Result RawRegisterValue
unfolding decode_words
decode_register_value registers d =
    if ltb d.length 1 || ltb (length registers) (d.start + d.length)
    then err (message "register definition is outside read buffer")
    else decode_words d.kind (take d.length (drop d.start registers))

-- Two bytes of the text fill a register, the first one its high byte.
unfoldable pub pack_bytes : ℕ → Text → List ℕ
pack_bytes zero text = []
pack_bytes (suc n) [] = 0 ∷ pack_bytes n []
pack_bytes (suc n) (a ∷ []) = a * 256 ∷ pack_bytes n []
pack_bytes (suc n) (a ∷ b ∷ text) = (a * 256 + b) ∷ pack_bytes n text

-- values[index] = uint16(unsigned); unsigned >>= 16, from the last index down
unfoldable pub split_words : ℕ → ℕ → List ℕ
split_words zero unsigned = []
split_words (suc n) unsigned = split_words n (unsigned / 2 ^ 16) ++ unsigned % 2 ^ 16 ∷ []

-- The tests that a number fits a register of that many bits.
unfoldable pub fits : RegisterType → ℕ → ℤ → Bool
fits register_uint bits number =
    leb_ℤ (pos 0) number && (leb 64 bits || ltb_ℤ number (pos (2 ^ bits)))
fits _ bits number = leb_ℤ (neg (2 ^ (bits - 1))) number && ltb_ℤ number (pos (2 ^ (bits - 1)))

abbrev pub encode_number : RegisterType → ℕ → ℤ → Result (List ℕ)
encode_number kind length number =
    if fits kind (length * 16) number
    then ok (split_words length (uint64_of_int64 number))
    else err (message "value does not fit register")

abbrev pub encode_text : ℕ → Value → Result (List ℕ)
encode_text n (string text) =
    if ltb (n * 2) (length text)
    then err (message "value is longer than the register")
    else ok (pack_bytes n text)
encode_text n _ = err (message "text register requires a string")

abbrev pub encode_kind : RegisterType → ParseFloat → ℕ → Value → Result (List ℕ)
encode_kind register_char parse_float n value = encode_text n value
encode_kind register_uint parse_float n value =
    as_int64 parse_float value >>= encode_number register_uint n
encode_kind register_int parse_float n value =
    as_int64 parse_float value >>= encode_number register_int n

-- encodeRawValue
unfoldable pub encode_raw_value : ParseFloat → Value → RegisterDef → Result (List ℕ)
unfolding fits split_words pack_bytes
encode_raw_value parse_float value d = encode_kind d.kind parse_float d.length value

-- decodeRawValue
unfoldable pub decode_raw_value : List ℕ → RegisterDef → Result Value
unfolding decode_register_value
decode_raw_value registers d = decode_register_value registers d >>= λ value. ok (raw_value value)

-- The part of finiteScalar after the text was parsed.
unfoldable pub finite_value : Float64 → Result Value
unfolding near_whole
finite_value parsed =
    if not_finite parsed
    then err (message "invalid value")
    else ok (if near_whole parsed then int64 (to_int64 (round parsed)) else float64 parsed)

-- finiteScalar: a text that is no number is kept as a text.
unfoldable pub finite_scalar : ParseFloat → Text → Result Value
unfolding finite_value
finite_scalar parse_float raw = elim (parse_float raw) [
  | ok parsed ↦ finite_value parsed
  | err e ↦ ok (string raw)
]
