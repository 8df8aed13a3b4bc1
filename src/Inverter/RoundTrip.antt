-- ===== src/Inverter/RoundTrip.antt =====
-- inverter.go: encodeRawValue and decodeRegisterValue on a register definition.
use spf5000es_server.Prelude.{
  ℕ, zero, suc, ◌+◌, ◌*◌, ◌≤◌, ◌<◌, ◌≡◌, ◌≢◌, refl, ap, ◌∙◌, true, List, [], ◌∷◌, Text, ltb, length,
  take, drop, ◌||◌, arith, All, Bool-cases, inl, inr, ℤ,
}
use spf5000es_server.Error.{ok}
use spf5000es_server.Utf8.{valid_string}
use spf5000es_server.Utf8.Valid.{valid_string-to_valid_utf8}
use spf5000es_server.Value.{Value, string, ParseFloat, as_int64}
use spf5000es_server.Register.{
  RegisterType, register_uint, register_int, register_char, RegisterDef, RawRegisterValue,
  raw_integer, raw_text,
}
use spf5000es_server.Inverter.{
  fits, split_words, uint64_of_int64, decode_words, decode_register_value, encode_raw_value,
  encode_number, encode_text, pack_bytes, encode_kind, decode_register_string,
}
use spf5000es_server.Inverter.Words.{
  IsInt64, IsNumeric, length-split, decode-encode_uint, decode-encode_int,
}
use spf5000es_server.Inverter.Texts.{IsByte, EndsPlain, length-pack, decode-pack}

-- The definition that WriteConfig decodes the written words with.
abbrev pub at_zero : RegisterDef → RegisterDef
at_zero d = record d { start = 0 }

take_whole : (words : List ℕ) (n : ℕ) → length words ≡ n → take n words ≡ words
take_whole [] n h = rw (← h) refl
take_whole (w ∷ words) zero h = absurd (omega arith)
take_whole (w ∷ words) (suc n) h = ap (λ l. w ∷ l) (take_whole words n (omega arith))

-- Words of the definition's length are decoded whole.
pub decode_whole :
    (d : RegisterDef) (words : List ℕ)
    → 0 < d.length
    → length words ≡ d.length
    → decode_register_value words (at_zero d) ≡ decode_words d.kind words
unfolding decode_register_value
decode_whole d words pos whole = ground (arith, take_whole words d.length whole)

-- What encodeRawValue gives for a number that it accepts.
encode_number-ok :
    (kind : RegisterType) (n : ℕ) (z : ℤ) (words : List ℕ)
    → encode_number kind n z ≡ ok words
    → (fits kind (n * 16) z ≡ true) × (words ≡ split_words n (uint64_of_int64 z))
encode_number-ok kind n z words h = ground arith

encode_kind-numeric :
    (parse_float : ParseFloat) (kind : RegisterType) (n : ℕ) (value : Value) (z : ℤ)
    (words : List ℕ)
    → kind ≢ register_char
    → IsNumeric n
    → IsInt64 z
    → as_int64 parse_float value ≡ ok z
    → encode_kind kind parse_float n value ≡ ok words
    → (length words ≡ n) × (decode_words kind words ≡ ok (raw_integer z))
encode_kind-numeric parse_float register_char n value z words nt hn hz e h = absurd (nt refl)
encode_kind-numeric parse_float register_uint n value z words nt hn hz e h =
    let (f, split) = encode_number-ok register_uint n z words (rw e at h) in
    rw split (length-split n (uint64_of_int64 z), decode-encode_uint n z hn hz f)
encode_kind-numeric parse_float register_int n value z words nt hn hz e h =
    let (f, split) = encode_number-ok register_int n z words (rw e at h) in
    rw split (length-split n (uint64_of_int64 z), decode-encode_int n z hn hz f)

-- Where asInt64 gives an int64 for a value and encodeRawValue accepts the value for a numeric
-- register of one to four words, decodeRegisterValue reads that number from the words.
pub decode-encode_number :
    (parse_float : ParseFloat) (d : RegisterDef) (value : Value) (z : ℤ) (words : List ℕ)
    → d.kind ≢ register_char
    → IsNumeric d.length
    → IsInt64 z
    → as_int64 parse_float value ≡ ok z
    → encode_raw_value parse_float value d ≡ ok words
    → decode_register_value words (at_zero d) ≡ ok (raw_integer z)
unfolding encode_raw_value
decode-encode_number parse_float d value z words nt hn hz e h =
    let (whole, same) =
      encode_kind-numeric parse_float d.kind d.length value z words nt hn hz e h in
    decode_whole d words hn.0 whole ∙ same

encode_text-ok :
    (n : ℕ) (text : Text) (words : List ℕ)
    → encode_text n (string text) ≡ ok words
    → (length text ≤ n * 2) × (words ≡ pack_bytes n text)
encode_text-ok n text words h = ground arith

encode_kind-text :
    (parse_float : ParseFloat) (kind : RegisterType) (n : ℕ) (text : Text) (words : List ℕ)
    → kind ≡ register_char
    → All IsByte text
    → valid_string text ≡ true
    → EndsPlain text
    → encode_kind kind parse_float n (string text) ≡ ok words
    → (length words ≡ n) × (decode_words kind words ≡ ok (raw_text text))
unfolding decode_words
encode_kind-text parse_float register_char n text words is r valid plain h =
    let (room, packed) = encode_text-ok n text words h in
    rw packed (length-pack n text, rw (decode-pack n text r room plain, valid))
encode_kind-text parse_float register_uint n text words is r valid plain h = cc
encode_kind-text parse_float register_int n text words is r valid plain h = cc

-- A text of bytes that encodeRawValue accepts for a text register of a word or more is read back
-- from its words, if it is valid UTF-8 and does not end in a zero byte.
pub decode-encode_text :
    (parse_float : ParseFloat) (d : RegisterDef) (text : Text) (words : List ℕ)
    → d.kind ≡ register_char
    → 0 < d.length
    → All IsByte text
    → valid_string text ≡ true
    → EndsPlain text
    → encode_raw_value parse_float (string text) d ≡ ok words
    → decode_register_value words (at_zero d) ≡ ok (raw_text text)
unfolding encode_raw_value decode_words
decode-encode_text parse_float d text words kind pos r valid plain h =
    let (whole, same) =
      encode_kind-text parse_float d.kind d.length text words kind r valid plain h in
    decode_whole d words pos whole ∙ same

no_text : valid_string [] ≡ true
unfolding valid_string
no_text = refl

decode_words-valid :
    (kind : RegisterType) (words : List ℕ) (raw : RawRegisterValue)
    → decode_words kind words ≡ ok raw
    → valid_string raw.text ≡ true
unfolding decode_words
decode_words-valid register_char words raw h =
    elim (Bool-cases (valid_string (decode_register_string words))) [
      | inl valid ↦ ground (arith, valid)
      | inr broken ↦ ground (arith, valid_string-to_valid_utf8 (decode_register_string words))
    ]
decode_words-valid register_uint words raw h = ground (arith, no_text)
decode_words-valid register_int words raw h = ground (arith, no_text)

-- Whatever the registers hold, the text of a decoded value is valid UTF-8.
pub decode_register_value-valid :
    (registers : List ℕ) (d : RegisterDef) (raw : RawRegisterValue)
    → decode_register_value registers d ≡ ok raw
    → valid_string raw.text ≡ true
unfolding decode_register_value
decode_register_value-valid registers d raw h =
    elim (Bool-cases (ltb d.length 1 || ltb (length registers) (d.start + d.length))) [
      | inl outside ↦ absurd (ground arith)
      | inr inside ↦
          decode_words-valid d.kind (take d.length (drop d.start registers)) raw (ground arith)
    ]
