-- ===== src/Register.antt =====
-- registers.go: register definitions. `Start` and `Length` are Go ints that no definition makes
-- negative: they are numbers here.
pub mod Codecs
pub mod Enums
pub mod Inputs
pub mod Holdings
pub mod Windows
pub mod Limits
use spf5000es_server.Prelude.{
  ℕ, Bool, true, false, Option, List, [], Text, ℤ, String, if◌then◌else◌, pos,
}
use spf5000es_server.Error.{Result, ok}
use spf5000es_server.Float.{Float64, of_int}
use spf5000es_server.Value.{Value, int64, string, ParseFloat, as_int64, as_float64}

-- registerType
pub data RegisterType : Type 0 where
  register_uint register_int register_char : RegisterType

-- rawRegisterValue
pub record RawRegisterValue : Type 0 where
  pub integer : ℤ
  pub text : Text
  pub is_text : Bool

abbrev pub raw_integer : ℤ → RawRegisterValue
raw_integer n = record { integer = n; text = []; is_text = false }

abbrev pub raw_text : Text → RawRegisterValue
raw_text s = record { integer = pos 0; text = s; is_text = true }

-- (v rawRegisterValue) value()
unfoldable pub raw_value : RawRegisterValue → Value
raw_value v = if v.is_text then string v.text else int64 v.integer

module _ (parse_float : ParseFloat) where
  -- (v rawRegisterValue) asInt64()
  unfoldable pub raw_as_int64 : RawRegisterValue → Result ℤ
  raw_as_int64 v = if v.is_text then as_int64 parse_float (string v.text) else ok v.integer

  -- (v rawRegisterValue) asFloat64()
  unfoldable pub raw_as_float64 : RawRegisterValue → Result Float64
  raw_as_float64 v =
      if v.is_text then as_float64 parse_float (string v.text) else ok (of_int v.integer)

-- readValueFunc and writeValueFunc
abbrev pub ReadValue : Type 0
ReadValue = RawRegisterValue → Result Value

abbrev pub WriteValue : Type 0
WriteValue = Value → Result Value

-- registerDef; a register whose Write is nil cannot be written.
pub record RegisterDef : Type 0 where
  pub key : String
  pub start : ℕ
  pub length : ℕ
  pub kind : RegisterType
  pub read : ReadValue
  pub write : Option WriteValue

-- A row of a table of registers.
abbrev pub register : String → ℕ → ℕ → RegisterType → ReadValue → Option WriteValue → RegisterDef
register key start length kind read write = record {
  key = key;
  start = start;
  length = length;
  kind = kind;
  read = read;
  write = write;
}
