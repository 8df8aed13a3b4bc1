-- ===== src/Register/Holdings/WriteBack.antt =====
-- registers.go: the Write function of each holding register against its Read function.
use spf5000es_server.Prelude.{◌≡◌, refl, some, List, [], ◌∷◌, arith, All, all, true, Option}
use spf5000es_server.Value.{ParseFloat}
use spf5000es_server.Register.{
  RegisterDef, RegisterType, register_uint, register_char, ReadValue, WriteValue,
}
use spf5000es_server.Register.Codecs.{
  identity, string_write, int_write, scaled, scale_write, EnumValues, enum_read, enum_write,
  reverse_enum, enum_code, as_bool, bool_write, over_temp_write,
}
use spf5000es_server.Register.Codecs.WriteBack.{
  WritesBack, is_entry_of, int-WritesBack, scaled-WritesBack, bool-WritesBack, over_temp-WritesBack,
  enum-WritesBack,
}
use spf5000es_server.Register.Enums.{
  output_config, charge_config, pv_model, ac_in_model, output_volt_type, output_freq_type,
  over_load_restart, over_temp_restart, battery_type, aging_mode, safety_type,
}
use spf5000es_server.Register.Holdings.{holding_registers}

-- A text register holds no number.
abbrev pub ShowsWritable : RegisterDef → Type 0
ShowsWritable d = d.kind ≡ register_uint → WritesBack d.read d.write

-- A proof for each element of a list, in its order.
pub data Each (P : RegisterDef → Type 0) : List RegisterDef → Type 0 where
  done : Each P []
  ◌◂◌ : {d : RegisterDef} {ds : List RegisterDef} → P d → Each P ds → Each P (d ∷ ds)

infixr 67 ◌◂◌
pub Each→All : (P : RegisterDef → Type 0) (ds : List RegisterDef) → Each P ds → All P ds
Each→All P [] done = tt
Each→All P (d ∷ ds) (p ◂ ps) = (p, Each→All P ds ps)

-- One lemma for each pair of Read and Write functions in the table.
abbrev Back : RegisterType → ReadValue → Option WriteValue → Type 0
Back kind read write = kind ≡ register_uint → WritesBack read write

none_back : {K : Type 0} → K → Unit {0}
none_back h = tt

text-Back : Back register_char identity (some string_write)
text-Back h = cc

module _ (parse_float : ParseFloat) where
  int-Back : Back register_uint identity (some (int_write parse_float))
  int-Back h = int-WritesBack parse_float

  scaled-Back : Back register_uint (scaled parse_float 10) (some (scale_write parse_float 10))
  scaled-Back h = scaled-WritesBack parse_float 10 (omega arith) (omega arith)

  bool-Back : Back register_uint (as_bool parse_float) (some bool_write)
  bool-Back h = bool-WritesBack parse_float

  over_temp-Back :
      Back register_uint (enum_read parse_float over_temp_restart) (some over_temp_write)
  over_temp-Back h = over_temp-WritesBack parse_float

  enum-Back :
      (values : EnumValues)
      → all (is_entry_of values) values ≡ true
      → Back register_uint (enum_read parse_float values) (some (enum_write (reverse_enum values)))
  enum-Back values checked h = enum-WritesBack parse_float values checked

-- In each holding register of the table that has a Write function and holds a number, writing a
-- value that was read from a word succeeds with a word that reads as the same value.
pub holding_registers-WritesBack :
    (parse_float : ParseFloat) → All ShowsWritable (holding_registers parse_float)
unfolding holding_registers enum_code reverse_enum
holding_registers-WritesBack parse_float = Each→All ShowsWritable (holding_registers parse_float) (
    none_back
    ◂ enum-Back parse_float output_config refl
    ◂ enum-Back parse_float charge_config refl
    ◂ int-Back parse_float
    ◂ int-Back parse_float
    ◂ int-Back parse_float
    ◂ int-Back parse_float
    ◂ enum-Back parse_float pv_model refl
    ◂ enum-Back parse_float ac_in_model refl
    ◂ none_back
    ◂ none_back
    ◂ int-Back parse_float
    ◂ none_back
    ◂ none_back
    ◂ enum-Back parse_float output_volt_type refl
    ◂ enum-Back parse_float output_freq_type refl
    ◂ enum-Back parse_float over_load_restart refl
    ◂ over_temp-Back parse_float
    ◂ bool-Back parse_float
    ◂ text-Back
    ◂ int-Back parse_float
    ◂ int-Back parse_float
    ◂ int-Back parse_float
    ◂ int-Back parse_float
    ◂ int-Back parse_float
    ◂ int-Back parse_float
    ◂ int-Back parse_float
    ◂ scaled-Back parse_float
    ◂ scaled-Back parse_float
    ◂ scaled-Back parse_float
    ◂ int-Back parse_float
    ◂ enum-Back parse_float battery_type refl
    ◂ enum-Back parse_float aging_mode refl
    ◂ int-Back parse_float
    ◂ enum-Back parse_float safety_type refl
    ◂ none_back
    ◂ none_back
    ◂ none_back
    ◂ none_back
    ◂ none_back
    ◂ none_back
    ◂ none_back
    ◂ none_back
    ◂ none_back
    ◂ none_back
    ◂ none_back
    ◂ none_back
    ◂ none_back
    ◂ none_back
    ◂ none_back
    ◂ none_back
    ◂ none_back
    ◂ int-Back parse_float
    ◂ none_back
    ◂ none_back
    ◂ none_back
    ◂ none_back
    ◂ none_back
    ◂ none_back
    ◂ none_back
    ◂ none_back
    ◂ none_back
    ◂ none_back
    ◂ scaled-Back parse_float
    ◂ bool-Back parse_float
    ◂ bool-Back parse_float
    ◂ bool-Back parse_float
    ◂ bool-Back parse_float
    ◂ bool-Back parse_float
    ◂ bool-Back parse_float
    ◂ bool-Back parse_float
    ◂ bool-Back parse_float
    ◂ bool-Back parse_float
    ◂ none_back
    ◂ int-Back parse_float
    ◂ bool-Back parse_float
    ◂ done)
