-- ===== src/Register/Enums.antt =====
-- registers.go: the names of statuses and of the values of enumerations.
use Prim.Native.Nat.{ℕ}
use spf5000es_server.Prelude.{
  true, false, ◌&&◌, List, [], ◌∷◌, Text, codes, String, ℤ, pos, pos_part, leb_ℤ, ltb_ℤ, length,
  get_or, if◌then◌else◌, ◌++◌,
}
use spf5000es_server.Error.{ok, ◌>>=◌}
use spf5000es_server.Value.{Value, string, bool, ParseFloat}
use spf5000es_server.Decimal.{show_int}
use spf5000es_server.Register.{ReadValue, raw_as_int64}
use spf5000es_server.Register.Codecs.{EnumValues}

abbrev entry : ℕ → String → ℤ × Value
entry n s = (pos n, string (codes s))

abbrev pub output_config : EnumValues
output_config = entry 0 "SBU" ∷ entry 1 "SOL" ∷ entry 2 "UTI" ∷ entry 3 "SUB" ∷ []

abbrev pub charge_config : EnumValues
charge_config = entry 0 "PV First" ∷ entry 1 "PV&UTI" ∷ entry 2 "PV Only" ∷ []

abbrev pub pv_model : EnumValues
pv_model = entry 0 "Independent" ∷ entry 1 "Parallel" ∷ []

abbrev pub ac_in_model : EnumValues
ac_in_model = entry 0 "APL" ∷ entry 1 "UPS" ∷ entry 2 "GEN" ∷ []

abbrev pub output_volt_type : EnumValues
output_volt_type =
    entry 0 "208VAC"
    ∷ entry 1 "230VAC"
    ∷ entry 2 "240VAC"
    ∷ entry 3 "220VAC"
    ∷ entry 4 "100VAC"
    ∷ entry 5 "110VAC"
    ∷ entry 6 "120VAC"
    ∷ []

abbrev pub output_freq_type : EnumValues
output_freq_type = entry 0 "50Hz" ∷ entry 1 "60Hz" ∷ []

abbrev pub over_load_restart : EnumValues
over_load_restart = entry 0 "Yes" ∷ entry 1 "No" ∷ entry 2 "Switch to UTI" ∷ []

abbrev pub over_temp_restart : EnumValues
over_temp_restart = (pos 0, bool true) ∷ (pos 1, bool false) ∷ []

abbrev pub battery_type : EnumValues
battery_type =
    entry 0 "AGM" ∷ entry 1 "FLD" ∷ entry 2 "USE" ∷ entry 3 "Lithium" ∷ entry 4 "USE2" ∷ []

abbrev pub aging_mode : EnumValues
aging_mode = entry 0 "Normal" ∷ entry 1 "Aging" ∷ []

abbrev pub safety_type : EnumValues
safety_type =
    entry 1 "Standard" ∷ entry 2 "ETL" ∷ entry 3 "AS4777" ∷ entry 4 "CQC" ∷ entry 5 "VDE4105" ∷ []

abbrev pub on_off : EnumValues
on_off = entry 0 "Output enable" ∷ entry 256 "Output disable" ∷ []

abbrev pub system_statuses : List Text
system_statuses =
    codes "Standby"
    ∷ codes "PV&Grid Supporting Loads"
    ∷ codes "Battery Discharging"
    ∷ codes "Fault"
    ∷ codes "Flash"
    ∷ codes "PV Charging"
    ∷ codes "Grid Charging"
    ∷ codes "PV&Grid Charging"
    ∷ codes "PV&Grid Charging+Grid Bypass"
    ∷ codes "PV Charging+Grid Bypass"
    ∷ codes "Grid Charging+Grid Bypass"
    ∷ codes "Grid Bypass"
    ∷ codes "PV Charging+Loads Supporting"
    ∷ codes "PV Discharging"
    ∷ codes "PV&Battery Discharging"
    ∷ codes "Gen Charging"
    ∷ codes "Gen Charging+Gen Bypass"
    ∷ codes "PV&Gen Charging"
    ∷ codes "PV&Gen Charging+Gen Bypass"
    ∷ codes "PV Charging+Gen Bypass"
    ∷ codes "Gen Bypass"
    ∷ codes "PV Export to Grid"
    ∷ codes "PV Export to Grid+Loads Supporting"
    ∷ codes "PV Charging+Export to Grid"
    ∷ codes "PV Charging+Export to Grid+Loads Supporting"
    ∷ codes "Battery Export to Grid"
    ∷ codes "Battery Export to Grid+Loads Supporting"
    ∷ codes "Battery&PV Export to Grid"
    ∷ codes "Battery&PV Export to Grid+Loads Supporting"
    ∷ []

-- systemStatus
module _ (parse_float : ParseFloat) where
  unfoldable pub system_status : ReadValue
  unfolding raw_as_int64 show_int
  system_status v = do
    number ← raw_as_int64 parse_float v
    ok (
        if leb_ℤ (pos 0) number && ltb_ℤ number (pos (length system_statuses))
        then string (get_or system_statuses (pos_part number) [])
        else string (codes "Unknown (" ++ show_int number ++ codes ")"))
