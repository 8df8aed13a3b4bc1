-- ===== src/Register/Holdings.antt =====
-- registers.go: holdingRegisters.
pub mod WriteBack
use spf5000es_server.Prelude.{List, [], ◌∷◌, none, some}
use spf5000es_server.Value.{ParseFloat}
use spf5000es_server.Register.{RegisterDef, register, register_uint, register_int, register_char}
use spf5000es_server.Register.Codecs.{
  identity, scaled, scale_write, int_write, bool_write, string_write, over_temp_write, as_bool,
  enum_read, enum_write, reverse_enum,
}
use spf5000es_server.Register.Enums.{
  output_config, charge_config, pv_model, ac_in_model, output_volt_type, output_freq_type,
  over_load_restart, over_temp_restart, battery_type, aging_mode, safety_type, on_off,
}

module _ (parse_float : ParseFloat) where
  unfoldable pub holding_registers : List RegisterDef
  holding_registers =
      register "OnOff" 0 1 register_uint (enum_read parse_float on_off) none
      ∷ register "OutputConfig" 1 1 register_uint (enum_read parse_float output_config)
          (some (enum_write (reverse_enum output_config)))
      ∷ register "ChargeConfig" 2 1 register_uint (enum_read parse_float charge_config)
          (some (enum_write (reverse_enum charge_config)))
      ∷ register "UtiOutStart" 3 1 register_uint identity (some (int_write parse_float))
      ∷ register "UtiOutEnd" 4 1 register_uint identity (some (int_write parse_float))
      ∷ register "UtiChargeStart" 5 1 register_uint identity (some (int_write parse_float))
      ∷ register "UtiChargeEnd" 6 1 register_uint identity (some (int_write parse_float))
      ∷ register "PVModel" 7 1 register_uint (enum_read parse_float pv_model)
          (some (enum_write (reverse_enum pv_model)))
      ∷ register "ACInModel" 8 1 register_uint (enum_read parse_float ac_in_model)
          (some (enum_write (reverse_enum ac_in_model)))
      ∷ register "FWVersion" 9 3 register_char identity none
      ∷ register "FWVersion2" 12 3 register_char identity none
      ∷ register "LCDLanguage" 15 1 register_uint identity (some (int_write parse_float))
      ∷ register "GridV_Adj" 16 1 register_uint identity none
      ∷ register "InvV_Adj" 17 1 register_uint identity none
      ∷ register "OutputVoltType" 18 1 register_uint (enum_read parse_float output_volt_type)
          (some (enum_write (reverse_enum output_volt_type)))
      ∷ register "OutputFreqType" 19 1 register_uint (enum_read parse_float output_freq_type)
          (some (enum_write (reverse_enum output_freq_type)))
      ∷ register "OverLoadRestart" 20 1 register_uint (enum_read parse_float over_load_restart)
          (some (enum_write (reverse_enum over_load_restart)))
      ∷ register "OverTempRestart" 21 1 register_uint (enum_read parse_float over_temp_restart)
          (some over_temp_write)
      ∷ register "BuzzerEnable" 22 1 register_uint (as_bool parse_float) (some bool_write)
      ∷ register "SerialNumber" 23 5 register_char identity (some string_write)
      ∷ register "MoudleH" 28 1 register_uint identity (some (int_write parse_float))
      ∷ register "MoudleL" 29 1 register_uint identity (some (int_write parse_float))
      ∷ register "ComAddress" 30 1 register_uint identity (some (int_write parse_float))
      ∷ register "FlashStart" 31 1 register_uint identity (some (int_write parse_float))
      ∷ register "ResetUserInfo" 32 1 register_uint identity (some (int_write parse_float))
      ∷ register "ResetToFactory" 33 1 register_uint identity (some (int_write parse_float))
      ∷ register "MaxChargeAmps" 34 1 register_uint identity (some (int_write parse_float))
      ∷ register "BulkChargeVolt" 35 1 register_uint (scaled parse_float 10)
          (some (scale_write parse_float 10))
      ∷ register "FloatChargeVolt" 36 1 register_uint (scaled parse_float 10)
          (some (scale_write parse_float 10))
      ∷ register "BatLowtoUti" 37 1 register_uint (scaled parse_float 10)
          (some (scale_write parse_float 10))
      ∷ register "ACChargeAmps" 38 1 register_uint identity (some (int_write parse_float))
      ∷ register "BatteryType" 39 1 register_uint (enum_read parse_float battery_type)
          (some (enum_write (reverse_enum battery_type)))
      ∷ register "AgingMode" 40 1 register_uint (enum_read parse_float aging_mode)
          (some (enum_write (reverse_enum aging_mode)))
      ∷ register "FunctionMask" 41 1 register_uint identity (some (int_write parse_float))
      ∷ register "SafetyType" 42 1 register_uint (enum_read parse_float safety_type)
          (some (enum_write (reverse_enum safety_type)))
      ∷ register "DTC" 43 1 register_uint identity none
      ∷ register "HoldingChipSelect" 51 1 register_uint identity none
      ∷ register "uwAcVHighL" 52 1 register_uint identity none
      ∷ register "uwAcVLowL" 53 1 register_uint identity none
      ∷ register "uwAcFreqHighL" 54 1 register_uint identity none
      ∷ register "uwAcFreqLowL" 55 1 register_uint identity none
      ∷ register "HoldingVar1Setting" 56 1 register_uint identity none
      ∷ register "DebugModeEnable" 57 1 register_uint (as_bool parse_float) none
      ∷ register "ControlFWBuildNo2" 67 1 register_uint identity none
      ∷ register "ControlFWBuildNo1" 68 1 register_uint identity none
      ∷ register "ComFWBuildNo2" 69 1 register_uint identity none
      ∷ register "ComFWBuildNo1" 70 1 register_uint identity none
      ∷ register "ModbusVersion" 73 1 register_uint identity none
      ∷ register "SCCComMode" 75 1 register_uint identity none
      ∷ register "RateWatt" 76 2 register_uint (scaled parse_float 10) none
      ∷ register "RateVA" 78 2 register_uint (scaled parse_float 10) none
      ∷ register "ComboardVer" 80 1 register_uint identity none
      ∷ register "uwBatPieceNum" 81 1 register_uint identity (some (int_write parse_float))
      ∷ register "wBatLowCutOff" 82 1 register_uint (scaled parse_float 10) none
      ∷ register "MaxGeneratorChargeAmps" 83 1 register_uint identity none
      ∷ register "NomGridVRaw" 84 1 register_uint identity none
      ∷ register "NomGridFreqRaw" 85 1 register_uint identity none
      ∷ register "NomBatVRaw" 86 1 register_uint identity none
      ∷ register "NomPVCurrRaw" 87 1 register_uint identity none
      ∷ register "NomAcChgCurrRaw" 88 1 register_uint identity none
      ∷ register "NomOpVRaw" 89 1 register_uint identity none
      ∷ register "NomOpFreqRaw" 90 1 register_uint identity none
      ∷ register "NomOpPowRaw" 91 1 register_uint identity none
      ∷ register "uwAC2BatVolt" 95 1 register_uint (scaled parse_float 10)
          (some (scale_write parse_float 10))
      ∷ register "BypEnable" 96 1 register_uint (as_bool parse_float) (some bool_write)
      ∷ register "PowSavingEnable" 97 1 register_uint (as_bool parse_float) (some bool_write)
      ∷ register "SpowBalEnable" 98 1 register_uint (as_bool parse_float) (some bool_write)
      ∷ register "ClrEnergyToday" 99 1 register_uint (as_bool parse_float) (some bool_write)
      ∷ register "ClrEnergyAll" 100 1 register_uint (as_bool parse_float) (some bool_write)
      ∷ register "BurnInTestEnable" 101 1 register_uint (as_bool parse_float) (some bool_write)
      ∷ register "ManualStartEnable" 102 1 register_uint (as_bool parse_float) (some bool_write)
      ∷ register "SciLossChkEnable" 103 1 register_uint (as_bool parse_float) (some bool_write)
      ∷ register "BlightEnable" 104 1 register_uint (as_bool parse_float) (some bool_write)
      ∷ register "ParaMaxChgAmps" 105 1 register_uint identity none
      ∷ register "LiProtocolType" 106 1 register_uint identity (some (int_write parse_float))
      ∷ register "AudioAlarmEnable" 107 1 register_uint (as_bool parse_float) (some bool_write)
      ∷ []
