-- ===== src/Register/Inputs.antt =====
-- registers.go: inputRegisters.
use spf5000es_server.Prelude.{List, [], ◌∷◌, none}
use spf5000es_server.Value.{ParseFloat}
use spf5000es_server.Register.{RegisterDef, register, register_uint, register_int}
use spf5000es_server.Register.Codecs.{identity, scaled}
use spf5000es_server.Register.Enums.{system_status}

module _ (parse_float : ParseFloat) where
  unfoldable pub input_registers : List RegisterDef
  input_registers =
      register "SystemStatus" 0 1 register_uint (system_status parse_float) none
      ∷ register "PV1Volt" 1 1 register_uint (scaled parse_float 10) none
      ∷ register "PV2Volt" 2 1 register_uint (scaled parse_float 10) none
      ∷ register "PV1Watt" 3 2 register_uint (scaled parse_float 10) none
      ∷ register "PV2Watt" 5 2 register_uint (scaled parse_float 10) none
      ∷ register "PV1Amps" 7 1 register_uint (scaled parse_float 10) none
      ∷ register "PV2Amps" 8 1 register_uint (scaled parse_float 10) none
      ∷ register "OutputWatt" 9 2 register_uint (scaled parse_float 10) none
      ∷ register "OutputVA" 11 2 register_uint (scaled parse_float 10) none
      ∷ register "ACChrWatt" 13 2 register_uint (scaled parse_float 10) none
      ∷ register "ACChrVA" 15 2 register_uint (scaled parse_float 10) none
      ∷ register "BatteryVolt" 17 1 register_uint (scaled parse_float 100) none
      ∷ register "BatterySOC" 18 1 register_uint identity none
      ∷ register "BusVolt" 19 1 register_uint (scaled parse_float 10) none
      ∷ register "GridVolt" 20 1 register_uint (scaled parse_float 10) none
      ∷ register "LineFreq" 21 1 register_uint (scaled parse_float 100) none
      ∷ register "OutputACVolt" 22 1 register_uint (scaled parse_float 10) none
      ∷ register "OutputACFreq" 23 1 register_uint (scaled parse_float 100) none
      ∷ register "OutputDCVolt" 24 1 register_uint (scaled parse_float 10) none
      ∷ register "InvTempC" 25 1 register_int (scaled parse_float 10) none
      ∷ register "DCDCTempC" 26 1 register_int (scaled parse_float 10) none
      ∷ register "LoadPercent" 27 1 register_uint (scaled parse_float 10) none
      ∷ register "BatteryPortVolt" 28 1 register_uint (scaled parse_float 100) none
      ∷ register "BatteryBusVolt" 29 1 register_uint (scaled parse_float 100) none
      ∷ register "WorkTimeTotalSeconds" 30 2 register_uint (scaled parse_float 2) none
      ∷ register "Buck1TempC" 32 1 register_int (scaled parse_float 10) none
      ∷ register "Buck2TempC" 33 1 register_int (scaled parse_float 10) none
      ∷ register "OutputAmps" 34 1 register_uint (scaled parse_float 10) none
      ∷ register "InvAmps" 35 1 register_uint (scaled parse_float 10) none
      ∷ register "ACInputWatt" 36 2 register_int (scaled parse_float 10) none
      ∷ register "ACInputVA" 38 2 register_uint (scaled parse_float 10) none
      ∷ register "FaultBit" 40 1 register_uint identity none
      ∷ register "WarningBit" 41 1 register_uint identity none
      ∷ register "WarningBitHigh" 42 1 register_uint identity none
      ∷ register "WarningValue" 43 1 register_uint identity none
      ∷ register "DeviceTypeCode" 44 1 register_uint identity none
      ∷ register "ExportToGridTodaykWh" 45 1 register_uint (scaled parse_float 10) none
      ∷ register "ExportToGridTotalkWh" 46 2 register_uint (scaled parse_float 10) none
      ∷ register "PV1EnergyTodaykWh" 48 2 register_uint (scaled parse_float 10) none
      ∷ register "PV1EnergyTotalkWh" 50 2 register_uint (scaled parse_float 10) none
      ∷ register "PV2EnergyTodaykWh" 52 2 register_uint (scaled parse_float 10) none
      ∷ register "PV2EnergyTotalkWh" 54 2 register_uint (scaled parse_float 10) none
      ∷ register "ACChargeEnergyTodaykWh" 56 2 register_uint (scaled parse_float 10) none
      ∷ register "ACChargeEnergyTotalkWh" 58 2 register_uint (scaled parse_float 10) none
      ∷ register "BatteryDischargeEnergyTodaykWh" 60 2 register_uint (scaled parse_float 10) none
      ∷ register "BatteryDischargeEnergyTotalkWh" 62 2 register_uint (scaled parse_float 10) none
      ∷ register "ACDischargeEnergyTodaykWh" 64 2 register_uint (scaled parse_float 10) none
      ∷ register "ACDischargeEnergyTotalkWh" 66 2 register_uint (scaled parse_float 10) none
      ∷ register "ACChargeBatteryAmps" 68 1 register_uint (scaled parse_float 10) none
      ∷ register "ACDischargeWatt" 69 2 register_uint (scaled parse_float 10) none
      ∷ register "ACDischargeVA" 71 2 register_uint (scaled parse_float 10) none
      ∷ register "BatteryDischargeWatt" 73 2 register_uint (scaled parse_float 10) none
      ∷ register "BatteryDischargeVA" 75 2 register_uint (scaled parse_float 10) none
      ∷ register "BatteryWatt" 77 2 register_int (scaled parse_float 10) none
      ∷ register "SlaveExistCount" 79 1 register_uint identity none
      ∷ register "MpptFanSpeedPercent" 81 1 register_uint identity none
      ∷ register "InvFanSpeedPercent" 82 1 register_uint identity none
      ∷ register "TotalChargeAmps" 83 1 register_uint (scaled parse_float 10) none
      ∷ register "TotalDischargeAmps" 84 1 register_uint (scaled parse_float 10) none
      ∷ register "OPDischargeEnergyTodaykWh" 85 2 register_uint (scaled parse_float 10) none
      ∷ register "OPDischargeEnergyTotalkWh" 87 2 register_uint (scaled parse_float 10) none
      ∷ []
