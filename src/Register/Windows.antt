-- ===== src/Register/Windows.antt =====
-- registers.go: the windows of registers that are read in one request.
pub mod Tiling
pub mod Finding
use spf5000es_server.Prelude.{
  ℕ, zero, suc, ◌+◌, ◌-◌, List, [], ◌∷◌, String, Option, none, some, ltb, leb, ◌==◌, if◌then◌else◌,
  eq_string,
}
use spf5000es_server.Register.{RegisterDef}

pub record RegisterWindow : Type 0 where
  pub start : ℕ
  pub count : ℕ

-- start + length, one more than definitionEnd, which is -1 for an empty definition at 0
abbrev pub past : RegisterDef → ℕ
past d = d.start + d.length

-- The loop of buildRegisterWindow over the definitions after the first; `stop` is end + 1.
unfoldable pub grow : ℕ → ℕ → List RegisterDef → RegisterWindow
grow start stop [] = record { start = start; count = stop - start }
grow start stop (d ∷ ds) =
    grow (if ltb d.start start then d.start else start) (if ltb stop (past d) then past d else stop)
      ds

unfoldable pub build_register_window : List RegisterDef → RegisterWindow
unfolding grow
build_register_window [] = record { start = 0; count = 0 }
build_register_window (d ∷ ds) = grow d.start (past d) ds

-- The loop of buildRegisterWindows, with fuel.
unfoldable pub split_window : ℕ → ℕ → ℕ → ℕ → List RegisterWindow
split_window zero current end maximum = []
split_window (suc fuel) current end maximum =
    let rest = split_window fuel (current + maximum) end maximum in
    if leb current end
    then record {
      start = current;
      count = if ltb end (current + maximum - 1) then end - current + 1 else maximum;
    }
      ∷ rest
    else []

-- `nil` for an empty window. Each round takes a register at least, so `count` rounds are enough.
unfoldable pub build_register_windows : List RegisterDef → ℕ → List RegisterWindow
unfolding build_register_window split_window
build_register_windows registers maximum =
    let window = build_register_window registers in
    let end = window.start + window.count - 1 in
    if window.count == 0 then [] else split_window window.count window.start end maximum

-- maxHoldingReadRegisters of modbus_client.go
abbrev pub max_holding_read_registers : ℕ
max_holding_read_registers = 45

-- registerMap and a look-up in it: a later definition of a key hides an earlier one.
unfoldable pub find_register : String → List RegisterDef → Option RegisterDef
find_register key [] = none
find_register key (d ∷ ds) = elim (find_register key ds) [
  | none ↦ if eq_string d.key key then some d else none
  | some later ↦ some later
]
