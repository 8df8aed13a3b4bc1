-- ===== src/Register/Windows/Tiling.antt =====
-- registers.go: lemmas on the windows of a table of registers.
use spf5000es_server.Prelude.{
  ℕ, zero, suc, ◌+◌, ◌-◌, ◌≤◌, ◌<◌, ◌≡◌, refl, List, [], ◌∷◌, ltb, leb, ◌==◌, if◌then◌else◌, arith,
  Bool-cases, inl, inr, All,
}
use spf5000es_server.Register.{RegisterDef}
use spf5000es_server.Register.Windows.{
  RegisterWindow, past, grow, build_register_window, split_window, build_register_windows,
}
use mathlib.Core.Path.{subst}
use native.Mathlib.Nat.{le_refl}

-- Windows of 1 to `maximum` registers, each beginning where the one before it ends.
abbrev pub Tiles : (maximum start stop : ℕ) → List RegisterWindow → Type 0
Tiles maximum start stop [] = start ≡ stop
Tiles maximum start stop (w ∷ ws) =
    (w.start ≡ start)
    × (0 < w.count)
    × (w.count ≤ maximum)
    × Tiles maximum (w.start + w.count) stop ws

-- The registers of a definition lie in the window.
abbrev pub Covers : RegisterWindow → RegisterDef → Type 0
Covers w d = (w.start ≤ d.start) × (d.start + d.length ≤ w.start + w.count)

abbrev pub IsNonempty : RegisterDef → Type 0
IsNonempty d = 0 < d.length

split_window-past :
    (fuel current end maximum : ℕ) → end < current → split_window fuel current end maximum ≡ []
unfolding split_window
split_window-past zero current end maximum h = refl
split_window-past (suc fuel) current end maximum h = ground arith

split_window-Tiles :
    (fuel current end maximum : ℕ)
    → 0 < maximum
    → current ≤ end + 1
    → end + 1 ≤ current + fuel
    → Tiles maximum current (end + 1) (split_window fuel current end maximum)
unfolding split_window
split_window-Tiles zero current end maximum h lo hi = omega arith
split_window-Tiles (suc fuel) current end maximum h lo hi = elim (Bool-cases (leb current end)) [
  | inr past ↦ rw past (ground arith)
  | inl more ↦ elim (Bool-cases (ltb end (current + maximum - 1))) [
    | inl cut ↦
        rw (more, cut, split_window-past fuel (current + maximum) end maximum (ground arith))
          (refl, ground arith, ground arith, ground arith)
    | inr whole ↦
        rw (more, whole)
          (
            refl,
            h,
            le_refl maximum,
            split_window-Tiles fuel (current + maximum) end maximum h (ground arith) (ground arith),
          )
  ]
]

grow-start :
    (start stop : ℕ) (ds : List RegisterDef)
    → start ≤ stop
    → All IsNonempty ds
    → ((grow start stop ds).start ≤ start)
      × (stop ≤ (grow start stop ds).start + (grow start stop ds).count)
unfolding grow
grow-start start stop [] h ne = omega arith
grow-start start stop (d ∷ ds) h ne = ground (
  arith,
  grow-start (if ltb d.start start then d.start else start)
      (if ltb stop (past d) then past d else stop) ds,
)

grow-Covers :
    (start stop : ℕ) (ds : List RegisterDef)
    → start ≤ stop
    → All IsNonempty ds
    → All (Covers (grow start stop ds)) ds
unfolding grow
grow-Covers start stop [] h ne = tt
grow-Covers start stop (d ∷ ds) h ne =
    let start' = if ltb d.start start then d.start else start in
    let stop' = if ltb stop (past d) then past d else stop in
    let bounds = grow-start start' stop' ds (ground arith) ne.1 in
    (
      (ground (arith, bounds), ground (arith, bounds)),
      grow-Covers start' stop' ds (ground arith) ne.1,
    )

-- Where each definition of a table has a register or more, the window of the table holds the
-- registers of every definition.
pub build_register_window-Covers :
    (registers : List RegisterDef)
    → All IsNonempty registers
    → All (Covers (build_register_window registers)) registers
unfolding build_register_window
build_register_window-Covers [] ne = tt
build_register_window-Covers (d ∷ ds) ne =
    let bounds = grow-start d.start (past d) ds (omega arith) ne.1 in
    (
      (ground (arith, bounds), ground (arith, bounds)),
      grow-Covers d.start (past d) ds (omega arith) ne.1,
    )

split_whole :
    (start count maximum : ℕ)
    → 0 < maximum
    → 0 < count
    → Tiles maximum start (start + count) (split_window count start (start + count - 1) maximum)
split_whole start count maximum h pos =
    let stop : start + count - 1 + 1 ≡ start + count = omega arith in
    subst (λ (s : ℕ). Tiles maximum start s (split_window count start (start + count - 1) maximum))
      stop
      (split_window-Tiles count start (start + count - 1) maximum h (omega arith) (omega arith))

-- For a positive maximum, the windows of a table tile its window, and each has from one register
-- to the maximum.
pub build_register_windows-Tiles :
    (registers : List RegisterDef) (maximum : ℕ)
    → 0 < maximum
    → let window = build_register_window registers in
      Tiles maximum window.start
        (window.start + window.count)
        (build_register_windows registers maximum)
unfolding build_register_windows
build_register_windows-Tiles registers maximum h =
    let window = build_register_window registers in
    elim (Bool-cases (window.count == 0)) [
      | inl empty ↦ rw empty (ground arith)
      | inr filled ↦ rw filled (split_whole window.start window.count maximum h (ground arith))
    ]
