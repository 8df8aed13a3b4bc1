-- ===== src/Inverter/Device/Reading.antt =====
-- inverter.go: reading a table of registers in windows.
use spf5000es_server.Prelude.{
  ℕ, zero, suc, ◌+◌, ◌-◌, ◌≤◌, ◌<◌, ◌≡◌, refl, ap, ◌∙◌, true, List, [], ◌∷◌, ltb, ◌==◌,
  if◌then◌else◌, length, get_or, replicate, length-replicate, arith, Bool-cases, inl, inr, ◌≢◌, All,
  take, drop, length-drop,
}
use mathlib.Core.Path.{subst, ap₂}
use spf5000es_server.Error.{ok}
use spf5000es_server.Exec.{Exec}
use spf5000es_server.Register.{RegisterDef}
use spf5000es_server.Register.Windows.{
  RegisterWindow, build_register_window, build_register_windows,
}
use spf5000es_server.Register.Windows.Tiling.{
  Tiles, Covers, IsNonempty, build_register_window-Covers, build_register_windows-Tiles,
}
use spf5000es_server.Inverter.{decode_words, decode_register_value}
use spf5000es_server.Inverter.Device.{
  copy_at, read_counted, max_end, fill_windows, read_register_windows,
}
use spf5000es_server.Inverter.Device.Buffer.{
  segment, length-segment, get_or-segment, length-copy_at, get_or-copy_at_in, get_or-copy_at_below,
}

==_self : (n : ℕ) → (n == n) ≡ true
==_self n = ground arith

-- A reader whose every answer is the device's registers.
abbrev pub Serves : {W : Type 0} → (ℕ → ℕ) → (ℕ → ℕ → Exec W (List ℕ)) → Type 0
Serves {W} device reader =
    (start count : ℕ) (w : W) → (reader start count w).0 ≡ ok (segment device start count)

-- The buffer and the device agree from one register up to another.
abbrev pub Agree : (ℕ → ℕ) → ℕ → ℕ → List ℕ → Type 0
Agree device lo hi registers = (i : ℕ) → lo ≤ i → i < hi → get_or registers i 0 ≡ device i

module _ {W : Type 0} (device : ℕ → ℕ) (reader : ℕ → ℕ → Exec W (List ℕ))
    (serves : Serves device reader) where
  read_counted-ok :
      (window : RegisterWindow) (w : W)
      → (read_counted reader window w).0 ≡ ok (segment device window.start window.count)
  unfolding read_counted
  read_counted-ok window w = rw (
    serves window.start window.count w,
    length-segment device window.start window.count,
    ==_self window.count,
  )

  read_counted-cases :
      (window : RegisterWindow) (w : W)
      → (w' : W) × (read_counted reader window w
          ≡ (ok (segment device window.start window.count), w'))
  read_counted-cases window w = (
    (read_counted reader window w).1,
    ap (λ r. (r, (read_counted reader window w).1)) (read_counted-ok window w),
  )

copied :
    (device : ℕ → ℕ) (start count k : ℕ) (registers : List ℕ)
    → start + count ≤ length registers
    → k < count
    → get_or (copy_at start (segment device start count) registers) (start + k) 0
      ≡ device (start + k)
copied device start count k registers room h =
    get_or-copy_at_in start (segment device start count) registers k
      (rw (length-segment device start count) room) (rw (length-segment device start count) h)
    ∙ get_or-segment device start count k h

copy-Agree :
    (device : ℕ → ℕ) (lo start count : ℕ) (registers : List ℕ)
    → start + count ≤ length registers
    → Agree device lo start registers
    → Agree device lo (start + count) (copy_at start (segment device start count) registers)
copy-Agree device lo start count registers room agree i hlo hhi = elim (Bool-cases (ltb i start)) [
  | inl below ↦
      get_or-copy_at_below start (segment device start count) registers i (ground arith)
      ∙ agree i hlo (ground arith)
  | inr inside ↦
      let back : start + (i - start) ≡ i = ground arith in
      subst
        (λ (j : ℕ). get_or (copy_at start (segment device start count) registers) j 0 ≡ device j)
        back (copied device start count (i - start) registers room (ground arith))
]

Tiles-le :
    (windows : List RegisterWindow) (maximum start stop : ℕ)
    → Tiles maximum start stop windows
    → start ≤ stop
Tiles-le [] maximum start stop h = omega arith
Tiles-le (w ∷ windows) maximum start stop (begins, pos, small, h) =
    omega (arith, Tiles-le windows maximum (w.start + w.count) stop h)

max_end-ge : (windows : List RegisterWindow) (end : ℕ) → end ≤ max_end end windows
unfolding max_end
max_end-ge [] end = omega arith
max_end-ge (w ∷ windows) end =
    ground
      (arith, max_end-ge windows (if ltb end (w.start + w.count) then w.start + w.count else end))

stop-le-max_end :
    (windows : List RegisterWindow) (w : RegisterWindow) (maximum start stop end : ℕ)
    → Tiles maximum start stop (w ∷ windows)
    → stop ≤ max_end end (w ∷ windows)
unfolding max_end
stop-le-max_end [] w maximum start stop end h = ground arith
stop-le-max_end (v ∷ windows) w maximum start stop end (begins, pos, small, h) =
    stop-le-max_end windows v maximum (w.start + w.count) stop _ h

-- What reading by windows comes to: a buffer that agrees with the device.
abbrev pub Reads : {W : Type 0} → (ℕ → ℕ) → ℕ → ℕ → Exec W (List ℕ) → W → Type 0
Reads device lo hi m w =
    (registers : List ℕ) × ((m w).0 ≡ ok registers)
    × (hi ≤ length registers)
    × Agree device lo hi registers

module _ {W : Type 0} (device : ℕ → ℕ) (reader : ℕ → ℕ → Exec W (List ℕ))
    (serves : Serves device reader) where
  fill_windows-Reads :
      (windows : List RegisterWindow) (maximum lo start stop : ℕ) (registers : List ℕ) (w : W)
      → Tiles maximum start stop windows
      → stop ≤ length registers
      → Agree device lo start registers
      → Reads device lo stop (fill_windows reader windows registers) w
  unfolding fill_windows
  fill_windows-Reads [] maximum lo start stop registers w tiles room agree =
      (registers, refl, room, λ i hlo hhi. agree i hlo (omega arith))
  fill_windows-Reads (window ∷ windows) maximum lo start stop registers w
        (begins, pos, small, tiles) room agree =
      let (w', e) = read_counted-cases device reader serves window w in
      let next = window.start + window.count in
      rw e (
        fill_windows-Reads windows maximum lo next stop
          (copy_at window.start (segment device window.start window.count) registers) w' tiles
          (rw (length-copy_at window.start (segment device window.start window.count) registers)
            room)
          (copy-Agree device lo window.start window.count registers
            (omega (arith, Tiles-le windows maximum next stop tiles)) (rw begins agree)))

  -- Windows that tile a range, read from a device, give a buffer that agrees with it there.
  pub read_register_windows-Reads :
      (windows : List RegisterWindow) (maximum start stop : ℕ) (w : W)
      → start < stop
      → Tiles maximum start stop windows
      → Reads device start stop (read_register_windows reader windows) w
  unfolding read_register_windows
  read_register_windows-Reads [] maximum start stop w more tiles = absurd (omega arith)
  read_register_windows-Reads (window ∷ windows) maximum start stop w more tiles =
      fill_windows-Reads (window ∷ windows) maximum start start stop
        (replicate (max_end 0 (window ∷ windows)) 0) w tiles
        (rw (length-replicate {A = ℕ} (max_end 0 (window ∷ windows)) 0)
          (stop-le-max_end windows window maximum start stop 0 tiles))
        (λ i hlo hhi. absurd (omega arith))

get_or-drop :
    (registers : List ℕ) (start i : ℕ)
    → get_or (drop start registers) i 0 ≡ get_or registers (start + i) 0
get_or-drop registers zero i = let same : 0 + i ≡ i = omega arith in rw same
get_or-drop [] (suc start) i = refl
get_or-drop (r ∷ registers) (suc start) i =
    let next : suc start + i ≡ suc (start + i) = omega arith in
    rw next (get_or-drop registers start i)

take-segment :
    (device : ℕ → ℕ) (registers : List ℕ) (start n : ℕ)
    → n ≤ length registers
    → ((i : ℕ) → i < n → get_or registers i 0 ≡ device (start + i))
    → take n registers ≡ segment device start n
unfolding segment
take-segment device registers start zero h agree = refl
take-segment device [] start (suc n) h agree = absurd (omega arith)
take-segment device (r ∷ registers) start (suc n) h agree =
    let here : start + 0 ≡ start = omega arith in
    ap₂ (λ x l. x ∷ l) (agree 0 (omega arith) ∙ ap device here)
      (take-segment device registers (suc start) n (omega arith)
        λ i hi. agree (suc i) (omega arith) ∙ ap device (omega arith))

-- The definition is decoded from the device's own registers.
abbrev pub DecodesFrom : (ℕ → ℕ) → List ℕ → RegisterDef → Type 0
DecodesFrom device buffer d =
    decode_register_value buffer d ≡ decode_words d.kind (segment device d.start d.length)

decodes_covered :
    (device : ℕ → ℕ) (buffer : List ℕ) (lo hi : ℕ) (d : RegisterDef)
    → 0 < d.length
    → lo ≤ d.start
    → d.start + d.length ≤ hi
    → hi ≤ length buffer
    → Agree device lo hi buffer
    → DecodesFrom device buffer d
unfolding decode_register_value
decodes_covered device buffer lo hi d pos hlo hhi room agree =
    let words =
      take-segment device (drop d.start buffer) d.start d.length (rw length-drop (omega arith))
        λ i h. get_or-drop buffer d.start i ∙ agree (d.start + i) (omega arith) (omega arith) in
    ground (arith, words)

decodes-All :
    (device : ℕ → ℕ) (buffer : List ℕ) (window : RegisterWindow) (registers : List RegisterDef)
    → All IsNonempty registers
    → All (Covers window) registers
    → window.start + window.count ≤ length buffer
    → Agree device window.start (window.start + window.count) buffer
    → All (DecodesFrom device buffer) registers
decodes-All device buffer window [] ne covers room agree = tt
decodes-All device buffer window (d ∷ ds) ne covers room agree = (
  decodes_covered device buffer window.start (window.start + window.count) d ne.0 covers.0.0
      covers.0.1 room agree,
  decodes-All device buffer window ds ne.1 covers.1 room agree,
)

-- Reading a non-empty table of registers in windows from a reader that answers with the device's
-- registers succeeds, and every definition of the table is decoded from the device's own registers
-- at its place.
pub read_table-DecodesFrom :
    {W : Type 0} (device : ℕ → ℕ) (reader : ℕ → ℕ → Exec W (List ℕ)) (registers : List RegisterDef)
    (maximum : ℕ) (w : W)
    → Serves device reader
    → 0 < maximum
    → registers ≢ []
    → All IsNonempty registers
    → (buffer : List ℕ) × ((read_register_windows reader
          (build_register_windows registers maximum)
          w).0
        ≡ ok buffer)
      × All (DecodesFrom device buffer) registers
read_table-DecodesFrom device reader [] maximum w serves pos filled ne = absurd (filled refl)
read_table-DecodesFrom device reader (d ∷ ds) maximum w serves pos filled ne =
    let window = build_register_window (d ∷ ds) in
    let covers = build_register_window-Covers (d ∷ ds) ne in
    let (buffer, e, room, agree) =
      read_register_windows-Reads device reader serves (build_register_windows (d ∷ ds) maximum)
        maximum window.start (window.start + window.count) w (omega (arith, covers.0, ne.0))
        (build_register_windows-Tiles (d ∷ ds) maximum pos) in
    (buffer, e, decodes-All device buffer window (d ∷ ds) ne covers room agree)
