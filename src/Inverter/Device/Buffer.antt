-- ===== src/Inverter/Device/Buffer.antt =====
-- inverter.go: the buffer that readRegisterWindows copies its answers into.
use spf5000es_server.Prelude.{
  ℕ, zero, suc, ◌+◌, ◌≤◌, ◌<◌, ◌≡◌, refl, ap, List, [], ◌∷◌, ltb, if◌then◌else◌, length, get_or,
  arith,
}
use spf5000es_server.Inverter.Device.{overlay, copy_at}

-- The registers of a device from `start` on.
unfoldable pub segment : (ℕ → ℕ) → ℕ → ℕ → List ℕ
segment registers start zero = []
segment registers start (suc n) = registers start ∷ segment registers (suc start) n

pub length-segment : (f : ℕ → ℕ) (start n : ℕ) → length (segment f start n) ≡ n
unfolding segment
length-segment f start zero = refl
length-segment f start (suc n) = ap suc (length-segment f (suc start) n)

pub get_or-segment :
    (f : ℕ → ℕ) (start n i : ℕ) → i < n → get_or (segment f start n) i 0 ≡ f (start + i)
unfolding segment
get_or-segment f start zero i h = absurd (omega arith)
get_or-segment f start (suc n) zero h = ap f (omega arith)
get_or-segment f start (suc n) (suc i) h =
    let shift : suc start + i ≡ start + suc i = omega arith in
    rw (← shift) (get_or-segment f (suc start) n i (omega arith))

pub length-overlay :
    (values registers : List ℕ) → length (overlay values registers) ≡ length registers
unfolding overlay
length-overlay [] registers = refl
length-overlay (v ∷ values) [] = refl
length-overlay (v ∷ values) (r ∷ registers) = ap suc (length-overlay values registers)

pub length-copy_at :
    (start : ℕ) (values registers : List ℕ)
    → length (copy_at start values registers) ≡ length registers
unfolding copy_at
length-copy_at zero values registers = length-overlay values registers
length-copy_at (suc start) values [] = refl
length-copy_at (suc start) values (r ∷ registers) = ap suc (length-copy_at start values registers)

pub get_or-overlay :
    (values registers : List ℕ) (i : ℕ)
    → length values ≤ length registers
    → get_or (overlay values registers) i 0
      ≡ (if ltb i (length values) then get_or values i 0 else get_or registers i 0)
unfolding overlay
get_or-overlay [] registers i h = ground arith
get_or-overlay (v ∷ values) [] i h = absurd (omega arith)
get_or-overlay (v ∷ values) (r ∷ registers) zero h = ground arith
get_or-overlay (v ∷ values) (r ∷ registers) (suc i) h =
    ground (arith, get_or-overlay values registers i)

-- Inside the copy stand the copied values, outside it what stood there.
pub get_or-copy_at_in :
    (start : ℕ) (values registers : List ℕ) (i : ℕ)
    → start + length values ≤ length registers
    → i < length values
    → get_or (copy_at start values registers) (start + i) 0 ≡ get_or values i 0
unfolding copy_at
get_or-copy_at_in zero values registers i h hi =
    let same : 0 + i ≡ i = omega arith in
    rw same (ground (arith, get_or-overlay values registers i))
get_or-copy_at_in (suc start) values [] i h hi = absurd (omega arith)
get_or-copy_at_in (suc start) values (r ∷ registers) i h hi =
    let next : suc start + i ≡ suc (start + i) = omega arith in
    rw next (get_or-copy_at_in start values registers i (omega arith) hi)

pub get_or-copy_at_below :
    (start : ℕ) (values registers : List ℕ) (i : ℕ)
    → i < start
    → get_or (copy_at start values registers) i 0 ≡ get_or registers i 0
unfolding copy_at
get_or-copy_at_below zero values registers i h = absurd (omega arith)
get_or-copy_at_below (suc start) values [] i h = refl
get_or-copy_at_below (suc start) values (r ∷ registers) zero h = refl
get_or-copy_at_below (suc start) values (r ∷ registers) (suc i) h =
    get_or-copy_at_below start values registers i (omega arith)
