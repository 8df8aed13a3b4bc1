-- ===== src/Watchdog.antt =====
-- clock_watchdog.go: the comparison of the wall clock with the monotonic one. Durations are whole
-- numbers of nanoseconds; no two samples are so far apart that time.Sub saturates.
pub mod Reports
use spf5000es_server.Prelude.{
  ℕ, ◌*◌, ◌^◌, ◌≤◌, ◌≡◌, ◌⊎◌, ◌↔◌, Bool, true, false, not, ◌&&◌, ◌||◌, List, [], ◌∷◌, ℤ, ◌-ℤ◌, abs,
  eqb_ℤ, leb, String, eq_string, if◌then◌else◌, arith,
}

-- clockJumpTolerance and clockWatchdogInterval
abbrev pub clock_jump_tolerance : ℕ
clock_jump_tolerance = 500 * 10 ^ 6

abbrev pub clock_watchdog_interval : ℕ
clock_watchdog_interval = 10 ^ 9

-- clockSample
pub record ClockSample : Type 0 where
  pub wall : ℤ
  pub monotonic : ℤ
  pub zone_name : String
  pub zone_offset : ℤ

abbrev pub jump : ClockSample → ClockSample → ℤ
jump previous current = (current.wall -ℤ previous.wall) -ℤ (current.monotonic -ℤ previous.monotonic)

abbrev pub zone_changed : ClockSample → ClockSample → Bool
zone_changed previous current =
    not (eq_string current.zone_name previous.zone_name)
    || not (eqb_ℤ current.zone_offset previous.zone_offset)

-- Check: whether the clock changed, and the sample that the next check compares with.
unfoldable pub check : (previous current : ClockSample) → Bool × ClockSample
check previous current =
    let clock_jumped = leb clock_jump_tolerance (abs (jump previous current)) in
    (if not clock_jumped && not (zone_changed previous current) then false else true, current)

-- The reports of the checks that follow each other, each on the sample that the one before it kept.
unfoldable pub check_all : ClockSample → List ClockSample → List Bool
unfolding check
check_all previous [] = []
check_all previous (current ∷ samples) =
    let (changed, kept) = check previous current in changed ∷ check_all kept samples
