-- ===== src/Watchdog/Reports.antt =====
-- clock_watchdog.go: what the reports of the checks say of the clocks that were sampled.
use spf5000es_server.Prelude.{
  ℕ, ◌+◌, ◌<◌, ◌≡◌, ◌↔◌, Bool, true, false, not, ◌&&◌, ◌||◌, List, [], ◌∷◌, ℤ, pos, negsuc,
  pos_part, neg_part, ◌-ℤ◌, ◌+ℤ◌, ◌<ℤ◌, abs, eqb_ℤ, leb, eq_string_iff, if◌then◌else◌, arith,
}
use spf5000es_server.Watchdog.{
  ClockSample, clock_jump_tolerance, jump, zone_changed, check, check_all,
}

-- How far the wall clock is ahead of the monotonic one.
abbrev pub ahead : ClockSample → ℤ
ahead s = s.wall -ℤ s.monotonic

-- Two samples of clocks that nobody has set: the wall clock kept its distance from the monotonic one,
-- up to the tolerance, and the zone is the same.
abbrev pub Steady : ClockSample → ClockSample → Type 0
Steady earlier later =
    (ahead earlier <ℤ ahead later +ℤ pos clock_jump_tolerance)
    × (ahead later <ℤ ahead earlier +ℤ pos clock_jump_tolerance)
    × (later.zone_name ≡ earlier.zone_name)
    × (later.zone_offset ≡ earlier.zone_offset)

-- One report for each sample, which is false exactly where it is steady after the sample before it.
abbrev pub Reported : ClockSample → List ClockSample → List Bool → Type 0
Reported previous [] [] = Unit
Reported previous (current ∷ samples) (changed ∷ reports) =
    ((changed ≡ false) ↔ Steady previous current) × Reported current samples reports
Reported previous _ _ = ⊥

-ℤ_parts :
    (a b : ℤ)
    → pos_part (a -ℤ b) + neg_part a + pos_part b ≡ neg_part (a -ℤ b) + pos_part a + neg_part b
-ℤ_parts a b = ground arith

+ℤ_parts :
    (a b : ℤ)
    → pos_part (a +ℤ b) + neg_part a + neg_part b ≡ neg_part (a +ℤ b) + pos_part a + pos_part b
+ℤ_parts a b = ground arith

abs_below :
    (z : ℤ) (t : ℕ) → (abs z < t) ↔ ((pos_part z < t + neg_part z) × (neg_part z < t + pos_part z))
abs_below (pos n) t = (λ h. (omega arith, omega arith), λ h. omega arith)
abs_below (negsuc n) t = (λ h. (omega arith, omega arith), λ h. omega arith)

eqb_ℤ_iff : (a b : ℤ) → (eqb_ℤ a b ≡ true) ↔ (a ≡ b)
eqb_ℤ_iff a b = ground arith

-- j = (w' - w) - (m' - m), a = w - m, a' = w' - m', u = a' + t and v = a + t
distance :
    (w m w' m' dw dm j a a' u v : ℤ) (t : ℕ)
    → pos_part dw + neg_part w' + pos_part w ≡ neg_part dw + pos_part w' + neg_part w
    → pos_part dm + neg_part m' + pos_part m ≡ neg_part dm + pos_part m' + neg_part m
    → pos_part j + neg_part dw + pos_part dm ≡ neg_part j + pos_part dw + neg_part dm
    → pos_part a + neg_part w + pos_part m ≡ neg_part a + pos_part w + neg_part m
    → pos_part a' + neg_part w' + pos_part m' ≡ neg_part a' + pos_part w' + neg_part m'
    → pos_part u + neg_part a' + 0 ≡ neg_part u + pos_part a' + t
    → pos_part v + neg_part a + 0 ≡ neg_part v + pos_part a + t
    → ((pos_part j < t + neg_part j) × (neg_part j < t + pos_part j)) ↔ ((a <ℤ u) × (a' <ℤ v))
distance w m w' m' dw dm j a a' u v t e₁ e₂ e₃ e₄ e₅ e₆ e₇ =
    (λ h. (omega arith, omega arith), λ h. (omega arith, omega arith))

jump_below :
    (earlier later : ClockSample)
    → (abs (jump earlier later) < clock_jump_tolerance) ↔ (
        (ahead earlier <ℤ ahead later +ℤ pos clock_jump_tolerance)
        × (ahead later <ℤ ahead earlier +ℤ pos clock_jump_tolerance))
jump_below p c =
    let t = clock_jump_tolerance in
    let below = abs_below (jump p c) t in
    let same =
      distance p.wall p.monotonic c.wall c.monotonic (c.wall -ℤ p.wall) (c.monotonic -ℤ p.monotonic)
        (jump p c) (ahead p) (ahead c) (ahead c +ℤ pos t) (ahead p +ℤ pos t) t
        (-ℤ_parts c.wall p.wall) (-ℤ_parts c.monotonic p.monotonic)
        (-ℤ_parts (c.wall -ℤ p.wall) (c.monotonic -ℤ p.monotonic)) (-ℤ_parts p.wall p.monotonic)
        (-ℤ_parts c.wall c.monotonic) (+ℤ_parts (ahead c) (pos t)) (+ℤ_parts (ahead p) (pos t)) in
    (λ h. same.0 (below.0 h), λ h. below.1 (same.1 h))

not_leb : (t n : ℕ) → leb t n ≡ false → n < t
not_leb t n h = ground arith

lt_leb : (n t : ℕ) → n < t → leb t n ≡ false
lt_leb n t h = ground arith

neither : (a b : Bool) → (not a || not b) ≡ false → (a ≡ true) × (b ≡ true)
neither a b h = (ground arith, ground arith)

both : (a b : Bool) → a ≡ true → b ≡ true → (not a || not b) ≡ false
both a b h k = ground arith

same_zone :
    (earlier later : ClockSample)
    → (zone_changed earlier later ≡ false)
      ↔ ((later.zone_name ≡ earlier.zone_name) × (later.zone_offset ≡ earlier.zone_offset))
same_zone p c =
    let name = eq_string_iff c.zone_name p.zone_name in
    let offset = eqb_ℤ_iff c.zone_offset p.zone_offset in
    (
      λ h. (let (n, o) = neither _ _ h in (name.0 n, offset.0 o)),
      λ (n, o). both _ _ (name.1 n) (offset.1 o),
    )

quiet :
    (jumped zone : Bool)
    → ((if not jumped && not zone then false else true) ≡ false)
      ↔ ((jumped ≡ false) × (zone ≡ false))
quiet jumped zone = ground arith

check-Steady :
    (earlier later : ClockSample) → ((check earlier later).0 ≡ false) ↔ Steady earlier later
unfolding check
check-Steady p c =
    let calm = quiet (leb clock_jump_tolerance (abs (jump p c))) (zone_changed p c) in
    let near = jump_below p c in
    let zone = same_zone p c in
    (
      λ h.
          (let (j, z) = calm.0 h in
            let (a, b) = near.0 (not_leb clock_jump_tolerance (abs (jump p c)) j) in
            let (n, o) = zone.0 z in (a, b, n, o)),
      λ (a, b, n, o).
          calm.1 (lt_leb (abs (jump p c)) clock_jump_tolerance (near.1 (a, b)), zone.1 (n, o)),
    )

-- In a sequence of checks, the report on a sample is false exactly where the distance of the wall
-- clock from the monotonic one has changed by less than the tolerance, in either direction, since
-- the sample just before it, and the zone has the same name and the same offset.
pub check_all-Reported :
    (previous : ClockSample) (samples : List ClockSample)
    → Reported previous samples (check_all previous samples)
unfolding check_all
check_all-Reported previous [] = tt
check_all-Reported previous (current ∷ samples) =
    (check-Steady previous current, check_all-Reported current samples)
