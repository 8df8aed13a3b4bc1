-- ===== src/Float/Ulp.antt =====
-- Rounding to 53 significant bits, and how far it moves a value.
use spf5000es_server.Prelude.{
  ℕ, zero, suc, ◌+◌, ◌*◌, ◌/◌, ◌%◌, ◌^◌, ◌≤◌, ◌<◌, ◌≡◌, refl, ap, ◌⊎◌, true, false, ltb, ◌==◌,
  if◌then◌else◌, arith, Bool-cases, inl, inr,
}
use native.Mathlib.Nat.{
  mod-lt, div-add-mod, mul-le-mul_left, pow-zero, pow-suc, mul-div_cancel, mul-mod_left, one-mul,
}

-- 1, in units of 2 ^ -1074.
abbrev pub ulp_of_one : ℕ
ulp_of_one = 2 ^ 1074

-- The gap between 53-bit values at m: the least 2 ^ k with m < 2 ^ (k + 53), from g = 1 on.
unfoldable pub ulp : ℕ → ℕ → ℕ → ℕ
ulp zero g m = g
ulp (suc fuel) g m = elim (ltb m (g * 2 ^ 53)) [ true ↦ g | false ↦ ulp fuel (2 * g) m ]

-- The largest finite value has 2098 bits, so 2046 doublings are enough.
abbrev pub gap : ℕ → ℕ
gap m = ulp 2046 1 m

-- k or k + 1 gaps, whichever is nearer, an even number of them on a tie.
abbrev pub choose : (k r d : ℕ) → ℕ
choose k r d =
    if ltb (2 * r) d then k else if ltb d (2 * r) then k + 1 else if k % 2 == 0 then k else k + 1

abbrev pub nearest_at : (p d g : ℕ) → ℕ
nearest_at p d g = choose (p / d) (p % d) d * g

-- p / q, rounded to the nearest multiple of its gap.
unfoldable pub nearest : ℕ → ℕ → ℕ
nearest p q = let g = gap (p / q) in nearest_at p (q * g) g

-- The gap is a unit, or at most a 2 ^ -52 part of the value.
pub ulp_small :
    (fuel g m : ℕ) → (g ≡ 1) ⊎ (g * 2 ^ 52 ≤ m) → (ulp fuel g m ≡ 1) ⊎ (ulp fuel g m * 2 ^ 52 ≤ m)
unfolding ulp
ulp_small zero g m h = h
ulp_small (suc fuel) g m h = ground (arith, ulp_small fuel (2 * g) m)

pub ulp_pos : (fuel g m : ℕ) → 0 < g → 0 < ulp fuel g m
unfolding ulp
ulp_pos zero g m h = h
ulp_pos (suc fuel) g m h = ground (arith, ulp_pos fuel (2 * g) m)

choose_cases :
    (k r d : ℕ) → ((choose k r d ≡ k) × (2 * r ≤ d)) ⊎ ((choose k r d ≡ k + 1) × (d ≤ 2 * r))
choose_cases k r d = ground arith

choose_near :
    (k r d : ℕ)
    → r < d
    → (2 * (choose k r d * d) ≤ 2 * (k * d) + 2 * r + d)
      × (2 * (k * d) + 2 * r ≤ 2 * (choose k r d * d) + d)
choose_near k r d h = elim (choose_cases k r d) [
  | inl (e, c) ↦ rw e (omega arith, omega arith)
  | inr (e, c) ↦ rw e (omega arith, omega arith)
]

regroup :
    (c k r p q g : ℕ)
    → q * g * k + r ≡ p
    → (2 * (c * (q * g)) ≤ 2 * (k * (q * g)) + 2 * r + q * g)
      × (2 * (k * (q * g)) + 2 * r ≤ 2 * (c * (q * g)) + q * g)
    → (2 * (c * g * q) ≤ 2 * p + q * g) × (2 * p ≤ 2 * (c * g * q) + q * g)
regroup c k r p q g whole near = omega arith

nearest_at_near :
    (p q g : ℕ)
    → 0 < q * g
    → (2 * (nearest_at p (q * g) g * q) ≤ 2 * p + q * g)
      × (2 * p ≤ 2 * (nearest_at p (q * g) g * q) + q * g)
nearest_at_near p q g h =
    let d : ℕ = q * g in
    regroup (choose (p / d) (p % d) d) (p / d) (p % d) p q g (div-add-mod p d)
      (choose_near (p / d) (p % d) d (mod-lt p h))

-- Rounding moves p / q by half a gap at most: both sides are multiplied by 2 * q.
pub nearest_near :
    (p q : ℕ)
    → 0 < q
    → (2 * (nearest p q * q) ≤ 2 * p + q * gap (p / q))
      × (2 * p ≤ 2 * (nearest p q * q) + q * gap (p / q))
unfolding nearest
nearest_near p q h = nearest_at_near p q (gap (p / q)) (grind (arith, ulp_pos 2046 1 (p / q)))

gap_near : (p q : ℕ) → q * gap (p / q) * 2 ^ 52 ≤ p + q * 2 ^ 52
gap_near p q = elim (ulp_small 2046 1 (p / q) (inl refl)) [
  | inl e ↦ rw e (omega arith)
  | inr small ↦ omega (arith, mul-le-mul_left q small, div-add-mod p q)
]

-- The relative error is at most 2 ^ -53, and half a unit at the bottom of the range.
pub nearest_error :
    (p q : ℕ)
    → 0 < q
    → (2 ^ 53 * (nearest p q * q) ≤ 2 ^ 53 * p + p + q * 2 ^ 52)
      × (2 ^ 53 * p ≤ 2 ^ 53 * (nearest p q * q) + p + q * 2 ^ 52)
nearest_error p q h = let (up, down) = nearest_near p q h in omega (arith, gap_near p q)

-- Up to 2 ^ 53 whole numbers the gap divides one.
ulp_divides :
    (fuel g e m : ℕ)
    → g * 2 ^ e ≡ ulp_of_one
    → m < 2 ^ 53 * ulp_of_one
    → (c : ℕ) × (ulp fuel g m * c ≡ ulp_of_one)
unfolding ulp
ulp_divides zero g e m h small = (2 ^ e, h)
ulp_divides (suc fuel) g zero m h small = elim (Bool-cases (ltb m (g * 2 ^ 53))) [
  | inl t ↦ (1, rw (t, ulp) h)
  | inr f ↦ absurd (ground (arith, pow-zero 2))
]
ulp_divides (suc fuel) g (suc e) m h small = elim (Bool-cases (ltb m (g * 2 ^ 53))) [
  | inl t ↦ (2 ^ suc e, rw (t, ulp) h)
  | inr f ↦
      rw (f, ulp)
        (ulp_divides fuel (2 * g) e m (omega (arith, ap (λ (t : ℕ). g * t) (pow-suc 2 e))) small)
]

choose_exact : (k d : ℕ) → 0 < d → choose k 0 d ≡ k
choose_exact k d h = ground arith

nearest_multiple : (m k g : ℕ) → 0 < g → m ≡ k * g → nearest_at m (1 * g) g ≡ m
nearest_multiple m k g h e =
    rw (e, one-mul g, mul-div_cancel k h, mul-mod_left k g, choose_exact k g h)

whole_gaps : (n g c : ℕ) → g * c ≡ ulp_of_one → n * ulp_of_one ≡ n * c * g
whole_gaps n g c h = omega (arith, ap (λ (t : ℕ). n * t) h)

-- Whole numbers up to 2 ^ 53 are exact.
pub nearest_exact : (n : ℕ) → n < 2 ^ 53 → nearest (n * ulp_of_one) 1 ≡ n * ulp_of_one
unfolding nearest
nearest_exact n h =
    let (c, divides) = ulp_divides 2046 1 1074 (n * ulp_of_one / 1) (omega arith) (omega arith) in
    nearest_multiple (n * ulp_of_one) (n * c) (gap (n * ulp_of_one / 1))
      (ulp_pos 2046 1 (n * ulp_of_one / 1) (omega arith))
      (whole_gaps n (gap (n * ulp_of_one / 1)) c divides)
