-- ===== src/Utf8/Valid.antt =====
-- utf8.ValidString against strings.ToValidUTF8.
use spf5000es_server.Prelude.{
  ℕ, zero, suc, Bool, true, false, ◌&&◌, [], ◌∷◌, ◌++◌, Text, some, leb, ◌≡◌, refl, ap, ◌∙◌, arith,
  Option-cases, inl, inr,
}
use spf5000es_server.Utf8.{
  within, is_continuation, rune_tail, second_of_three, second_of_four, valid_from, valid_string,
  replacement, to_valid_from, to_valid_utf8,
}

-- A valid text is not changed.
to_valid_from-valid :
    (k : ℕ) (bad : Bool) (s : Text) → valid_from k s ≡ true → to_valid_from k bad s ≡ s
unfolding valid_from to_valid_from
to_valid_from-valid k bad [] h = refl
to_valid_from-valid (suc k) bad (a ∷ s) h = ap (λ t. a ∷ t) (to_valid_from-valid k false s h)
to_valid_from-valid zero bad (a ∷ s) h = elim (Option-cases (rune_tail a s)) [
  | inl e ↦ ground (arith, e)
  | inr (k, e) ↦ ground (arith, e, to_valid_from-valid k false s)
]

-- A rune is told by its own bytes: what follows them does not matter.
abbrev Begins : ℕ → ℕ → Text → Type 0
Begins zero a s = leb a 0x7f ≡ true
Begins (suc zero) a (b ∷ s) =
    (leb a 0x7f ≡ false) × (within 0xc2 0xdf a && is_continuation b ≡ true)
Begins (suc (suc zero)) a (b ∷ c ∷ s) =
    (leb a 0x7f ≡ false)
    × (within 0xc2 0xdf a && is_continuation b ≡ false)
    × (second_of_three a b && is_continuation c ≡ true)
Begins (suc (suc (suc zero))) a (b ∷ c ∷ d ∷ s) =
    (leb a 0x7f ≡ false)
    × (within 0xc2 0xdf a && is_continuation b ≡ false)
    × (second_of_three a b && is_continuation c ≡ false)
    × (second_of_four a b && is_continuation c && is_continuation d ≡ true)
Begins _ a s = ⊥

rune_tail-Begins : (a k : ℕ) (s : Text) → rune_tail a s ≡ some k → Begins k a s
unfolding rune_tail
rune_tail-Begins a zero [] h = ground arith
rune_tail-Begins a zero (b ∷ []) h = ground arith
rune_tail-Begins a zero (b ∷ c ∷ []) h = ground arith
rune_tail-Begins a zero (b ∷ c ∷ d ∷ s) h = ground arith
rune_tail-Begins a (suc zero) (b ∷ []) h = ground arith
rune_tail-Begins a (suc zero) (b ∷ c ∷ []) h = ground arith
rune_tail-Begins a (suc zero) (b ∷ c ∷ d ∷ s) h = ground arith
rune_tail-Begins a (suc (suc zero)) (b ∷ c ∷ []) h = ground arith
rune_tail-Begins a (suc (suc zero)) (b ∷ c ∷ d ∷ s) h = ground arith
rune_tail-Begins a (suc (suc (suc zero))) (b ∷ c ∷ d ∷ s) h = ground arith
rune_tail-Begins a (suc (suc (suc (suc k)))) (b ∷ c ∷ d ∷ s) h = ground arith
rune_tail-Begins a _ _ h = ground arith

Begins-rune_tail : (a k : ℕ) (s : Text) → Begins k a s → rune_tail a s ≡ some k
unfolding rune_tail
Begins-rune_tail a zero [] h = ground arith
Begins-rune_tail a zero (b ∷ []) h = ground arith
Begins-rune_tail a zero (b ∷ c ∷ []) h = ground arith
Begins-rune_tail a zero (b ∷ c ∷ d ∷ s) h = ground arith
Begins-rune_tail a (suc zero) (b ∷ []) h = ground arith
Begins-rune_tail a (suc zero) (b ∷ c ∷ []) h = ground arith
Begins-rune_tail a (suc zero) (b ∷ c ∷ d ∷ s) h = ground arith
Begins-rune_tail a (suc (suc zero)) (b ∷ c ∷ []) h = ground arith
Begins-rune_tail a (suc (suc zero)) (b ∷ c ∷ d ∷ s) h = ground arith
Begins-rune_tail a (suc (suc (suc zero))) (b ∷ c ∷ d ∷ s) h = ground arith
Begins-rune_tail a _ s h = absurd h

Begins-copied : (k a : ℕ) (s : Text) → Begins k a s → Begins k a (to_valid_from k false s)
unfolding to_valid_from
Begins-copied zero a s h = h
Begins-copied (suc zero) a (b ∷ s) h = h
Begins-copied (suc (suc zero)) a (b ∷ c ∷ s) h = h
Begins-copied (suc (suc (suc zero))) a (b ∷ c ∷ d ∷ s) h = h
Begins-copied _ a s h = absurd h

-- The same rune stands at the front after the bytes behind it are mended.
rune_tail-copied :
    (k a : ℕ) (s : Text) → rune_tail a s ≡ some k → rune_tail a (to_valid_from k false s) ≡ some k
rune_tail-copied k a s h = Begins-rune_tail a k _ (Begins-copied k a s (rune_tail-Begins a k s h))

replacement_whole : (t : Text) → valid_from 0 (replacement ++ t) ≡ valid_from 0 t
unfolding valid_from second_of_three
replacement_whole t = rw (Begins-rune_tail 0xef 2 (0xbf ∷ 0xbd ∷ t) (refl, refl, refl), valid_from)

valid_from-to_valid_from :
    (k : ℕ) (bad : Bool) (s : Text) → valid_from k (to_valid_from k bad s) ≡ true
unfolding valid_from to_valid_from
valid_from-to_valid_from k bad [] = refl
valid_from-to_valid_from (suc k) bad (a ∷ s) = valid_from-to_valid_from k false s
valid_from-to_valid_from zero true (a ∷ s) = elim (Option-cases (rune_tail a s)) [
  | inl e ↦ rw (e, to_valid_from) (valid_from-to_valid_from 0 true s)
  | inr (k, e) ↦
      rw (e, to_valid_from)
        (rw (rune_tail-copied k a s e, valid_from) (valid_from-to_valid_from k false s))
]
valid_from-to_valid_from zero false (a ∷ s) = elim (Option-cases (rune_tail a s)) [
  | inl e ↦
      rw (e, to_valid_from)
        (replacement_whole (to_valid_from 0 true s) ∙ valid_from-to_valid_from 0 true s)
  | inr (k, e) ↦
      rw (e, to_valid_from)
        (rw (rune_tail-copied k a s e, valid_from) (valid_from-to_valid_from k false s))
]

pub to_valid_utf8-valid : (s : Text) → valid_string s ≡ true → to_valid_utf8 s ≡ s
unfolding valid_string to_valid_utf8
to_valid_utf8-valid s h = to_valid_from-valid 0 false s h

-- ToValidUTF8 gives a valid text, whatever the bytes.
pub valid_string-to_valid_utf8 : (s : Text) → valid_string (to_valid_utf8 s) ≡ true
unfolding valid_string to_valid_utf8
valid_string-to_valid_utf8 s = valid_from-to_valid_from 0 false s
