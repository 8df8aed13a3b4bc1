-- ===== src/Inverter/Texts.antt =====
-- inverter.go: texts and the words of a register.
use spf5000es_server.Prelude.{
  ℕ, zero, suc, ◌*◌, ◌/◌, ◌%◌, ◌≤◌, ◌<◌, ◌≡◌, ◌≢◌, refl, ap, ◌∙◌, List, [], ◌∷◌, ◌++◌, Text, length,
  get_or, take, arith, All,
}
use spf5000es_server.Inverter.{
  byte_at, string_length, string_bytes, decode_register_string, pack_bytes,
}

abbrev pub IsByte : ℕ → Type 0
IsByte c = c < 256

-- Go pads a register with zero bytes and drops them at the end: a text that ends in one is not kept.
abbrev pub EndsPlain : Text → Type 0
EndsPlain text = (n : ℕ) → length text ≡ suc n → get_or text n 0 ≢ 0

byte_at-cons :
    (w : ℕ) (words : List ℕ) (i : ℕ) → byte_at (w ∷ words) (suc (suc i)) ≡ byte_at words i
unfolding byte_at
byte_at-cons w words i =
    let half : suc (suc i) / 2 ≡ suc (i / 2) = omega arith in
    let parity : suc (suc i) % 2 ≡ i % 2 = omega arith in rw (half, parity)

byte_at-pack :
    (n : ℕ) (text : Text) (i : ℕ)
    → All IsByte text
    → i < n * 2
    → byte_at (pack_bytes n text) i ≡ get_or text i 0
unfolding pack_bytes
byte_at-pack zero text i r h = absurd (omega arith)
byte_at-pack (suc n) [] zero r h = unfold byte_at in refl
byte_at-pack (suc n) [] (suc zero) r h = unfold byte_at in refl
byte_at-pack (suc n) [] (suc (suc i)) r h =
    byte_at-cons 0 _ i ∙ byte_at-pack n [] i tt (omega arith)
byte_at-pack (suc n) (a ∷ []) zero r h = unfold byte_at in omega arith
byte_at-pack (suc n) (a ∷ []) (suc zero) r h = unfold byte_at in omega arith
byte_at-pack (suc n) (a ∷ []) (suc (suc i)) r h =
    byte_at-cons _ _ i ∙ byte_at-pack n [] i tt (omega arith)
byte_at-pack (suc n) (a ∷ b ∷ text) zero r h = unfold byte_at in omega arith
byte_at-pack (suc n) (a ∷ b ∷ text) (suc zero) r h = unfold byte_at in omega arith
byte_at-pack (suc n) (a ∷ b ∷ text) (suc (suc i)) r h =
    byte_at-cons _ _ i ∙ byte_at-pack n text i r.1.1 (omega arith)

take-snoc :
    (text : Text) (m : ℕ)
    → m < length text
    → take m text ++ get_or text m 0 ∷ [] ≡ take (suc m) text
take-snoc [] m h = absurd (omega arith)
take-snoc (a ∷ text) zero h = refl
take-snoc (a ∷ text) (suc m) h = ap (λ t. a ∷ t) (take-snoc text m (omega arith))

take-length : (text : Text) → take (length text) text ≡ text
take-length [] = refl
take-length (a ∷ text) = ap (λ t. a ∷ t) (take-length text)

past_end : (text : Text) (i : ℕ) → length text ≤ i → get_or text i 0 ≡ 0
past_end [] i h = refl
past_end (a ∷ text) zero h = absurd (omega arith)
past_end (a ∷ text) (suc i) h = past_end text i (omega arith)

pub length-pack : (n : ℕ) (text : Text) → length (pack_bytes n text) ≡ n
unfolding pack_bytes
length-pack zero text = refl
length-pack (suc n) [] = ap suc (length-pack n [])
length-pack (suc n) (a ∷ []) = ap suc (length-pack n [])
length-pack (suc n) (a ∷ b ∷ text) = ap suc (length-pack n text)

module _ (n : ℕ) (text : Text) (r : All IsByte text) (room : length text ≤ n * 2) where
  string_bytes-pack : (m : ℕ) → m ≤ length text → string_bytes (pack_bytes n text) m ≡ take m text
  unfolding string_bytes
  string_bytes-pack zero h = refl
  string_bytes-pack (suc m) h =
      rw (string_bytes-pack m (omega arith), byte_at-pack n text m r (omega arith))
        (take-snoc text m (omega arith))

  string_length-pack :
      EndsPlain text
      → (m : ℕ) → length text ≤ m
      → m ≤ n * 2
      → string_length (pack_bytes n text) m ≡ length text
  unfolding string_length
  string_length-pack plain zero lo hi = omega arith
  string_length-pack plain (suc m) lo hi =
      ground
        (arith, byte_at-pack n text m r hi, past_end text m, plain m, string_length-pack plain m)

  pub decode-pack : EndsPlain text → decode_register_string (pack_bytes n text) ≡ text
  unfolding decode_register_string
  decode-pack plain =
      rw
        (
          length-pack n text,
          string_length-pack plain (n * 2) room (omega arith),
          string_bytes-pack (length text) (omega arith),
        )
        (take-length text)
