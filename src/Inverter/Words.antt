-- ===== src/Inverter/Words.antt =====
-- inverter.go: numbers and the words of a register.
use spf5000es_server.Prelude.{
  ℕ, zero, suc, ◌-◌, ◌*◌, ◌/◌, ◌%◌, ◌^◌, ◌≤◌, ◌<◌, ◌≡◌, refl, true, List, [], ◌∷◌, ℤ, pos, negsuc,
  ◌≤ℤ◌, length, length-append, All, arith,
}
use spf5000es_server.Error.{ok}
use spf5000es_server.Register.{register_uint, register_int, raw_integer}
use spf5000es_server.Inverter.{
  join_words, split_words, decode_words, fits, uint64_of_int64, int64_of_uint64, decode_int,
}

abbrev pub IsInt64 : ℤ → Type 0
IsInt64 z = (negsuc (2 ^ 63 - 1) ≤ℤ z) × (z ≤ℤ pos (2 ^ 63 - 1))

-- A register of one to four words.
abbrev pub IsNumeric : ℕ → Type 0
IsNumeric n = (0 < n) × (n ≤ 4)

pub join-split :
    (n u : ℕ) → IsNumeric n → u < 2 ^ 64 → join_words 0 (split_words n u) ≡ u % 2 ^ (n * 16)
unfolding join_words split_words
join-split zero u h small = absurd (omega arith)
join-split (suc zero) u h small = omega arith
join-split (suc (suc zero)) u h small = omega arith
join-split (suc (suc (suc zero))) u h small = omega arith
join-split (suc (suc (suc (suc zero)))) u h small = omega arith
join-split (suc (suc (suc (suc (suc n))))) u h small = absurd (omega arith)

pub length-split : (n u : ℕ) → length (split_words n u) ≡ n
unfolding split_words
length-split zero u = refl
length-split (suc n) u = rw length-append (omega (arith, length-split n (u / 2 ^ 16)))

uint_value :
    (n : ℕ) (z : ℤ)
    → IsNumeric n
    → IsInt64 z
    → fits register_uint (n * 16) z ≡ true
    → int64_of_uint64 (uint64_of_int64 z % 2 ^ (n * 16)) ≡ z
unfolding fits
uint_value zero z h r f = absurd (omega arith)
uint_value (suc zero) z h r f = ground arith
uint_value (suc (suc zero)) z h r f = ground arith
uint_value (suc (suc (suc zero))) z h r f = ground arith
uint_value (suc (suc (suc (suc zero)))) z h r f = ground arith
uint_value (suc (suc (suc (suc (suc n))))) z h r f = absurd (omega arith)

int_value :
    (n : ℕ) (z : ℤ)
    → IsNumeric n
    → IsInt64 z
    → fits register_int (n * 16) z ≡ true
    → decode_int (uint64_of_int64 z % 2 ^ (n * 16)) (n * 16) ≡ z
unfolding fits
int_value zero z h r f = absurd (omega arith)
int_value (suc zero) z h r f = ground arith
int_value (suc (suc zero)) z h r f = ground arith
int_value (suc (suc (suc zero))) z h r f = ground arith
int_value (suc (suc (suc (suc zero)))) z h r f = ground arith
int_value (suc (suc (suc (suc (suc n))))) z h r f = absurd (omega arith)

uint64_lt : (z : ℤ) → IsInt64 z → uint64_of_int64 z < 2 ^ 64
uint64_lt (pos n) r = omega arith
uint64_lt (negsuc n) r = omega arith

pub decode-encode_uint :
    (n : ℕ) (z : ℤ)
    → IsNumeric n
    → IsInt64 z
    → fits register_uint (n * 16) z ≡ true
    → decode_words register_uint (split_words n (uint64_of_int64 z)) ≡ ok (raw_integer z)
unfolding decode_words
decode-encode_uint n z h r f = ground (
  arith,
  length-split n (uint64_of_int64 z),
  join-split n (uint64_of_int64 z) h (uint64_lt z r),
  uint_value n z h r f,
)

pub decode-encode_int :
    (n : ℕ) (z : ℤ)
    → IsNumeric n
    → IsInt64 z
    → fits register_int (n * 16) z ≡ true
    → decode_words register_int (split_words n (uint64_of_int64 z)) ≡ ok (raw_integer z)
unfolding decode_words
decode-encode_int n z h r f = ground (
  arith,
  length-split n (uint64_of_int64 z),
  join-split n (uint64_of_int64 z) h (uint64_lt z r),
  int_value n z h r f,
)

abbrev pub IsWord : ℕ → Type 0
IsWord w = w < 2 ^ 16

-- At most four words below 2 ^ 16 are the words that their joined number is split into.
split-join :
    (words : List ℕ)
    → length words ≤ 4
    → All IsWord words
    → split_words (length words) (join_words 0 words) ≡ words
unfolding join_words split_words
split-join [] h r = refl
split-join (a ∷ []) h r = ground arith
split-join (a ∷ b ∷ []) h r = ground arith
split-join (a ∷ b ∷ c ∷ []) h r = ground arith
split-join (a ∷ b ∷ c ∷ d ∷ []) h r = ground arith
split-join (a ∷ b ∷ c ∷ d ∷ e ∷ ws) h r = absurd (omega arith)

pub join-lt :
    (words : List ℕ)
    → length words ≤ 4
    → All IsWord words
    → join_words 0 words < 2 ^ (length words * 16)
unfolding join_words
join-lt [] h r = omega arith
join-lt (a ∷ []) h r = omega arith
join-lt (a ∷ b ∷ []) h r = omega arith
join-lt (a ∷ b ∷ c ∷ []) h r = omega arith
join-lt (a ∷ b ∷ c ∷ d ∷ []) h r = omega arith
join-lt (a ∷ b ∷ c ∷ d ∷ e ∷ ws) h r = absurd (omega arith)
