-- ===== src/Strings.antt =====
-- What the program uses of Go's `strings` package, on the bytes of a UTF-8 text.
use spf5000es_server.Prelude.{
  ℕ, ◌+◌, ◌-◌, length, take, drop, Option, none, some, Bool, ◌&&◌, ◌||◌, [], ◌∷◌, Text, codes, leb,
  ◌==◌, if◌then◌else◌, eq_text, String,
}
use mathlib.Core.List.{reverse}

-- unicode.IsSpace for an ASCII byte.
abbrev pub is_ascii_space : ℕ → Bool
is_ascii_space c = c == 32 || (leb 9 c && leb c 13)

-- U+0085, U+00A0; U+1680, U+2000 to U+200A, U+2028, U+2029, U+202F, U+205F, U+3000.
abbrev two_byte_space : ℕ → ℕ → Bool
two_byte_space a b = a == 0xc2 && (b == 0x85 || b == 0xa0)

abbrev three_byte_space : ℕ → ℕ → ℕ → Bool
three_byte_space a b c =
    (a == 0xe1 && b == 0x9a && c == 0x80)
    || (a == 0xe2 && b == 0x80 && (leb 0x80 c && leb c 0x8a || c == 0xa8 || c == 0xa9 || c == 0xaf))
    || (a == 0xe2 && b == 0x81 && c == 0x9f)
    || (a == 0xe3 && b == 0x80 && c == 0x80)

-- The white space at the front is dropped; `spans` tells the white space of two and three bytes.
module _ (two : ℕ → ℕ → Bool) (three : ℕ → ℕ → ℕ → Bool) where
  trim_front : Text → Text
  trim_front [] = []
  trim_front (a ∷ []) = if is_ascii_space a then [] else a ∷ []
  trim_front (a ∷ b ∷ []) =
      let rest = trim_front (b ∷ []) in
      if is_ascii_space a then rest else if two a b then [] else a ∷ b ∷ []
  trim_front (a ∷ b ∷ c ∷ s) =
      let rest = trim_front (b ∷ c ∷ s) in
      let rest_two = trim_front (c ∷ s) in
      let rest_three = trim_front s in
      if is_ascii_space a
      then rest
      else if two a b
      then rest_two
      else if three a b c
      then rest_three
      else a ∷ b ∷ c ∷ s

-- strings.TrimSpace: the back is trimmed as the front of the reversed bytes.
unfoldable pub trim_space : Text → Text
unfolding trim_front
trim_space s = reverse (
    trim_front (λ a b. two_byte_space b a) (λ a b c. three_byte_space c b a)
      (reverse (trim_front two_byte_space three_byte_space s)))

-- unicode.ToLower on ASCII.
abbrev pub is_upper : ℕ → Bool
is_upper c = leb b'A' c && leb c b'Z'

abbrev pub lower : ℕ → ℕ
lower c = if is_upper c then c + 32 else c

-- The case folding that can give an ASCII text: A to Z, U+017F (long s) and U+212A (Kelvin sign).
unfoldable pub fold_case : Text → Text
fold_case [] = []
fold_case (a ∷ []) = lower a ∷ []
fold_case (a ∷ b ∷ []) = if a == 0xc5 && b == 0xbf then b's' ∷ [] else lower a ∷ fold_case (b ∷ [])
fold_case (a ∷ b ∷ c ∷ s) =
    let one = lower a ∷ fold_case (b ∷ c ∷ s) in
    let two = b's' ∷ fold_case (c ∷ s) in
    let three = b'k' ∷ fold_case s in
    if a == 0xc5 && b == 0xbf
    then two
    else if a == 0xe2 && b == 0x84 && c == 0xaa
    then three
    else one

-- strings.EqualFold(text, word) for a word in lower-case ASCII letters.
unfoldable pub equal_fold : Text → String → Bool
unfolding fold_case
equal_fold text word = eq_text (fold_case text) (codes word)

abbrev pub is_lower : ℕ → Bool
is_lower c = leb b'a' c && leb c b'z'

abbrev pub is_digit : ℕ → Bool
is_digit c = leb b'0' c && leb c b'9'

abbrev pub upper : ℕ → ℕ
upper c = if is_lower c then c - 32 else c

-- strings.HasPrefix and strings.HasSuffix
unfoldable pub has_prefix : Text → Text → Bool
has_prefix s prefix = leb (length prefix) (length s) && eq_text (take (length prefix) s) prefix

unfoldable pub has_suffix : Text → Text → Bool
has_suffix s suffix =
    leb (length suffix) (length s) && eq_text (drop (length s - length suffix) s) suffix

-- strings.Contains
unfoldable pub contains : Text → Text → Bool
unfolding has_prefix
contains [] part = has_prefix [] part
contains (c ∷ s) part = let rest = contains s part in has_prefix (c ∷ s) part || rest

-- s[low:high]; `none` where Go panics.
unfoldable pub slice : ℕ → ℕ → Text → Option Text
slice low high s =
    if leb low high && leb high (length s) then some (take (high - low) (drop low s)) else none

-- strings.Trim(s, c) for one ASCII byte c.
unfoldable pub trim_left : ℕ → Text → Text
trim_left c [] = []
trim_left c (a ∷ s) = let rest = trim_left c s in if a == c then rest else a ∷ s

unfoldable pub trim : ℕ → Text → Text
unfolding trim_left
trim c s = reverse (trim_left c (reverse (trim_left c s)))
