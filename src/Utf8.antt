-- ===== src/Utf8.antt =====
-- What inverter.go uses of unicode/utf8 and strings.ToValidUTF8, on bytes.
pub mod Valid
use spf5000es_server.Prelude.{
  ℕ, zero, suc, Bool, true, false, ◌&&◌, ◌||◌, [], ◌∷◌, ◌++◌, Text, Option, none, some, leb, ◌==◌,
  if◌then◌else◌,
}

abbrev pub within : ℕ → ℕ → ℕ → Bool
within lo hi b = leb lo b && leb b hi

abbrev pub is_continuation : ℕ → Bool
is_continuation b = within 0x80 0xbf b

-- The second byte that may follow a first byte of a sequence of three or four.
unfoldable pub second_of_three : ℕ → ℕ → Bool
second_of_three a b =
    a == 0xe0 && within 0xa0 0xbf b
    || within 0xe1 0xec a && is_continuation b
    || a == 0xed && within 0x80 0x9f b
    || within 0xee 0xef a && is_continuation b

unfoldable pub second_of_four : ℕ → ℕ → Bool
second_of_four a b =
    a == 0xf0 && within 0x90 0xbf b
    || within 0xf1 0xf3 a && is_continuation b
    || a == 0xf4 && within 0x80 0x8f b

abbrev when : Bool → ℕ → Option ℕ
when test n = if test then some n else none

-- How many bytes follow the first one in the rune that begins the text; `none` where none does.
unfoldable pub rune_tail : ℕ → Text → Option ℕ
rune_tail a [] = when (leb a 0x7f) 0
rune_tail a (b ∷ []) =
    if leb a 0x7f then some 0 else when (within 0xc2 0xdf a && is_continuation b) 1
rune_tail a (b ∷ c ∷ []) =
    if leb a 0x7f
    then some 0
    else if within 0xc2 0xdf a && is_continuation b
    then some 1
    else when (second_of_three a b && is_continuation c) 2
rune_tail a (b ∷ c ∷ d ∷ _) =
    if leb a 0x7f
    then some 0
    else if within 0xc2 0xdf a && is_continuation b
    then some 1
    else if second_of_three a b && is_continuation c
    then some 2
    else when (second_of_four a b && is_continuation c && is_continuation d) 3

-- utf8.ValidString; the number counts bytes left of a rune that has begun.
unfoldable pub valid_from : ℕ → Text → Bool
valid_from k [] = true
valid_from (suc k) (a ∷ s) = valid_from k s
valid_from zero (a ∷ s) = elim (rune_tail a s) [ none ↦ false | some k ↦ valid_from k s ]

unfoldable pub valid_string : Text → Bool
unfolding valid_from
valid_string s = valid_from 0 s

-- U+FFFD
abbrev pub replacement : Text
replacement = 0xef ∷ 0xbf ∷ 0xbd ∷ []

-- strings.ToValidUTF8(s, "\uFFFD"): each run of bad bytes becomes one replacement. `bad` tells
-- whether the byte before was one.
unfoldable pub to_valid_from : ℕ → Bool → Text → Text
to_valid_from k bad [] = []
to_valid_from (suc k) bad (a ∷ s) = a ∷ to_valid_from k false s
to_valid_from zero bad (a ∷ s) = elim (rune_tail a s) [
  | none ↦ (if bad then [] else replacement) ++ to_valid_from 0 true s
  | some k ↦ a ∷ to_valid_from k false s
]

unfoldable pub to_valid_utf8 : Text → Text
unfolding to_valid_from
to_valid_utf8 s = to_valid_from 0 false s
