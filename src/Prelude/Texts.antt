-- ===== src/Prelude/Texts.antt =====
-- Texts that the program walks are lists of bytes; keys that it only compares are native strings.
use Prim.Native.Nat.{ℕ}
use Prim.Native.Char.{code}
use Prim.Native.String.{String}
use mathlib.Core.Path.{◌≡◌, refl, subst}
use mathlib.Core.Logic.{◌↔◌, ◌⊎◌, inl, inr}
use mathlib.Core.Bool.{Bool, true, false, ◌&&◌}
use mathlib.Core.List.{List, [], ◌∷◌}
use mathlib.Core.Option.{Option, none, some}
use native.Mathlib.Omega.{arith}
use text.Mathlib.Text.{◌==◌ as same_string}
use text.Mathlib.TextEquality.{eq_iff}
use spf5000es_server.Prelude.Lists.{All}
use spf5000es_server.Prelude.Tests.{◌==◌, if◌then◌else◌}

-- A Go string, as its bytes.
abbrev pub Text : Type 0
Text = List ℕ

-- The bytes of an ASCII literal.
abbrev pub codes : String → Text
codes String.[] = []
codes (String.◌∷◌ c s) = code c ∷ codes s

abbrev pub eq_string : String → String → Bool
eq_string = same_string

pub eq_string_iff : (s t : String) → (eq_string s t ≡ true) ↔ (s ≡ t)
eq_string_iff = eq_iff

abbrev pub eq_text : Text → Text → Bool
eq_text [] [] = true
eq_text (a ∷ s) (b ∷ t) = a == b && eq_text s t
eq_text _ _ = false

pub eq_text→eq : (s t : Text) → eq_text s t ≡ true → s ≡ t
eq_text→eq [] [] h = refl
eq_text→eq [] (b ∷ t) h = ground arith
eq_text→eq (a ∷ s) [] h = ground arith
eq_text→eq (a ∷ s) (b ∷ t) h = ground (arith, eq_text→eq s t)

pub eq_text_refl : (s : Text) → eq_text s s ≡ true
eq_text_refl [] = refl
eq_text_refl (a ∷ s) = ground (arith, eq_text_refl s)

-- A Go map with string keys, as an association list. Each key occurs once after `insert`.
module _ {ℓ} {V : Type ℓ} where
  -- m[key] = value
  unfoldable pub insert : String → V → List (String × V) → List (String × V)
  insert key value ((held, old) ∷ entries) =
      let rest = insert key value entries in
      if eq_string held key then (key, value) ∷ entries else (held, old) ∷ rest
  insert key value [] = (key, value) ∷ []

  -- value, ok := m[key]
  unfoldable pub lookup : String → List (String × V) → Option V
  lookup key ((held, value) ∷ entries) =
      if eq_string held key then some value else lookup key entries
  lookup key [] = none

  pub lookup-nil : (key : String) → lookup key [] ≡ none
  unfolding lookup
  lookup-nil key = refl

  none-some : (v : V) → none ≡ some v → ⊥
  none-some v h = cc

  found-value :
      (b : Bool) (x v : V) (o : Option V)
      → (if b then some x else o) ≡ some v
      → (x ≡ v) ⊎ (o ≡ some v)
  found-value true x v o h = inl (cc)
  found-value false x v o h = inr h

  -- What a look-up finds is one of the values.
  pub lookup-All {κ} :
      (P : V → Type κ) (key : String) (entries : List (String × V)) (v : V)
      → All (λ (e : String × V). P e.1) entries
      → lookup key entries ≡ some v
      → P v
  unfolding lookup
  lookup-All P key [] v h e = absurd (none-some v e)
  lookup-All P key ((held, value) ∷ entries) v h e =
      elim (found-value (eq_string held key) value v (lookup key entries) e) [
        | inl here ↦ subst P here h.0
        | inr later ↦ lookup-All P key entries v h.1 later
      ]

  pub lookup-insert :
      (key wanted : String) (value : V) (entries : List (String × V))
      → lookup wanted (insert key value entries)
        ≡ (if eq_string key wanted then some value else lookup wanted entries)
  unfolding lookup insert
  lookup-insert key wanted value ((held, old) ∷ entries) = ground (
    arith,
    lookup-insert key wanted value entries,
    eq_iff key wanted,
    eq_iff held key,
    eq_iff held wanted,
  )
  lookup-insert key wanted value [] = refl
