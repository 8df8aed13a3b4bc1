-- ===== src/Register/Windows/Finding.antt =====
-- registers.go: what a look-up in registerMap finds.
use spf5000es_server.Prelude.{
  ◌≡◌, refl, ◌∙◌, Bool, true, false, none, some, List, [], ◌∷◌, String, eq_string, eq_string_iff,
  if◌then◌else◌, All, Option-cases, inl, inr,
}
use mathlib.Core.Path.{subst}
use spf5000es_server.Register.{RegisterDef}
use spf5000es_server.Register.Windows.{find_register}

chosen : (b : Bool) (x d : RegisterDef) → (if b then some x else none) ≡ some d → x ≡ d
chosen true x d h = cc
chosen false x d h = cc

pub find_register-All :
    (P : RegisterDef → Type 0) (key : String) (ds : List RegisterDef) (d : RegisterDef)
    → All P ds
    → find_register key ds ≡ some d
    → P d
unfolding find_register
find_register-All P key [] d all e = cc
find_register-All P key (x ∷ ds) d all e = elim (Option-cases (find_register key ds)) [
  | inl no_later ↦
      subst P (chosen (eq_string x.key key) x d (rw (no_later, find_register) at e)) all.0
  | inr (later, is) ↦ find_register-All P key ds d all.1 (is ∙ (rw (is, find_register) at e))
]

chosen_key : (b : Bool) (x d : RegisterDef) → (if b then some x else none) ≡ some d → b ≡ true
chosen_key true x d h = refl
chosen_key false x d h = cc

-- What is found has the key that was looked for.
pub find_register-key :
    (key : String) (ds : List RegisterDef) (d : RegisterDef)
    → find_register key ds ≡ some d
    → d.key ≡ key
unfolding find_register
find_register-key key [] d e = cc
find_register-key key (x ∷ ds) d e = elim (Option-cases (find_register key ds)) [
  | inl no_later ↦
      let here = rw (no_later, find_register) at e in
      subst (λ (r : RegisterDef). r.key ≡ key) (chosen (eq_string x.key key) x d here)
        ((eq_string_iff x.key key).0 (chosen_key (eq_string x.key key) x d here))
  | inr (later, is) ↦ find_register-key key ds d (is ∙ (rw (is, find_register) at e))
]
