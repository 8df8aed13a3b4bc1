-- ===== src/Exec.antt =====
-- Methods that change a state and may fail: what was written before an error stays written.
use spf5000es_server.Prelude.{◌≡◌, refl, Bool, true, false, if◌then◌else◌}
use spf5000es_server.Error.{Error, Result, ok, err}

abbrev pub Exec {ℓ} : Type ℓ → Type ℓ → Type ℓ
Exec W A = W → Result A × W

module _ {ℓ} {W A : Type ℓ} where
  abbrev pub pure : A → Exec W A
  pure a w = (ok a, w)

  abbrev pub raise : Error → Exec W A
  raise e w = (err e, w)

  abbrev pub lift : Result A → Exec W A
  lift r w = (r, w)

module _ {ℓ} {W A B : Type ℓ} where
  abbrev pub continue : Result A → (A → Exec W B) → Exec W B
  continue (ok a) f w = f a w
  continue (err e) f w = (err e, w)

  infixl 5 ◌>>=◌ ◌>>◌
  abbrev pub ◌>>=◌ : Exec W A → (A → Exec W B) → Exec W B
  ◌>>=◌ m f w = let (r, w') = m w in continue r f w'

  abbrev pub ◌>>◌ : Exec W A → Exec W B → Exec W B
  m >> k = m >>= λ _. k

-- Q holds of what was returned and of the state that was left, where there was no error.
abbrev pub Gives {ℓ κ} : {W A : Type ℓ} → (A → W → Type κ) → Result A × W → Type κ
Gives Q (ok a, w) = Q a w
Gives Q (err e, w) = Unit

pub Gives-bind {ℓ κ} :
    {W A B : Type ℓ} (P : A → W → Type κ) (Q : B → W → Type κ) (p : Result A × W) (f : A → Exec W B)
    → Gives P p
    → ((a : A) (w : W) → P a w → Gives Q (f a w))
    → Gives Q (continue p.0 f p.1)
Gives-bind P Q (ok a, w) f h next = next a w h
Gives-bind P Q (err e, w) f h next = tt

pub Gives-any {ℓ κ} :
    {W A : Type ℓ} (Q : W → Type κ) (r : Result A) (w : W) → Q w → Gives (λ a. Q) (r, w)
Gives-any Q (ok a) w h = h
Gives-any Q (err e) w h = tt

pub Gives-weaken {ℓ κ} :
    {W A : Type ℓ} (P Q : A → W → Type κ) (p : Result A × W)
    → ((a : A) (w : W) → P a w → Q a w)
    → Gives P p
    → Gives Q p
Gives-weaken P Q (ok a, w) weaken h = weaken a w h
Gives-weaken P Q (err e, w) weaken h = tt

pub Gives-if {ℓ κ} :
    {W A : Type ℓ} (Q : A → W → Type κ) (test : Bool) (p q : Result A × W)
    → (test ≡ true → Gives Q p)
    → (test ≡ false → Gives Q q)
    → Gives Q (if test then p else q)
Gives-if Q true p q h k = h refl
Gives-if Q false p q h k = k refl
