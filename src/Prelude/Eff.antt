-- ===== src/Prelude/Eff.antt =====
-- A Go function that acts on the outside world `W` and returns `(value, error)`.
use aldea.Prelude.{◌≡◌, refl, ap, Result, ok, err, arith}

abbrev pub Eff : Type 0 → Type 0 → Type 0 → Type 0
Eff W E A = W → W × Result E A

infixl 5 ◌>>=◌ ◌>>◌
-- What follows a call: its error ends the function.
abbrev pub continue : {A B E W : Type 0} → W × Result E A → (A → Eff W E B) → W × Result E B
continue (w, ok a) f = f a w
continue (w, err e) f = (w, err e)

abbrev pub ◌>>=◌ : {W E A B : Type 0} → Eff W E A → (A → Eff W E B) → Eff W E B
◌>>=◌ m f w = continue (m w) f

abbrev pub ◌>>◌ : {W E A B : Type 0} → Eff W E A → Eff W E B → Eff W E B
m >> k = m >>= λ _. k

abbrev pub pure : {W E A : Type 0} → A → Eff W E A
pure a w = (w, ok a)

abbrev pub fail : {W E A : Type 0} → E → Eff W E A
fail e w = (w, err e)

-- A result of a function that does not act, its error wrapped.
abbrev pub lift : {W E E' A : Type 0} → E → Result E' A → Eff W E A
lift e (ok a) = pure a
lift e (err _) = fail e

module _ {W E A B : Type 0} where
  -- A step of which the result is known.
  pub run_step :
      (m : Eff W E A) (f : A → Eff W E B) (w w' : W) (a : A)
      → m w ≡ (w', ok a)
      → (m >>= f) w ≡ f a w'
  run_step m f w w' a e = ap (λ r. continue r f) e

  continue-ok :
      (r : W × Result E A) (f : A → Eff W E B) (w' : W) (b : B)
      → continue r f ≡ (w', ok b)
      → (w₁ : W) × (a : A) × (r ≡ (w₁, ok a)) × (f a w₁ ≡ (w', ok b))
  continue-ok (w₁, ok a) f w' b e = (w₁, a, refl, e)
  continue-ok (w₁, err x) f w' b e = absurd (ground (arith, e))

  -- A function that succeeds has succeeded in its first step.
  pub inversion :
      (m : Eff W E A) (f : A → Eff W E B) (w w' : W) (b : B)
      → (m >>= f) w ≡ (w', ok b)
      → (w₁ : W) × (a : A) × (m w ≡ (w₁, ok a)) × (f a w₁ ≡ (w', ok b))
  inversion m f w w' b e = continue-ok (m w) f w' b e

module _ {W E A : Type 0} where
  -- What a success of a function that does not act says.
  pub pure-ok : (a b : A) (w w' : W) → pure {W = W} {E = E} a w ≡ (w', ok b) → (w' ≡ w) × (b ≡ a)
  pure-ok a b w w' e = ground (arith, e)

  pub lift-ok :
      {E' : Type 0} (x : E) (r : Result E' A) (w w' : W) (a : A)
      → lift {W = W} x r w ≡ (w', ok a)
      → (w' ≡ w) × (r ≡ ok a)
  lift-ok x (ok b) w w' a e = ground (arith, e)
  lift-ok x (err y) w w' a e = absurd (ground (arith, e))
