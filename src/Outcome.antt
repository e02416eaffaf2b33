-- ===== src/Outcome.antt =====
-- A Go function that returns (A, error) and works on shared state: what it returned, with the
-- state that it left. A loop that is given too little fuel ends in `diverged`.
use bunshin.Prelude.{◌≡◌, refl, ◌≢◌, ◌⊎◌, inl, inr, arith}

pub data Outcome {ℓ} (W E A : Type ℓ) : Type ℓ where
  ok : A → W → Outcome W E A
  err : E → W → Outcome W E A
  diverged : Outcome W E A

module _ {ℓ} {W E A : Type ℓ} where
  -- How an outcome was reached, with the equation that says so.
  pub data Ended (o : Outcome W E A) : Type ℓ where
    with_ok : (a : A) (w : W) → o ≡ ok a w → Ended o
    with_err : (e : E) (w : W) → o ≡ err e w → Ended o
    never : o ≡ diverged → Ended o

  pub ended : (o : Outcome W E A) → Ended o
  ended (ok a w) = with_ok a w refl
  ended (err e w) = with_err e w refl
  ended diverged = never refl

-- An action on the state `W`.
abbrev pub Act {ℓ} : Type ℓ → Type ℓ → Type ℓ → Type ℓ
Act W E A = W → Outcome W E A

module _ {ℓ} {W E A B : Type ℓ} where
  infixl 5 ◌>>=◌
  abbrev pub ◌>>=◌ : Act W E A → (A → Act W E B) → Act W E B
  ◌>>=◌ m f w = elim (m w) [ ok a w' ↦ f a w' | err e w' ↦ err e w' | diverged ↦ diverged ]

  -- Inversion of a successful sequence, for proofs where the parts stay shut.
  pub bind-eq-ok :
      (m : Act W E A) (f : A → Act W E B) (w : W) {b : B} {w' : W}
      → (m >>= f) w ≡ ok b w'
      → (a : A) × (u : W) × (m w ≡ ok a u) × (f a u ≡ ok b w')
  bind-eq-ok m f w h = ground arith

  pub bind-eq-err :
      (m : Act W E A) (f : A → Act W E B) (w : W) {e : E} {w' : W}
      → (m >>= f) w ≡ err e w'
      → (m w ≡ err e w') ⊎ ((a : A) × (u : W) × (m w ≡ ok a u) × (f a u ≡ err e w'))
  bind-eq-err m f w h = elim (ended (m w)) [
    | never x ↦ ground arith
    | with_err x u p ↦ inl (ground arith)
    | with_ok a u p ↦ inr (a, u, p, ground arith)
  ]

  pub bind-ends :
      (m : Act W E A) (f : A → Act W E B) (w : W)
      → m w ≢ diverged
      → ((a : A) (u : W) → f a u ≢ diverged)
      → (m >>= f) w ≢ diverged
  bind-ends m f w h k e = elim (ended (m w)) [
    | never x ↦ h x
    | with_err x u p ↦ ground arith
    | with_ok a u p ↦ k a u (ground arith)
  ]

pub ok_injective :
    {W E A : Type 0} {a b : A} {w w' : W}
    → ◌≡◌ {A = Outcome W E A} (ok a w) (ok b w')
    → (a ≡ b) × (w ≡ w')
ok_injective e = (cc, cc)
