-- ===== src/Effects.antt =====
-- Go functions that act on a state and return an error or panic. What was done before the error
-- stays done, so the state comes back beside it.
use chatops.Base.{String, ◌≡◌, refl, ◌⊎◌, inl, inr, ◌≢◌}

-- An error value is its text, which is all that the program reads of one.
abbrev pub Error : Type 0
Error = String

-- The results (x, nil) and (_, err) of a call.
pub data Result {ℓ} (A : Type ℓ) : Type ℓ where
  ok : A → Result A
  err : Error → Result A

-- A call of something outside the program, which acts on the state of its surroundings.
abbrev pub Call {ℓ} : Type ℓ → Type ℓ → Type ℓ
Call W A = W → Result A × W

-- How a function of the program ends.
pub data Outcome {ℓ} (A : Type ℓ) : Type ℓ where
  done : A → Outcome A
  fail : Error → Outcome A
  panic : Outcome A

abbrev pub Eff {ℓ} : Type ℓ → Type ℓ → Type ℓ
Eff S A = S → Outcome A × S

module _ {ℓ} {S A : Type ℓ} where
  abbrev pub pure : A → Eff S A
  pure a s = (done a, s)

  -- return err
  abbrev pub raise : Error → Eff S A
  raise e s = (fail e, s)

  abbrev pub crash : Eff S A
  crash s = (panic, s)

  abbrev recover : Outcome A → (Error → Eff S A) → Eff S A
  recover (done a) h s = (done a, s)
  recover (fail e) h s = h e s
  recover panic h s = (panic, s)

  -- if err != nil { … }
  abbrev pub on_error : Eff S A → (Error → Eff S A) → Eff S A
  on_error m h s = let (r, s') = m s in recover r h s'

module _ {ℓ} {S A B : Type ℓ} where
  abbrev pub continue : Outcome A → (A → Eff S B) → Eff S B
  continue (done a) f s = f a s
  continue (fail e) f s = (fail e, s)
  continue panic f s = (panic, s)

  infixl 5 ◌>>=◌ ◌>>◌
  abbrev pub ◌>>=◌ : Eff S A → (A → Eff S B) → Eff S B
  ◌>>=◌ m f s = let (r, s') = m s in continue r f s'

  abbrev pub ◌>>◌ : Eff S A → Eff S B → Eff S B
  m >> n = m >>= λ _. n

abbrev pub outcome {ℓ} : {A : Type ℓ} → Result A → Outcome A
outcome (ok a) = done a
outcome (err e) = fail e

pub Result-cases {ℓ} :
    {A : Type ℓ} (r : Result A) → ((a : A) × (r ≡ ok a)) ⊎ ((e : Error) × (r ≡ err e))
Result-cases (ok a) = inl (a, refl)
Result-cases (err e) = inr (e, refl)

-- To split on the answer of a call and keep the equation.
pub Call-cases {ℓ} :
    {A W : Type ℓ} (p : Result A × W)
    → ((a : A) × (w : W) × (p ≡ (ok a, w))) ⊎ ((e : Error) × (w : W) × (p ≡ (err e, w)))
Call-cases (ok a, w) = inl (a, w, refl)
Call-cases (err e, w) = inr (e, w, refl)

module _ {ℓ} {S A B : Type ℓ} where
  continue-done :
      (p : Outcome A × S) (f : A → Eff S B) (b : B) (t : S)
      → continue p.0 f p.1 ≡ (done b, t)
      → (a : A) × (u : S) × (p ≡ (done a, u)) × (f a u ≡ (done b, t))
  continue-done (done a, u) f b t h = (a, u, refl, h)
  continue-done (fail e, u) f b t h = cc
  continue-done (panic, u) f b t h = cc

  -- A block that ends well has a first step that ends well.
  pub bind-done :
      (m : Eff S A) (f : A → Eff S B) (s : S) (b : B) (t : S)
      → (m >>= f) s ≡ (done b, t)
      → (a : A) × (u : S) × (m s ≡ (done a, u)) × (f a u ≡ (done b, t))
  bind-done m f s b t h = continue-done (m s) f b t h

module _ {ℓ} {S A : Type ℓ} where
  recover-done :
      (p : Outcome A × S) (h : Error → Eff S A) (b : A) (t : S)
      → ((e : Error) (u : S) → h e u ≢ (done b, t))
      → recover p.0 h p.1 ≡ (done b, t)
      → p ≡ (done b, t)
  recover-done (done a, u) h b t never e = e
  recover-done (fail x, u) h b t never e = absurd (never x u e)
  recover-done (panic, u) h b t never e = cc

  -- Where the handler always returns an error, only the call itself can end well.
  pub on_error-done :
      (m : Eff S A) (h : Error → Eff S A) (s : S) (b : A) (t : S)
      → ((e : Error) (u : S) → h e u ≢ (done b, t))
      → on_error m h s ≡ (done b, t)
      → m s ≡ (done b, t)
  on_error-done m h s b t never e = recover-done (m s) h b t never e
