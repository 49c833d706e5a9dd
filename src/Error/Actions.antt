-- ===== src/Error/Actions.antt =====
-- Actions on a state that may fail: an `async fn` of `&self` or `&mut self` returning a `Result`.
use ballista.Prelude.{◌≡◌, refl, arith}
use ballista.Error.{Result, ok, err, panicked}

abbrev pub Exec {ℓ κ} : Type ℓ → Type κ → Type (ℓ ⊔ κ)
Exec S A = S → Result A × S

module _ {ℓ κ} {S : Type ℓ} {A : Type κ} where
  abbrev pub pure : A → Exec S A
  pure a s = (ok a, s)

  abbrev pub lift : Result A → Exec S A
  lift r s = (r, s)

module _ {ℓ} {S A B : Type ℓ} where
  abbrev pub continue : Result A → (A → Exec S B) → Exec S B
  continue (ok a) f s = f a s
  continue (err e) f s = (err e, s)
  continue panicked f s = (panicked, s)

  infixl 5 ◌>>=◌ ◌>>◌
  abbrev pub ◌>>=◌ : Exec S A → (A → Exec S B) → Exec S B
  ◌>>=◌ m f s = let (r, s') = m s in continue r f s'

  abbrev pub ◌>>◌ : Exec S A → Exec S B → Exec S B
  m >> k = m >>= λ _. k

  -- A block that returns a value has run its first action to a value.
  pub >>=-eq-ok :
      (m : Exec S A) (f : A → Exec S B) (s t : S) (b : B)
      → (m >>= f) s ≡ (ok b, t)
      → (a : A) × (u : S) × (m s ≡ (ok a, u)) × (f a u ≡ (ok b, t))
  >>=-eq-ok m f s t b h = go (m s).0 (m s).1 h refl
    where
      go :
          (r : Result A) (u : S)
          → continue r f u ≡ (ok b, t)
          → m s ≡ (r, u)
          → (a : A) × (u : S) × (m s ≡ (ok a, u)) × (f a u ≡ (ok b, t))
      go (ok a) u e d = (a, u, d, e)
      go (err x) u e d = absurd (ground arith)
      go panicked u e d = absurd (ground arith)

  -- A result that is computed with no look at the state.
  pub continue-lift :
      (r : Result A) (f : A → Result B) (s t : S)
      → (continue r (λ a. lift (f a)) s).0 ≡ (continue r (λ a. lift (f a)) t).0
  continue-lift (ok a) f s t = refl
  continue-lift (err e) f s t = refl
  continue-lift panicked f s t = refl

  pub continue_keeps :
      (r : Result A) (f : A → Exec S B) (s : S) → ((a : A) → (f a s).1 ≡ s) → (continue r f s).1 ≡ s
  continue_keeps (ok a) f s h = h a
  continue_keeps (err e) f s h = refl
  continue_keeps panicked f s h = refl
