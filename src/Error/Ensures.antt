-- ===== src/Error/Ensures.antt =====
-- Postconditions of actions that may fail: what holds of the value and the state when a value is
-- returned. An error or a panic satisfies every postcondition.
use ballista.Prelude.{◌≡◌, refl}
use ballista.Error.{BallistaError, Result, ok, err, panicked}
use ballista.Error.Actions.{Exec, continue, ◌>>=◌}

abbrev pub Holds {ℓ κ ι} : {A : Type ℓ} {S : Type κ} → (A → S → Type ι) → Result A × S → Type ι
Holds P (ok a, s) = P a s
Holds P (err e, s) = Unit
Holds P (panicked, s) = Unit

pub record Ensures {ℓ κ ι} {A : Type ℓ} {S : Type κ} (P : A → S → Type ι) (r : Result A × S)
    : Type ι where
  pub holds : Holds P r

module _ {ℓ κ ι} {A : Type ℓ} {S : Type κ} {P : A → S → Type ι} where
  pub Ensures-ok : (a : A) (s : S) → P a s → Ensures P (ok a, s)
  Ensures-ok a s h = record { holds = h }

  pub Ensures-err : (e : BallistaError) (s : S) → Ensures P (err e, s)
  Ensures-err e s = record { holds = tt }

  pub Ensures-panicked : (s : S) → Ensures P (panicked, s)
  Ensures-panicked s = record { holds = tt }

  pub Ensures-result : (r : Result A) (s : S) → ((a : A) → r ≡ ok a → P a s) → Ensures P (r, s)
  Ensures-result (ok a) s k = record { holds = k a refl }
  Ensures-result (err e) s k = record { holds = tt }
  Ensures-result panicked s k = record { holds = tt }

  pub Ensures-outcome : (r : Result A × S) → ((a : A) (t : S) → r ≡ (ok a, t) → P a t) → Ensures P r
  Ensures-outcome (ok a, s) k = record { holds = k a s refl }
  Ensures-outcome (err e, s) k = record { holds = tt }
  Ensures-outcome (panicked, s) k = record { holds = tt }

  pub Ensures-use : (r : Result A × S) (a : A) (s : S) → Ensures P r → r ≡ (ok a, s) → P a s
  Ensures-use r a s h e = rw e at h.holds

module _ {ℓ ι} {S A B : Type ℓ} {Q : A → S → Type ι} {P : B → S → Type ι} where
  continue-Ensures :
      (r : Result A) (u : S) (f : A → Exec S B)
      → Ensures Q (r, u)
      → ((a : A) (v : S) → Q a v → Ensures P (f a v))
      → Ensures P (continue r f u)
  continue-Ensures (ok a) u f h k = k a u h.holds
  continue-Ensures (err e) u f h k = record { holds = tt }
  continue-Ensures panicked u f h k = record { holds = tt }

  -- A block ensures what its rest ensures after whatever its first action ensures.
  pub Ensures-bind :
      (m : Exec S A) (f : A → Exec S B) (s : S)
      → Ensures Q (m s)
      → ((a : A) (v : S) → Q a v → Ensures P (f a v))
      → Ensures P ((m >>= f) s)
  Ensures-bind m f s h k = continue-Ensures (m s).0 (m s).1 f h k

module _ {ℓ ι} {S A B : Type ℓ} {P : B → S → Type ι} where
  pub Ensures-lift :
      (r : Result A) (f : A → Exec S B) (s : S)
      → ((a : A) → r ≡ ok a → Ensures P (f a s))
      → Ensures P (continue r f s)
  Ensures-lift (ok a) f s k = k a refl
  Ensures-lift (err e) f s k = record { holds = tt }
  Ensures-lift panicked f s k = record { holds = tt }
