-- ===== src/Error/Returns.antt =====
-- Actions that return a value: total correctness.
use ballista.Prelude.{◌≡◌, refl}
use ballista.Error.{Result, ok}
use ballista.Error.Actions.{Exec, ◌>>=◌}

pub record Returns {ℓ κ ι} {A : Type ℓ} {S : Type κ} (P : A → S → Type ι) (r : Result A × S)
    : Type (ℓ ⊔ κ ⊔ ι) where
  pub value : A
  pub state : S
  pub returned : r ≡ (ok value, state)
  pub holds : P value state

module _ {ℓ κ ι} {A : Type ℓ} {S : Type κ} {P : A → S → Type ι} where
  pub Returns-ok : (a : A) (s : S) → P a s → Returns P (ok a, s)
  Returns-ok a s h = record { value = a; state = s; returned = refl; holds = h }

  pub Returns-result : (r : Result A) (a : A) (s : S) → r ≡ ok a → P a s → Returns P (r, s)
  Returns-result r a s e h = record { value = a; state = s; returned = rw e; holds = h }

module _ {ℓ ι} {S A B : Type ℓ} {Q : A → S → Type ι} {P : B → S → Type ι} where
  pub Returns-bind :
      (m : Exec S A) (f : A → Exec S B) (s : S)
      → Returns Q (m s)
      → ((a : A) (v : S) → Q a v → Returns P (f a v))
      → Returns P ((m >>= f) s)
  Returns-bind m f s h k = rw h.returned (k h.value h.state h.holds)
