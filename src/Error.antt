-- ===== src/Error.antt =====
-- rust/core/src/error.rs, and the calls that may fail: a `Result`, and an action on a state that
-- keeps what was written before an error.
pub mod Actions
pub mod Ensures
pub mod Returns
use ballista.Prelude.{List, [], ◌∷◌, ◌++◌, ◌≡◌, refl, subst, arith, Option, none, some}
use ballista.Text.{Text, codes}

-- An error of another library is kept as the text that it is rendered to.
pub data BallistaError : Type 0 where
  not_implemented general internal : Text → BallistaError
  arrow_error data_fusion_error sql_error io_error : Text → BallistaError
  tonic_error grpc_error tokio_error : Text → BallistaError

-- `panicked` is a failed `unwrap`, index or assertion, which ends the task that runs it.
pub data Result {ℓ} (A : Type ℓ) : Type ℓ where
  ok : A → Result A
  err : BallistaError → Result A
  panicked : Result A

abbrev pub bind {ℓ κ} : {A : Type ℓ} {B : Type κ} → Result A → (A → Result B) → Result B
bind (ok a) f = f a
bind (err e) f = err e
bind panicked f = panicked

-- `ok_or_else`
abbrev pub required {ℓ} : {A : Type ℓ} → Option A → Text → Result A
required none message = err (general message)
required (some a) message = ok a

infixl 5 ◌>>=◌
abbrev pub ◌>>=◌ {ℓ κ} : {A : Type ℓ} {B : Type κ} → Result A → (A → Result B) → Result B
◌>>=◌ = bind

-- The loop of `iter().map(f).collect::<Result<Vec<_>, _>>()?`, which stops at the first failure.
abbrev pub collect {ℓ κ} : {A : Type ℓ} {B : Type κ} → (A → Result B) → List A → Result (List B)
collect f [] = ok []
collect f (x ∷ xs) = do y ← f x; ys ← collect f xs; ok (y ∷ ys)

-- What is read, whatever the message of an error says.
abbrev pub value_of {ℓ} : {A : Type ℓ} → Result A → Option A
value_of (ok a) = some a
value_of (err e) = none
value_of panicked = none

pub bind-eq-ok {ℓ κ} :
    {A : Type ℓ} {B : Type κ} (m : Result A) (f : A → Result B) {b : B}
    → bind m f ≡ ok b
    → (a : A) × (m ≡ ok a) × (f a ≡ ok b)
bind-eq-ok (ok a) f h = (a, refl, h)
bind-eq-ok (err e) f h = absurd (ground arith)
bind-eq-ok panicked f h = absurd (ground arith)

pub bind-cong {ℓ κ} :
    {A : Type ℓ} {B : Type κ} (m : Result A) {f g : A → Result B}
    → ((a : A) → f a ≡ g a)
    → bind m f ≡ bind m g
bind-cong (ok a) h = h a
bind-cong (err e) h = refl
bind-cong panicked h = refl

pub ok-injective {ℓ} : {A : Type ℓ} {a b : A} → ok a ≡ ok b → a ≡ b
ok-injective h = cc

pub collect-inverse {ℓ κ} :
    {A : Type ℓ} {B : Type κ} (f : A → Result B) (g : B → Result A)
    → ((a : A) (b : B) → f a ≡ ok b → g b ≡ ok a)
    → (xs : List A) (ys : List B) → collect f xs ≡ ok ys
    → collect g ys ≡ ok xs
collect-inverse f g back [] ys h = subst (λ ys. collect g ys ≡ ok []) (ok-injective h) refl
collect-inverse f g back (x ∷ xs) ys h =
    let (y, made, rest) = bind-eq-ok (f x) _ h in
    let (zs, others, all) = bind-eq-ok (collect f xs) _ rest in
    subst (λ ys. collect g ys ≡ ok (x ∷ xs)) (ok-injective all)
      (rw (back x y made, collect-inverse f g back xs zs others))

unfoldable pub ballista_error : Text → BallistaError
ballista_error message = general message

unfoldable pub display : BallistaError → Text
display (not_implemented desc) = codes "Not implemented: " ++ desc
display (general desc) = codes "General error: " ++ desc
display (internal desc) = codes "Internal Ballista error: " ++ desc
display (arrow_error desc) = codes "Arrow error: " ++ desc
display (data_fusion_error desc) = codes "DataFusion error: " ++ desc
display (sql_error desc) = codes "SQL error: " ++ desc
display (io_error desc) = codes "IO error: " ++ desc
display (tonic_error desc) = codes "Tonic error: " ++ desc
display (grpc_error desc) = codes "Grpc error: " ++ desc
display (tokio_error desc) = codes "Tokio join error: " ++ desc
