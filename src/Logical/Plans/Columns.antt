-- ===== src/Logical/Plans/Columns.antt =====
-- The columns of a projection, from their indices to their names and back.
use ballista.Prelude.{
  ℕ, zero, suc, false, List, [], ◌∷◌, map, Option, none, some, get_elem?, All, ◌≡◌, refl, subst,
  ◌∙◌, arith,
}
use ballista.Text.{Text, text_eq, text_eq_refl}
use ballista.Error.{Result, ok, collect, collect-inverse, ok-injective}
use ballista.Logical.Arrow.{Field, Schema, field, name}
use ballista.Logical.Types.RoundTrip.{known_field}
use ballista.Logical.Plans.Writing.{column_names, column_name}
use ballista.Logical.Plans.Reading.{position}

-- No two fields have the same name.
abbrev pub DistinctNames : List Field → Type 0
DistinctNames [] = Unit
DistinctNames (f ∷ fs) = All (λ g. text_eq (name f) (name g) ≡ false) fs × DistinctNames fs

some-injective {ℓ} : {A : Type ℓ} {x a : A} → some x ≡ some a → x ≡ a
some-injective e = cc

All-get_elem? {ℓ κ} :
    {A : Type ℓ} (P : A → Type κ) (xs : List A) (i : ℕ) (a : A)
    → All P xs
    → get_elem? xs i ≡ some a
    → P a
All-get_elem? P [] i a h e = absurd (ground arith)
All-get_elem? P (x ∷ xs) zero a h e = subst P (some-injective e) h.0
All-get_elem? P (x ∷ xs) (suc i) a h e = All-get_elem? P xs i a h.1 e

position-get_elem? :
    (fs : List Field) (i : ℕ) (f : Field)
    → DistinctNames fs
    → get_elem? fs i ≡ some f
    → position (name f) fs ≡ some i
unfolding position
position-get_elem? [] i f d e = absurd (ground arith)
position-get_elem? (g ∷ fs) zero f d e = ground (arith, text_eq_refl (name f))
position-get_elem? (g ∷ fs) (suc i) f d e = rw (
  All-get_elem? (λ h. text_eq (name g) (name h) ≡ false) fs i f d.0 e,
  position-get_elem? fs i f d.1 e,
)

position-known_field :
    (column : Text) (fs : List Field) → position column (map known_field fs) ≡ position column fs
unfolding position known_field
position-known_field column [] = refl
position-known_field column (field n t nullable id ordered ∷ fs) =
    rw (position-known_field column fs)

-- With distinct names, the name that is written for a column is found at the column's index.
pub column-position :
    (schema : Schema)
    → DistinctNames schema.fields
    → (find : Text → Result ℕ)
    → ((column : Text) (i : ℕ)
        → position column (map known_field schema.fields) ≡ some i
        → find column ≡ ok i)
    → (columns : List ℕ) (names : List Text) → column_names schema columns ≡ ok names
    → collect find names ≡ ok columns
unfolding column_names
column-position schema distinct find finds columns names h =
    collect-inverse _ find (λ i n e. back i n (get_elem? schema.fields i) refl e) columns names h
  where
    back :
        (i : ℕ) (n : Text) (o : Option Field)
        → get_elem? schema.fields i ≡ o
        → column_name o ≡ ok n
        → find n ≡ ok i
    back i n none e h = absurd (ground arith)
    back i n (some f) e h = finds n i (
        position-known_field n schema.fields
        ∙ subst (λ n. position n schema.fields ≡ some i) (ok-injective h)
            (position-get_elem? schema.fields i f distinct e))
