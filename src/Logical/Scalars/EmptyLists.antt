-- ===== src/Logical/Scalars/EmptyLists.antt =====
-- Where the two readings of scalar values differ: empty lists.
use ballista.Prelude.{
  ◌<◌, zero, suc, true, Option, none, some, ◌==◌, ◌≡◌, sym, ap, ◌∙◌, ℕ, length, not, ◌-◌, arith,
}
use ballista.Text.{Text}
use ballista.Error.{Result, ok, err, panicked, bind, bind-eq-ok, required, value_of}
use ballista.Logical.Arrow.{DataType}
use ballista.Logical.Messages.{from_i32}
use ballista.Logical.Scalars.{
  ScalarValue, ScalarValues, PrimitiveScalarType, primitive_scalar_types, Datatype, ScalarListType,
  Values, list, some_values, null_values, list_value, some_value,
}
use ballista.Logical.Scalars.Types.{
  ScalarListType_try_into, ScalarType_try_into, Datatype_try_into, refuse_unless,
}
use ballista.Logical.Scalars.Types.RoundTrip.{ScalarListType_try_into-agrees}
use ballista.Logical.Scalars.Reading.{scalar_of, scalars_of, ScalarValue_try_into}
use ballista.Logical.Scalars.Agreement.{refuse_unless-true}
use ballista.Logical.Scalars.Checked.{
  Value_try_into, list_of, nested_values, leaf_values, values_at, none_if_empty,
}

value_of-ok {ℓ} : {A : Type ℓ} (r : Result A) (a : A) → value_of r ≡ some a → r ≡ ok a
value_of-ok (ok b) a h = ground arith
value_of-ok (err e) a h = absurd (ground arith)
value_of-ok panicked a h = absurd (ground arith)

-- Reading the type has found its leaf and at least one name.
leaf_found :
    (l : ScalarListType) (t : DataType)
    → ScalarListType_try_into l ≡ ok t
    → (p : PrimitiveScalarType) × (m : ℕ) × (from_i32 primitive_scalar_types l.deepest_type
        ≡ some p)
      × (length l.field_names ≡ suc m)
unfolding ScalarListType_try_into
leaf_found l t h =
    let (u, checked, rest) = bind-eq-ok (refuse_unless (not (length l.field_names == 0)) _) _ h in
    let (p, found, made) =
      bind-eq-ok (required (from_i32 primitive_scalar_types l.deepest_type) _) _ rest in
    let deep : 0 < length l.field_names =
      not_zero (length l.field_names) (refuse_unless-true _ _ checked) in
    (p, length l.field_names - 1, required-ok _ _ found, omega (arith, deep))
  where
    not_zero : (n : ℕ) → not (n == 0) ≡ true → 0 < n
    not_zero zero h = absurd (ground arith)
    not_zero (suc n) h = omega arith

    required-ok :
        (o : Option PrimitiveScalarType) (message : Text) {p : PrimitiveScalarType}
        → required o message ≡ ok p
        → o ≡ some p
    required-ok none message h = absurd (ground arith)
    required-ok (some q) message h = ground arith

no_values_read :
    (leaf : Option PrimitiveScalarType) (p : PrimitiveScalarType)
    → leaf ≡ some p
    → (message : Text) (depth m : ℕ) → depth ≡ suc m
    → (r : Result DataType) (t : DataType) → r ≡ ok t
    → bind {B = ScalarValue} (required leaf message) (λ p.
      bind
        (values_at depth p Values.no_values (ok ScalarValues.no_values))
        λ vs. bind r λ t. ok (list (none_if_empty vs) t))
      ≡ ok (list null_values t)
unfolding leaf_values
no_values_read leaf p found message depth zero deep r t read = rw (found, deep, read)
no_values_read leaf p found message depth (suc m) deep r t read = rw (found, deep, read)

-- An empty list with a readable list type: the reading of lists makes a null list of it, the other
-- reading an empty list.
pub empty_list_readings :
    (l : ScalarListType) (t : DataType)
    → ScalarListType_try_into l ≡ ok t
    → let empty =
        list_value (some (record { datatype = some (Datatype.list l) })) Values.no_values in
      (Value_try_into empty ≡ ok (list null_values t))
      × (ScalarValue_try_into (some_value empty) ≡ ok (list (some_values ScalarValues.no_values) t))
unfolding Value_try_into list_of nested_values leaf_values ScalarValue_try_into scalar_of scalars_of
    ScalarType_try_into
empty_list_readings l t h =
    let (p, m, found, deep) = leaf_found l t h in
    let read =
      value_of-ok (Datatype_try_into (Datatype.list l)) t
        (sym (ScalarListType_try_into-agrees l) ∙ ap value_of h) in
    (
      no_values_read (from_i32 primitive_scalar_types l.deepest_type) p found _
          (length l.field_names) m deep (ScalarListType_try_into l) t h,
      rw read,
    )
