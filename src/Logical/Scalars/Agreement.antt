-- ===== src/Logical/Scalars/Agreement.antt =====
-- What the two readings of scalar values agree on, and the types of what they read.
use ballista.Prelude.{
  ℤ, pos, negsuc, Bool, true, false, Option, none, some, ◌≡◌, ◌⊎◌, inl, inr, refl, sym, ap, arith,
}
use ballista.Text.{Text}
use ballista.Error.{Result, ok, err, panicked, bind-eq-ok, ok-injective, required}
use ballista.Logical.Arrow.{DataType, TimeUnit}
use ballista.Logical.Messages.{from_i32}
use ballista.Logical.Scalars.{
  ScalarValue, PrimitiveScalarType, primitive_scalar_types, primitive_number, Value, boolean,
  float32, float64, int8, int16, int32, int64, uint8, uint16, uint32, uint64, utf8, large_utf8,
  date32, time_microsecond, time_nanosecond, bool_value, utf8_value, large_utf8_value, int8_value,
  int16_value, int32_value, int64_value, uint8_value, uint16_value, uint32_value, uint64_value,
  float32_value, float64_value, date32_value, time_microsecond_value, time_nanosecond_value,
  null_value, some_value,
}
use ballista.Logical.Scalars.Types.{PrimitiveScalarType_into, refuse_unless}
use ballista.Logical.Scalars.Types.RoundTrip.{from_i32-primitive_number}
use ballista.Logical.Scalars.Reading.{null_scalar, scalar_of, ScalarValue_try_into}
use ballista.Logical.Scalars.Checked.{
  typechecked_scalar_value_conversion, same_number, null_or_error,
}

-- The type of a scalar value that is no list.
abbrev pub leaf_type_of : ScalarValue → Option DataType
leaf_type_of (boolean v) = some DataType.boolean
leaf_type_of (float32 v) = some DataType.float32
leaf_type_of (float64 v) = some DataType.float64
leaf_type_of (int8 v) = some DataType.int8
leaf_type_of (int16 v) = some DataType.int16
leaf_type_of (int32 v) = some DataType.int32
leaf_type_of (int64 v) = some DataType.int64
leaf_type_of (uint8 v) = some DataType.uint8
leaf_type_of (uint16 v) = some DataType.uint16
leaf_type_of (uint32 v) = some DataType.uint32
leaf_type_of (uint64 v) = some DataType.uint64
leaf_type_of (utf8 v) = some DataType.utf8
leaf_type_of (large_utf8 v) = some DataType.large_utf8
leaf_type_of (date32 v) = some DataType.date32
leaf_type_of (time_microsecond v) = some (DataType.time64 TimeUnit.microsecond)
leaf_type_of (time_nanosecond v) = some (DataType.time64 TimeUnit.nanosecond)
leaf_type_of _ = none

same_number_sound : (m n : ℤ) → same_number m n ≡ true → m ≡ n
same_number_sound (pos m) (pos n) h = ground arith
same_number_sound (negsuc m) (negsuc n) h = ground arith
same_number_sound (pos m) (negsuc n) h = ground arith
same_number_sound (negsuc m) (pos n) h = ground arith

pub refuse_unless-true :
    (b : Bool) (message : Text) {u : Unit} → refuse_unless b message ≡ ok u → b ≡ true
refuse_unless-true true message h = refl
refuse_unless-true false message h = absurd (ground arith)

null_or_error-ok : (r : Result ScalarValue) (s : ScalarValue) → null_or_error r ≡ ok s → r ≡ ok s
null_or_error-ok (ok v) s h = h
null_or_error-ok (err e) s h = absurd (ground arith)
null_or_error-ok panicked s h = h

-- A null that is accepted is the null of the type that is required.
null_accepted :
    (n : ℤ) (p : PrimitiveScalarType) (s : ScalarValue)
    → typechecked_scalar_value_conversion (null_value n) p ≡ ok s
    → (n ≡ primitive_number p) × (null_scalar p ≡ ok s)
unfolding typechecked_scalar_value_conversion
null_accepted n p s h =
    let (u, checked, rest) =
      bind-eq-ok (refuse_unless (same_number n (primitive_number p)) _) _ h in
    let (q, found, made) = bind-eq-ok (required (from_i32 primitive_scalar_types n) _) _ rest in
    let same = same_number_sound n (primitive_number p) (refuse_unless-true _ _ checked) in
    let known = rw (same, from_i32-primitive_number p) at found in
    (same, null_or_error-ok (null_scalar p) s (rw (ok-injective known) made))

null_agrees :
    (n : ℤ) (p : PrimitiveScalarType) (s : ScalarValue)
    → typechecked_scalar_value_conversion (null_value n) p ≡ ok s
    → ScalarValue_try_into (some_value (null_value n)) ≡ ok s
unfolding ScalarValue_try_into scalar_of
null_agrees n p s h =
    let (same, found) = null_accepted n p s h in rw (same, from_i32-primitive_number p) found

-- A leaf that the reading of lists accepts is read as the same value by the other reading.
pub typechecked_scalar_value_conversion-agrees :
    (v : Value) (p : PrimitiveScalarType) (s : ScalarValue)
    → typechecked_scalar_value_conversion v p ≡ ok s
    → ScalarValue_try_into (some_value v) ≡ ok s
unfolding typechecked_scalar_value_conversion ScalarValue_try_into scalar_of
typechecked_scalar_value_conversion-agrees (null_value n) p s h = null_agrees n p s h
typechecked_scalar_value_conversion-agrees (bool_value v) PrimitiveScalarType.bool s h = h
typechecked_scalar_value_conversion-agrees (utf8_value v) PrimitiveScalarType.utf8 s h = h
typechecked_scalar_value_conversion-agrees (large_utf8_value v) PrimitiveScalarType.large_utf8 s h =
    h
typechecked_scalar_value_conversion-agrees (int8_value v) PrimitiveScalarType.int8 s h = h
typechecked_scalar_value_conversion-agrees (int16_value v) PrimitiveScalarType.int16 s h = h
typechecked_scalar_value_conversion-agrees (int32_value v) PrimitiveScalarType.int32 s h = h
typechecked_scalar_value_conversion-agrees (int64_value v) PrimitiveScalarType.int64 s h = h
typechecked_scalar_value_conversion-agrees (uint8_value v) PrimitiveScalarType.uint8 s h = h
typechecked_scalar_value_conversion-agrees (uint16_value v) PrimitiveScalarType.uint16 s h = h
typechecked_scalar_value_conversion-agrees (uint32_value v) PrimitiveScalarType.uint32 s h = h
typechecked_scalar_value_conversion-agrees (uint64_value v) PrimitiveScalarType.uint64 s h = h
typechecked_scalar_value_conversion-agrees (float32_value v) PrimitiveScalarType.float32 s h = h
typechecked_scalar_value_conversion-agrees (float64_value v) PrimitiveScalarType.float64 s h = h
typechecked_scalar_value_conversion-agrees (date32_value v) PrimitiveScalarType.date32 s h = h
typechecked_scalar_value_conversion-agrees (time_microsecond_value v)
      PrimitiveScalarType.time_microsecond s h =
    h
typechecked_scalar_value_conversion-agrees (time_nanosecond_value v)
      PrimitiveScalarType.time_microsecond s h =
    h
typechecked_scalar_value_conversion-agrees _ _ s h = absurd (ground arith)

null_scalar-typed :
    (p : PrimitiveScalarType) (s : ScalarValue)
    → null_scalar p ≡ ok s
    → leaf_type_of s ≡ some (PrimitiveScalarType_into p)
unfolding null_scalar PrimitiveScalarType_into
null_scalar-typed PrimitiveScalarType.null s h = absurd (ground arith)
null_scalar-typed _ s h = ap leaf_type_of (sym (ok-injective h))

-- A leaf that the reading of lists accepts for a type is of that type, save that nanoseconds are
-- accepted for microseconds.
pub typechecked_scalar_value_conversion-typed :
    (v : Value) (p : PrimitiveScalarType) (s : ScalarValue)
    → typechecked_scalar_value_conversion v p ≡ ok s
    → (leaf_type_of s ≡ some (PrimitiveScalarType_into p))
      ⊎ ((n : ℤ) × (v ≡ time_nanosecond_value n)
          × (p ≡ PrimitiveScalarType.time_microsecond)
          × (s ≡ time_nanosecond (some n)))
unfolding typechecked_scalar_value_conversion PrimitiveScalarType_into
typechecked_scalar_value_conversion-typed (null_value n) p s h =
    inl (null_scalar-typed p s (null_accepted n p s h).1)
typechecked_scalar_value_conversion-typed (time_nanosecond_value n)
      PrimitiveScalarType.time_microsecond s h =
    inr (n, refl, refl, sym (ok-injective h))
typechecked_scalar_value_conversion-typed (bool_value v) PrimitiveScalarType.bool s h =
    inl (ap leaf_type_of (sym (ok-injective h)))
typechecked_scalar_value_conversion-typed (utf8_value v) PrimitiveScalarType.utf8 s h =
    inl (ap leaf_type_of (sym (ok-injective h)))
typechecked_scalar_value_conversion-typed (large_utf8_value v) PrimitiveScalarType.large_utf8 s h =
    inl (ap leaf_type_of (sym (ok-injective h)))
typechecked_scalar_value_conversion-typed (int8_value v) PrimitiveScalarType.int8 s h =
    inl (ap leaf_type_of (sym (ok-injective h)))
typechecked_scalar_value_conversion-typed (int16_value v) PrimitiveScalarType.int16 s h =
    inl (ap leaf_type_of (sym (ok-injective h)))
typechecked_scalar_value_conversion-typed (int32_value v) PrimitiveScalarType.int32 s h =
    inl (ap leaf_type_of (sym (ok-injective h)))
typechecked_scalar_value_conversion-typed (int64_value v) PrimitiveScalarType.int64 s h =
    inl (ap leaf_type_of (sym (ok-injective h)))
typechecked_scalar_value_conversion-typed (uint8_value v) PrimitiveScalarType.uint8 s h =
    inl (ap leaf_type_of (sym (ok-injective h)))
typechecked_scalar_value_conversion-typed (uint16_value v) PrimitiveScalarType.uint16 s h =
    inl (ap leaf_type_of (sym (ok-injective h)))
typechecked_scalar_value_conversion-typed (uint32_value v) PrimitiveScalarType.uint32 s h =
    inl (ap leaf_type_of (sym (ok-injective h)))
typechecked_scalar_value_conversion-typed (uint64_value v) PrimitiveScalarType.uint64 s h =
    inl (ap leaf_type_of (sym (ok-injective h)))
typechecked_scalar_value_conversion-typed (float32_value v) PrimitiveScalarType.float32 s h =
    inl (ap leaf_type_of (sym (ok-injective h)))
typechecked_scalar_value_conversion-typed (float64_value v) PrimitiveScalarType.float64 s h =
    inl (ap leaf_type_of (sym (ok-injective h)))
typechecked_scalar_value_conversion-typed (date32_value v) PrimitiveScalarType.date32 s h =
    inl (ap leaf_type_of (sym (ok-injective h)))
typechecked_scalar_value_conversion-typed (time_microsecond_value v)
      PrimitiveScalarType.time_microsecond s h =
    inl (ap leaf_type_of (sym (ok-injective h)))
typechecked_scalar_value_conversion-typed _ _ s h = absurd (ground arith)
