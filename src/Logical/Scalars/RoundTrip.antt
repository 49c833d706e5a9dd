-- ===== src/Logical/Scalars/RoundTrip.antt =====
-- What survives the writing and reading of scalar values.
use ballista.Prelude.{
  ◌^◌, ◌<◌, Option, none, some, InRange, i8_of_InRange, i16_of_InRange, ◌≡◌, refl, sym, ap, subst,
  arith,
}
use ballista.Error.{ok, bind-eq-ok, ok-injective}
use ballista.Logical.Arrow.{DataType}
use ballista.Logical.Scalars.{
  Debug, Datatype, ScalarValue, ScalarValues, PrimitiveScalarType, Value, Values, ScalarType,
  OptionalValue, boolean, float32, float64, int8, int16, int32, int64, uint8, uint16, uint32,
  uint64, utf8, large_utf8, list, date32, time_microsecond, time_nanosecond, unsupported,
  some_values, null_values, bool_value, utf8_value, large_utf8_value, int8_value, int16_value,
  int32_value, int64_value, uint8_value, uint16_value, uint32_value, uint64_value, float32_value,
  float64_value, date32_value, time_microsecond_value, time_nanosecond_value,
}
use ballista.Logical.Scalars.Types.{
  Datatype_try_from, Datatype_try_into, ScalarType_try_from, ScalarType_try_into,
}
use ballista.Logical.Scalars.Types.RoundTrip.{
  nullable_lists, Datatype_round_trip, from_i32-primitive_number,
}
use ballista.Logical.Scalars.Writing.{
  create_proto_scalar, item_type, check_item, checked_values, ScalarValue_try_from,
}
use ballista.Logical.Scalars.Reading.{null_scalar, scalar_of, scalars_of, ScalarValue_try_into}

abbrev OptionAll {ℓ κ} : {A : Type ℓ} → (A → Type κ) → Option A → Type κ
OptionAll P none = Unit
OptionAll P (some a) = P a

-- The numbers of a scalar value are in the ranges of their types, which are narrower than those of
-- the messages.
unfoldable mutual
  pub ScalarFits : ScalarValue → Type 0
  ScalarFits (int8 v) = OptionAll (InRange (2 ^ 7)) v
  ScalarFits (int16 v) = OptionAll (InRange (2 ^ 15)) v
  ScalarFits (uint8 v) = OptionAll (λ n. n < 2 ^ 8) v
  ScalarFits (uint16 v) = OptionAll (λ n. n < 2 ^ 16) v
  ScalarFits (list (some_values vs) t) = ScalarsFit vs
  ScalarFits v = Unit

  pub ScalarsFit : ScalarValues → Type 0
  ScalarsFit ScalarValues.no_values = Unit
  ScalarsFit (ScalarValues.values v vs) = ScalarFits v × ScalarsFit vs

-- The value with every field in the types of its lists allowed to be null.
unfoldable mutual
  pub nullable_scalar : ScalarValue → ScalarValue
  nullable_scalar (list (some_values vs) t) =
      list (some_values (nullable_scalars vs)) (nullable_lists t)
  nullable_scalar (list null_values t) = list null_values (nullable_lists t)
  nullable_scalar v = v

  nullable_scalars : ScalarValues → ScalarValues
  nullable_scalars ScalarValues.no_values = ScalarValues.no_values
  nullable_scalars (ScalarValues.values v vs) =
      ScalarValues.values (nullable_scalar v) (nullable_scalars vs)

module _ {ℓ} {A : Type ℓ} (p : PrimitiveScalarType) (f : A → Value) (g : Option A → ScalarValue)
    (null_read : null_scalar p ≡ ok (g none)) where
  create_proto_scalar-fits :
      (P : A → Type 0) (v : Option A) (m : OptionalValue)
      → ((a : A) → P a → scalar_of (f a) ≡ ok (g (some a)))
      → OptionAll P v
      → ok (create_proto_scalar v p f) ≡ ok m
      → ScalarValue_try_into m ≡ ok (g v)
  unfolding create_proto_scalar ScalarValue_try_into scalar_of
  create_proto_scalar-fits P v m read fits h =
      subst (λ m. ScalarValue_try_into m ≡ ok (g v)) (ok-injective h) (go v fits)
    where
      go :
          (v : Option A)
          → OptionAll P v
          → ScalarValue_try_into (create_proto_scalar v p f) ≡ ok (g v)
      go none fits = rw (from_i32-primitive_number p) null_read
      go (some a) fits = read a fits

  create_proto_scalar-read :
      (v : Option A) (m : OptionalValue)
      → ((a : A) → scalar_of (f a) ≡ ok (g (some a)))
      → ok (create_proto_scalar v p f) ≡ ok m
      → ScalarValue_try_into m ≡ ok (g v)
  create_proto_scalar-read v m read h =
      create_proto_scalar-fits (λ a. Unit) v m (λ a u. read a) (all v) h
    where
      all : (v : Option A) → OptionAll {A = A} (λ a. Unit {0}) v
      all none = tt
      all (some a) = tt

module _ (debug : Debug) where
  ScalarType_written :
      (t : DataType) (m : ScalarType)
      → ScalarType_try_from debug t ≡ ok m
      → (d : Datatype) × (m.datatype ≡ some d) × (Datatype_try_into d ≡ ok (nullable_lists t))
  unfolding ScalarType_try_from
  ScalarType_written t m h =
      let (d, written, made) = bind-eq-ok (Datatype_try_from debug t) _ h in
      (
        d,
        ap (λ (s : ScalarType). s.datatype) (sym (ok-injective made)),
        Datatype_round_trip debug t d written,
      )

  ScalarType_round_trip :
      (t : DataType) (m : ScalarType)
      → ScalarType_try_from debug t ≡ ok m
      → ScalarType_try_into m ≡ ok (nullable_lists t)
  unfolding ScalarType_try_into
  ScalarType_round_trip t m h = let (d, has, read) = ScalarType_written t m h in rw has read

  mutual
    unfolding ScalarValue_try_from checked_values ScalarFits ScalarsFit nullable_scalar
        nullable_scalars ScalarValue_try_into scalar_of scalars_of null_scalar

    scalar_round_trip :
        (v : ScalarValue) (m : OptionalValue)
        → ScalarValue_try_from debug v ≡ ok m
        → ScalarFits v
        → ScalarValue_try_into m ≡ ok (nullable_scalar v)
    scalar_round_trip (boolean v) m h fits =
        create_proto_scalar-read PrimitiveScalarType.bool bool_value boolean refl v m (λ a. refl) h
    scalar_round_trip (float32 v) m h fits =
        create_proto_scalar-read PrimitiveScalarType.float32 float32_value float32 refl v m
          (λ a. refl) h
    scalar_round_trip (float64 v) m h fits =
        create_proto_scalar-read PrimitiveScalarType.float64 float64_value float64 refl v m
          (λ a. refl) h
    scalar_round_trip (int32 v) m h fits =
        create_proto_scalar-read PrimitiveScalarType.int32 int32_value int32 refl v m (λ a. refl) h
    scalar_round_trip (int64 v) m h fits =
        create_proto_scalar-read PrimitiveScalarType.int64 int64_value int64 refl v m (λ a. refl) h
    scalar_round_trip (uint32 v) m h fits =
        create_proto_scalar-read PrimitiveScalarType.uint32 uint32_value uint32 refl v m (λ a. refl)
          h
    scalar_round_trip (uint64 v) m h fits =
        create_proto_scalar-read PrimitiveScalarType.uint64 uint64_value uint64 refl v m (λ a. refl)
          h
    scalar_round_trip (utf8 v) m h fits =
        create_proto_scalar-read PrimitiveScalarType.utf8 utf8_value utf8 refl v m (λ a. refl) h
    scalar_round_trip (large_utf8 v) m h fits =
        create_proto_scalar-read PrimitiveScalarType.large_utf8 large_utf8_value large_utf8 refl v m
          (λ a. refl) h
    scalar_round_trip (date32 v) m h fits =
        create_proto_scalar-read PrimitiveScalarType.date32 date32_value date32 refl v m (λ a. refl)
          h
    scalar_round_trip (time_microsecond v) m h fits =
        create_proto_scalar-read PrimitiveScalarType.time_microsecond time_microsecond_value
          time_microsecond refl v m (λ a. refl) h
    scalar_round_trip (time_nanosecond v) m h fits =
        create_proto_scalar-read PrimitiveScalarType.time_nanosecond time_nanosecond_value
          time_nanosecond refl v m (λ a. refl) h
    scalar_round_trip (int8 v) m h fits =
        create_proto_scalar-fits PrimitiveScalarType.int8 int8_value int8 refl (InRange (2 ^ 7)) v m
          (λ a r. rw (i8_of_InRange a r)) fits h
    scalar_round_trip (int16 v) m h fits =
        create_proto_scalar-fits PrimitiveScalarType.int16 int16_value int16 refl (InRange (2 ^ 15))
          v m (λ a r. rw (i16_of_InRange a r)) fits h
    scalar_round_trip (uint8 v) m h fits =
        create_proto_scalar-fits PrimitiveScalarType.uint8 uint8_value uint8 refl (λ n. n < 2 ^ 8) v
          m (λ a r. ground arith) fits h
    scalar_round_trip (uint16 v) m h fits =
        create_proto_scalar-fits PrimitiveScalarType.uint16 uint16_value uint16 refl
          (λ n. n < 2 ^ 16) v m (λ a r. ground arith) fits h
    scalar_round_trip (list (some_values vs) t) m h fits =
        let (item, is_item, rest) = bind-eq-ok (item_type vs t) _ h in
        let (ms, checked, rest') = bind-eq-ok (checked_values debug t item vs) _ rest in
        let (d, written, made) = bind-eq-ok (ScalarType_try_from debug t) _ rest' in
        let read = scalars_round_trip t item vs ms checked fits in
        subst (λ m. ScalarValue_try_into m ≡ ok (nullable_scalar (list (some_values vs) t)))
          (ok-injective made) (rw (read, ScalarType_round_trip t d written))
    scalar_round_trip (list null_values t) m h fits =
        let (d, written, made) = bind-eq-ok (ScalarType_try_from debug t) _ h in
        subst (λ m. ScalarValue_try_into m ≡ ok (nullable_scalar (list null_values t)))
          (ok-injective made)
          (let (c, has, read) = ScalarType_written t d written in rw (has, read))
    scalar_round_trip (unsupported v) m h fits = absurd (ground arith)

    scalars_round_trip :
        (t item : DataType) (vs : ScalarValues) (ms : Values)
        → checked_values debug t item vs ≡ ok ms
        → ScalarsFit vs
        → scalars_of ms ≡ ok (nullable_scalars vs)
    scalars_round_trip t item ScalarValues.no_values ms h fits =
        subst (λ ms. scalars_of ms ≡ ok ScalarValues.no_values) (ok-injective h) refl
    scalars_round_trip t item (ScalarValues.values v vs) ms h fits =
        let (u, checked, rest) = bind-eq-ok (check_item debug t v item) _ h in
        let (m, written, rest') = bind-eq-ok (ScalarValue_try_from debug v) _ rest in
        let (ns, others, made) = bind-eq-ok (checked_values debug t item vs) _ rest' in
        subst (λ ms. scalars_of ms ≡ ok (nullable_scalars (ScalarValues.values v vs)))
          (ok-injective made)
          (rw (scalar_round_trip v m written fits.0, scalars_round_trip t item vs ns others fits.1))

  pub ScalarValue_round_trip :
      (v : ScalarValue) (m : OptionalValue)
      → ScalarValue_try_from debug v ≡ ok m
      → ScalarFits v
      → ScalarValue_try_into m ≡ ok (nullable_scalar v)
  ScalarValue_round_trip v m h fits = scalar_round_trip v m h fits
