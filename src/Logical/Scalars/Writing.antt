-- ===== src/Logical/Scalars/Writing.antt =====
-- The writing of scalar values as messages, in to_proto.rs of rust/core/src/serde/logical_plan.
use ballista.Prelude.{ℕ, ◌++◌, Option, none, some, ◌==◌}
use ballista.Text.{codes}
use ballista.Error.{general, Result, ok, err, panicked, ◌>>=◌}
use ballista.Logical.Arrow.{DataType, data_type}
use ballista.Logical.Scalars.{
  Debug, ScalarValue, ScalarValues, PrimitiveScalarType, primitive_number, Value, Values,
  OptionalValue, boolean, float32, float64, int8, int16, int32, int64, uint8, uint16, uint32,
  uint64, utf8, large_utf8, list, date32, time_microsecond, time_nanosecond, unsupported,
  some_values, null_values, bool_value, utf8_value, large_utf8_value, int8_value, int16_value,
  int32_value, int64_value, uint8_value, uint16_value, uint32_value, uint64_value, float32_value,
  float64_value, date32_value, time_microsecond_value, time_nanosecond_value, list_value,
  null_list_value, null_value, some_value,
}
use ballista.Logical.Scalars.Types.{ScalarType_try_from, refuse_unless}

-- `std::mem::discriminant`: two types have the same number when they are of the same variant.
abbrev discriminant : DataType → ℕ
discriminant DataType.null = 0
discriminant DataType.boolean = 1
discriminant DataType.int8 = 2
discriminant DataType.int16 = 3
discriminant DataType.int32 = 4
discriminant DataType.int64 = 5
discriminant DataType.uint8 = 6
discriminant DataType.uint16 = 7
discriminant DataType.uint32 = 8
discriminant DataType.uint64 = 9
discriminant DataType.float16 = 10
discriminant DataType.float32 = 11
discriminant DataType.float64 = 12
discriminant (DataType.timestamp unit timezone) = 13
discriminant DataType.date32 = 14
discriminant DataType.date64 = 15
discriminant (DataType.time32 unit) = 16
discriminant (DataType.time64 unit) = 17
discriminant (DataType.duration unit) = 18
discriminant (DataType.interval unit) = 19
discriminant DataType.binary = 20
discriminant (DataType.fixed_size_binary size) = 21
discriminant DataType.large_binary = 22
discriminant DataType.utf8 = 23
discriminant DataType.large_utf8 = 24
discriminant (DataType.list f) = 25
discriminant (DataType.fixed_size_list f size) = 26
discriminant (DataType.large_list f) = 27
discriminant (DataType.struct fs) = 28
discriminant (DataType.union fs) = 29
discriminant (DataType.dictionary key value) = 30
discriminant (DataType.decimal whole fractional) = 31

unfoldable pub create_proto_scalar {ℓ} :
    {A : Type ℓ} → Option A → PrimitiveScalarType → (A → Value) → OptionalValue
create_proto_scalar none null_arrow_type constructor =
    some_value (null_value (primitive_number null_arrow_type))
create_proto_scalar (some v) null_arrow_type constructor = some_value (constructor v)

-- `match datatype` of a list that has values; `todo!` panics. An empty list is not looked into: its
-- values are none whatever the type.
abbrev pub item_type : ScalarValues → DataType → Result DataType
item_type ScalarValues.no_values datatype = ok datatype
item_type (ScalarValues.values v vs) (DataType.list f) = ok (data_type f)
item_type (ScalarValues.values v vs) _ = panicked

module _ (debug : Debug) where
  -- The checks of a value in a list of type `datatype` against the type of the list's items,
  -- before the value is converted.
  unfoldable pub check_item : DataType → ScalarValue → DataType → Result {0} Unit
  check_item datatype (list vs (DataType.list list_field)) (DataType.list f) =
      refuse_unless (discriminant (data_type list_field) == discriminant (data_type f)) (
        codes "Protobuf serialization error: Lists with inconsistent typing "
        ++ debug.data_type (data_type list_field)
        ++ codes " and "
        ++ debug.data_type (data_type f)
        ++ codes " found within list")
  check_item datatype (boolean v) DataType.boolean = ok tt
  check_item datatype (float32 v) DataType.float32 = ok tt
  check_item datatype (float64 v) DataType.float64 = ok tt
  check_item datatype (int8 v) DataType.int8 = ok tt
  check_item datatype (int16 v) DataType.int16 = ok tt
  check_item datatype (int32 v) DataType.int32 = ok tt
  check_item datatype (int64 v) DataType.int64 = ok tt
  check_item datatype (uint8 v) DataType.uint8 = ok tt
  check_item datatype (uint16 v) DataType.uint16 = ok tt
  check_item datatype (uint32 v) DataType.uint32 = ok tt
  check_item datatype (uint64 v) DataType.uint64 = ok tt
  check_item datatype (utf8 v) DataType.utf8 = ok tt
  check_item datatype (large_utf8 v) DataType.large_utf8 = ok tt
  check_item datatype v scalar_type = err (
      general (
        codes "Protobuf serialization error, "
        ++ debug.scalar_value v
        ++ codes " was inconsistent with designated type "
        ++ debug.data_type datatype))

  unfoldable mutual
    unfolding check_item create_proto_scalar ScalarType_try_from

    pub ScalarValue_try_from : ScalarValue → Result OptionalValue
    ScalarValue_try_from (boolean v) =
        ok (create_proto_scalar v PrimitiveScalarType.bool bool_value)
    ScalarValue_try_from (float32 v) =
        ok (create_proto_scalar v PrimitiveScalarType.float32 float32_value)
    ScalarValue_try_from (float64 v) =
        ok (create_proto_scalar v PrimitiveScalarType.float64 float64_value)
    ScalarValue_try_from (int8 v) = ok (create_proto_scalar v PrimitiveScalarType.int8 int8_value)
    ScalarValue_try_from (int16 v) =
        ok (create_proto_scalar v PrimitiveScalarType.int16 int16_value)
    ScalarValue_try_from (int32 v) =
        ok (create_proto_scalar v PrimitiveScalarType.int32 int32_value)
    ScalarValue_try_from (int64 v) =
        ok (create_proto_scalar v PrimitiveScalarType.int64 int64_value)
    ScalarValue_try_from (uint8 v) =
        ok (create_proto_scalar v PrimitiveScalarType.uint8 uint8_value)
    ScalarValue_try_from (uint16 v) =
        ok (create_proto_scalar v PrimitiveScalarType.uint16 uint16_value)
    ScalarValue_try_from (uint32 v) =
        ok (create_proto_scalar v PrimitiveScalarType.uint32 uint32_value)
    ScalarValue_try_from (uint64 v) =
        ok (create_proto_scalar v PrimitiveScalarType.uint64 uint64_value)
    ScalarValue_try_from (utf8 v) = ok (create_proto_scalar v PrimitiveScalarType.utf8 utf8_value)
    ScalarValue_try_from (large_utf8 v) =
        ok (create_proto_scalar v PrimitiveScalarType.large_utf8 large_utf8_value)
    ScalarValue_try_from (list (some_values vs) datatype) = do
      scalar_type ← item_type vs datatype
      type_checked_values ← checked_values datatype scalar_type vs
      t ← ScalarType_try_from debug datatype
      ok (some_value (list_value (some t) type_checked_values))
    ScalarValue_try_from (list null_values datatype) = do
      t ← ScalarType_try_from debug datatype
      ok (some_value (null_list_value t))
    ScalarValue_try_from (date32 v) =
        ok (create_proto_scalar v PrimitiveScalarType.date32 date32_value)
    ScalarValue_try_from (time_microsecond v) =
        ok (create_proto_scalar v PrimitiveScalarType.time_microsecond time_microsecond_value)
    ScalarValue_try_from (time_nanosecond v) =
        ok (create_proto_scalar v PrimitiveScalarType.time_nanosecond time_nanosecond_value)
    ScalarValue_try_from (unsupported v) = err (
        general (
          codes "Error converting to Datatype to scalar type, "
          ++ debug.scalar_value (unsupported v)
          ++ codes " is invalid as a datafusion scalar."))

    pub checked_values : DataType → DataType → ScalarValues → Result Values
    checked_values datatype scalar_type ScalarValues.no_values = ok Values.no_values
    checked_values datatype scalar_type (ScalarValues.values v vs) = do
      checked ← check_item datatype v scalar_type
      first ← ScalarValue_try_from v
      rest ← checked_values datatype scalar_type vs
      ok (Values.values first rest)
